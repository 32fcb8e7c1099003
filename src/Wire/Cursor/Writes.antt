-- ===== src/Wire/Cursor/Writes.antt =====
-- What an operation of the cursor puts into the slice when there is room for it.
use otelcol_exporter_netflow.Common.{
  ℕ, zero, suc, ◌+◌, ◌≤◌, ◌≡◌, refl, ap, sym, subst, ◌∙◌, List, [], ◌∷◌, ◌++◌, length, take,
  replicate, length-append, arith,
}
use mathlib.Core.Path.{ap₂}
use otelcol_exporter_netflow.Common.BigEndian.{u16_bytes, u32_bytes, u64_bytes}
use otelcol_exporter_netflow.Wire.Cursor.{
  Cursor, Put, ◌>>◌, skip, place, advance, new, write_byte, write_uint8, write_uint16, write_uint32,
  write_uint64, copy, reserve, put8, put16, put32, put64, put_copy, put_string, put_each, put_zeros,
}
use otelcol_exporter_netflow.Wire.Cursor.Place.{length-place, place_nothing, place_behind}

-- An operation that puts exactly these bytes.
pub record Writes (put : Put) (bytes : List ℕ) : Type 0 where
  pub run : (c : Cursor) → c.off + length bytes ≤ length c.buf → put c ≡ advance c bytes

abbrev cursor : List ℕ → ℕ → Cursor
cursor buf off = record { buf = buf; off = off }

pub advance_twice :
    (c : Cursor) (as' bs : List ℕ) → advance (advance c as') bs ≡ advance c (as' ++ bs)
unfolding advance
advance_twice c as' bs =
    ap₂ cursor (place_behind c.buf c.off (c.off + length as') as' bs refl)
      (omega (arith, length-append as' bs))

pub advance_nothing : (c : Cursor) → advance c [] ≡ c
unfolding advance
advance_nothing c = ap₂ cursor (place_nothing c.buf c.off) (omega arith)

pub length-advance : (c : Cursor) (bs : List ℕ) → length (advance c bs).buf ≡ length c.buf
unfolding advance
length-advance c bs = length-place c.buf c.off bs

pub off-advance : (c : Cursor) (bs : List ℕ) → (advance c bs).off ≡ c.off + length bs
unfolding advance
off-advance c bs = refl

pub Writes-skip : Writes skip []
unfolding skip
Writes-skip = record { run = λ c h. sym (advance_nothing c) }

pub Writes-then :
    {f g : Put} {as' bs : List ℕ} → Writes f as' → Writes g bs → Writes (f >> g) (as' ++ bs)
unfolding ◌>>◌
Writes-then {f} {g} {as'} {bs} p q = record {
  run = λ c h. rw (p.run c (omega (arith, length-append as' bs))) (
      q.run (advance c as')
        (omega (arith, length-append as' bs, length-advance c as', off-advance c as'))
      ∙ advance_twice c as' bs);
}

pub Writes-put8 : (v : ℕ) → Writes (put8 v) (v ∷ [])
unfolding put8 write_uint8 write_byte
Writes-put8 v = record { run = λ c h. ground arith }

pub Writes-put16 : (v : ℕ) → Writes (put16 v) (u16_bytes v)
unfolding put16 write_uint16
Writes-put16 v = record { run = λ c h. ground arith }

pub Writes-put32 : (v : ℕ) → Writes (put32 v) (u32_bytes v)
unfolding put32 write_uint32
Writes-put32 v = record { run = λ c h. ground arith }

pub Writes-put64 : (v : ℕ) → Writes (put64 v) (u64_bytes v)
unfolding put64 write_uint64
Writes-put64 v = record { run = λ c h. ground arith }

pub Writes-put_copy : (src : List ℕ) → Writes (put_copy src) src
unfolding put_copy copy
Writes-put_copy src = record { run = λ c h. ground arith }

take_all : (xs : List ℕ) → take (length xs) xs ≡ xs
take_all [] = refl
take_all (x ∷ xs) = ap (λ ys. x ∷ ys) (take_all xs)

pub Writes-put_string : (src : List ℕ) → Writes (put_string src) src
unfolding put_string reserve advance
Writes-put_string src = record { run = λ c h. ground (arith, take_all src) }

-- The bytes of each element in turn.
abbrev pub bytes_of_each {ℓ} : {A : Type ℓ} → (A → List ℕ) → List A → List ℕ
bytes_of_each bytes [] = []
bytes_of_each bytes (x ∷ xs) = bytes x ++ bytes_of_each bytes xs

pub Writes-put_each {ℓ} :
    {A : Type ℓ} (put : A → Put) (bytes : A → List ℕ) (xs : List A)
    → ((x : A) → Writes (put x) (bytes x))
    → Writes (put_each put xs) (bytes_of_each bytes xs)
unfolding put_each
Writes-put_each put bytes [] each = Writes-skip
Writes-put_each put bytes (x ∷ xs) each = Writes-then (each x) (Writes-put_each put bytes xs each)

pub Writes-put_zeros : (n : ℕ) → Writes (put_zeros n) (replicate n 0)
unfolding put_zeros
Writes-put_zeros zero = Writes-skip
Writes-put_zeros (suc n) = Writes-then (Writes-put8 0) (Writes-put_zeros n)

pub Writes-congr : {f : Put} {as' bs : List ℕ} → as' ≡ bs → Writes f as' → Writes f bs
Writes-congr {f} e w = subst (Writes f) e w

-- A cursor at the front of a window of the slice puts the bytes into the slice.
pub Writes-new :
    {f : Put} {bytes : List ℕ}
    → Writes f bytes
    → (buf : List ℕ) → length bytes ≤ length buf
    → (f (new buf)).buf ≡ place buf 0 bytes
unfolding new advance
Writes-new w buf h = ap (λ c. c.buf) (w.run (new buf) (omega (arith, h)))
