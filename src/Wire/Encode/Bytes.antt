-- ===== src/Wire/Encode/Bytes.antt =====
-- The bytes of one value, and how many they are.
use otelcol_exporter_netflow.Common.{
  ℕ, zero, suc, ◌+◌, ◌≡◌, refl, ap, ◌∙◌, List, [], ◌∷◌, ◌++◌, length, drop, replicate,
  length-append, length-replicate, arith,
}
use otelcol_exporter_netflow.Common.Int.{ℤ, pos, negsuc}
use otelcol_exporter_netflow.Wire.Model.{Value, Addr, no_addr, addr4, addr6, byte_len}
use otelcol_exporter_netflow.Wire.Cursor.{skip}
use otelcol_exporter_netflow.Wire.Cursor.Place.{length-window}
use otelcol_exporter_netflow.Wire.Cursor.Writes.{Writes, Writes-skip, Writes-then, Writes-put8}
use otelcol_exporter_netflow.Wire.Encode.{array, as_4, as_16, byte_at, put_bytes_from, put_octets}

pub length-array : (n : ℕ) (bytes : List ℕ) → length (array n bytes) ≡ n
unfolding array
length-array n bytes =
    length-window (bytes ++ replicate n 0) 0 n
      (omega (arith, length-append bytes (replicate n 0), length-replicate {A = ℕ} n 0))

pub length-as_4 : (a : Addr) → length (as_4 a) ≡ 4
unfolding as_4
length-as_4 no_addr = length-array 4 []
length-as_4 (addr4 octets) = length-array 4 octets
length-as_4 (addr6 octets zone) = length-array 4 (drop 12 octets)

pub length-as_16 : (a : Addr) → length (as_16 a) ≡ 16
unfolding as_16
length-as_16 no_addr = length-array 16 []
length-as_16 (addr4 octets) = omega (arith, length-array 4 octets)
length-as_16 (addr6 octets zone) = length-array 16 octets

unfoldable pub bytes_from : Value → ℕ → ℕ → List ℕ
bytes_from v i zero = []
bytes_from v i (suc n) = byte_at v i ∷ bytes_from v (i + 1) n

abbrev octets_of_length : Value → ℤ → List ℕ
octets_of_length v (pos n) = bytes_from v 0 n
octets_of_length v (negsuc n) = []

-- The bytes of a value that is a byte string.
unfoldable pub octets_of : Value → List ℕ
unfolding bytes_from
octets_of v = octets_of_length v (byte_len v)

length-bytes_from : (v : Value) (i n : ℕ) → length (bytes_from v i n) ≡ n
unfolding bytes_from
length-bytes_from v i zero = refl
length-bytes_from v i (suc n) = ap suc (length-bytes_from v (i + 1) n)

pub length-octets_of : (v : Value) (n : ℕ) → byte_len v ≡ pos n → length (octets_of v) ≡ n
unfolding octets_of
length-octets_of v n e = ap (λ z. length (octets_of_length v z)) e ∙ length-bytes_from v 0 n

Writes-put_bytes_from : (v : Value) (i n : ℕ) → Writes (put_bytes_from v i n) (bytes_from v i n)
unfolding put_bytes_from bytes_from
Writes-put_bytes_from v i zero = Writes-skip
Writes-put_bytes_from v i (suc n) =
    Writes-then (Writes-put8 (byte_at v i)) (Writes-put_bytes_from v (i + 1) n)

pub Writes-put_octets : (v : Value) → Writes (put_octets v) (octets_of v)
unfolding put_octets octets_of
Writes-put_octets v = by_length (byte_len v)
  where
    by_length :
        (z : ℤ)
        → Writes (elim z [ pos n ↦ put_bytes_from v 0 n | negsuc n ↦ skip ]) (octets_of_length v z)
    by_length (pos n) = Writes-put_bytes_from v 0 n
    by_length (negsuc n) = Writes-skip
