-- ===== src/Wire/Ipfix/RoundTrip.antt =====
-- The numbers that the IPFIX writer puts can be read back.
use otelcol_exporter_netflow.Common.{
  ℕ, ◌+◌, ◌-◌, ◌%◌, ◌^◌, ◌≤◌, ◌<◌, ◌≡◌, refl, ap, sym, ◌∙◌, Bool, true, false, Option, some, none,
  length, ltb, ◌==◌, if◌then◌else◌, if_cases, arith, Bool-cases, inl, inr,
}
use native.Mathlib.Nat.{mod-lt}
use otelcol_exporter_netflow.Common.BigEndian.{read, read-u16_bytes, read-u32_bytes, read-u64_bytes}
use otelcol_exporter_netflow.Common.Int.{ℤ, pos, negsuc}
use otelcol_exporter_netflow.Common.Result.{ok}
use otelcol_exporter_netflow.Wire.Model.{
  FieldDescriptor, DescriptorEncoding, Value, unspecified, unsigned8, unsigned16, unsigned32,
  unsigned64, signed8, signed16, signed32, signed64, ipv4_address, ipv6_address, mac_address,
  octet_array, string, date_time_nanoseconds, date_time_milliseconds, is_absolute_time_field,
}
use otelcol_exporter_netflow.Wire.Widths.{
  value_length, fits_encoding, unsigned_fits_descriptor, unsigned_fits, natural_fits, signed_fits,
  signed_in_range, content_length,
}
use otelcol_exporter_netflow.Wire.Widths.Facts.{
  validate_descriptor-IsValid, constant_is_v5, value_length-fixed, value_length-variable,
}
use otelcol_exporter_netflow.Wire.Encode.{value_uint, signed_word}
use otelcol_exporter_netflow.Wire.Ipfix.Bytes.{
  value_bytes, encoded_bytes, Bound, not_v5, length-value_bytes, Writes-write_value,
}
use otelcol_exporter_netflow.Wire.Ipfix.Emit.{write_value}
use otelcol_exporter_netflow.Wire.Cursor.{Cursor}
use otelcol_exporter_netflow.Wire.Cursor.Written.{written, written-Writes}

unfoldable pub is_unsigned : DescriptorEncoding → Bool
is_unsigned unsigned8 = true
is_unsigned unsigned16 = true
is_unsigned unsigned32 = true
is_unsigned unsigned64 = true
is_unsigned other = false

-- The number of bits of a signed encoding.
unfoldable pub signed_bits : DescriptorEncoding → Option ℕ
signed_bits signed8 = some 8
signed_bits signed16 = some 16
signed_bits signed32 = some 32
signed_bits signed64 = some 64
signed_bits other = none

-- A word of so many bits, read in two's complement.
unfoldable pub signed_of : ℕ → ℕ → ℤ
signed_of w n = if ltb n (2 ^ (w - 1)) then pos n else negsuc (2 ^ w - 1 - n)

fits_word :
    (d : FieldDescriptor) (v : Value) (w : ℕ)
    → unsigned_fits_descriptor d v w ≡ true
    → is_absolute_time_field d.field ≡ false
    → (w == 64) ≡ false
    → value_uint v < 2 ^ w
unfolding unsigned_fits_descriptor unsigned_fits natural_fits value_uint
fits_word d v w h t s = ground arith

value_of : (b : Bool) → ◌≡◌ {A = Option Bool} (some b) (some true) → b ≡ true
value_of b h = cc

unsigned_back :
    (e : DescriptorEncoding) (d : FieldDescriptor) (v : Value)
    → is_unsigned e ≡ true
    → fits_encoding d v e ≡ some true
    → is_absolute_time_field d.field ≡ false
    → value_uint v < 2 ^ 64
    → read (encoded_bytes d e v) ≡ value_uint v
unfolding is_unsigned fits_encoding
unsigned_back unsigned8 d v u f t small =
    let fits = fits_word d v 8 (value_of _ f) t refl in omega (arith, fits)
unsigned_back unsigned16 d v u f t small =
    let fits = fits_word d v 16 (value_of _ f) t refl in
    read-u16_bytes (value_uint v % 2 ^ 16) (omega arith) ∙ omega (arith, fits)
unsigned_back unsigned32 d v u f t small =
    let fits = fits_word d v 32 (value_of _ f) t refl in
    read-u32_bytes (value_uint v % 2 ^ 32) (omega arith) ∙ omega (arith, fits)
unsigned_back unsigned64 d v u f t small = read-u64_bytes (value_uint v) small
unsigned_back signed8 d v u f t small = cc
unsigned_back signed16 d v u f t small = cc
unsigned_back signed32 d v u f t small = cc
unsigned_back signed64 d v u f t small = cc
unsigned_back ipv4_address d v u f t small = cc
unsigned_back ipv6_address d v u f t small = cc
unsigned_back mac_address d v u f t small = cc
unsigned_back octet_array d v u f t small = cc
unsigned_back string d v u f t small = cc
unsigned_back date_time_nanoseconds d v u f t small = cc
unsigned_back date_time_milliseconds d v u f t small = cc
unsigned_back unspecified d v u f t small = cc
unsigned_back DescriptorEncoding.unlisted d v u f t small = cc

-- The other encodings are variable.
is_content : DescriptorEncoding → Bool
is_content string = true
is_content octet_array = true
is_content other = false

no_content :
    (e : DescriptorEncoding) (d : FieldDescriptor) (v : Value) (z : ℤ)
    → is_content e ≡ false
    → content_length d v e ≡ ok z
    → ⊥
unfolding is_content content_length
no_content unsigned8 d v z i c = cc
no_content unsigned16 d v z i c = cc
no_content unsigned32 d v z i c = cc
no_content unsigned64 d v z i c = cc
no_content signed8 d v z i c = cc
no_content signed16 d v z i c = cc
no_content signed32 d v z i c = cc
no_content signed64 d v z i c = cc
no_content ipv4_address d v z i c = cc
no_content ipv6_address d v z i c = cc
no_content mac_address d v z i c = cc
no_content octet_array d v z i c = cc
no_content string d v z i c = cc
no_content date_time_nanoseconds d v z i c = cc
no_content date_time_milliseconds d v z i c = cc
no_content unspecified d v z i c = cc
no_content DescriptorEncoding.unlisted d v z i c = cc

unsigned_is_not_content : (e : DescriptorEncoding) → is_unsigned e ≡ true → is_content e ≡ false
unfolding is_unsigned is_content
unsigned_is_not_content unsigned8 h = refl
unsigned_is_not_content unsigned16 h = refl
unsigned_is_not_content unsigned32 h = refl
unsigned_is_not_content unsigned64 h = refl
unsigned_is_not_content signed8 h = refl
unsigned_is_not_content signed16 h = refl
unsigned_is_not_content signed32 h = refl
unsigned_is_not_content signed64 h = refl
unsigned_is_not_content ipv4_address h = refl
unsigned_is_not_content ipv6_address h = refl
unsigned_is_not_content mac_address h = refl
unsigned_is_not_content octet_array h = cc
unsigned_is_not_content string h = cc
unsigned_is_not_content date_time_nanoseconds h = refl
unsigned_is_not_content date_time_milliseconds h = refl
unsigned_is_not_content unspecified h = refl
unsigned_is_not_content DescriptorEncoding.unlisted h = refl

signed_is_not_content :
    (e : DescriptorEncoding) (w : ℕ) → signed_bits e ≡ some w → is_content e ≡ false
unfolding signed_bits is_content
signed_is_not_content unsigned8 w h = refl
signed_is_not_content unsigned16 w h = refl
signed_is_not_content unsigned32 w h = refl
signed_is_not_content unsigned64 w h = refl
signed_is_not_content signed8 w h = refl
signed_is_not_content signed16 w h = refl
signed_is_not_content signed32 w h = refl
signed_is_not_content signed64 w h = refl
signed_is_not_content ipv4_address w h = refl
signed_is_not_content ipv6_address w h = refl
signed_is_not_content mac_address w h = refl
signed_is_not_content octet_array w h = cc
signed_is_not_content string w h = cc
signed_is_not_content date_time_nanoseconds w h = refl
signed_is_not_content date_time_milliseconds w h = refl
signed_is_not_content unspecified w h = refl
signed_is_not_content DescriptorEncoding.unlisted w h = refl

-- A number fits its encoding.
number_fits :
    (d : FieldDescriptor) (v : Value) (n : ℕ)
    → Bound d
    → value_length d v ≡ ok n
    → is_content d.encoding ≡ false
    → fits_encoding d v d.encoding ≡ some true
number_fits d v n (valid, same) h not_content =
    let parts = validate_descriptor-IsValid d valid in
    let not_constant = constant_is_v5 d parts.source (not_v5 d.protocol same) in
    elim (Bool-cases d.variable) [
      | inl variable ↦
          let (z, _, content, _) = value_length-variable d v n h not_constant variable in
          absurd (no_content d.encoding d v z not_content content)
      | inr fixed ↦ (value_length-fixed d v n h not_constant fixed).1
    ]

read-value_bytes :
    (d : FieldDescriptor) (v : Value) (n : ℕ)
    → Bound d
    → value_length d v ≡ ok n
    → is_unsigned d.encoding ≡ true
    → is_absolute_time_field d.field ≡ false
    → value_uint v < 2 ^ 64
    → read (value_bytes d v) ≡ value_uint v
unfolding value_bytes
read-value_bytes d v n bound h unsigned time small =
    unsigned_back d.encoding d v unsigned
      (number_fits d v n bound h (unsigned_is_not_content d.encoding unsigned)) time small

-- The writer of a value that has a width moves the cursor by the width and leaves its bytes.
written_value :
    (d : FieldDescriptor) (v : Value) (n : ℕ) (c : Cursor)
    → Bound d
    → value_length d v ≡ ok n
    → c.off + n ≤ length c.buf
    → let c' = write_value d v c in (c'.off ≡ c.off + n) × (written c c' ≡ value_bytes d v)
written_value d v n c bound h room =
    let same = length-value_bytes d v n bound h in
    let (moved, put) = written-Writes (Writes-write_value d v) c (omega (arith, same, room)) in
    (moved ∙ ap (λ k. c.off + k) same, put)

-- Where the buffer has room for the n bytes that ValueLength gives to an unsigned number of a valid
-- IPFIX descriptor, the writer moves the cursor by n, and the bytes that it leaves there, read in
-- network order, are the number. The field is not an absolute time, and the number is a uint64.
pub read-write_value :
    (d : FieldDescriptor) (v : Value) (n : ℕ) (c : Cursor)
    → Bound d
    → value_length d v ≡ ok n
    → is_unsigned d.encoding ≡ true
    → is_absolute_time_field d.field ≡ false
    → value_uint v < 2 ^ 64
    → c.off + n ≤ length c.buf
    → let c' = write_value d v c in (c'.off ≡ c.off + n) × (read (written c c') ≡ value_uint v)
read-write_value d v n c bound h unsigned time small room =
    let (moved, put) = written_value d v n c bound h room in
    (moved, ap read put ∙ read-value_bytes d v n bound h unsigned time small)

word_of_pos :
    (m half full n : ℕ)
    → m ≡ n
    → n < half
    → (if ltb m half then pos m else negsuc (full - 1 - m)) ≡ pos n
word_of_pos m half full n e h =
    if_cases (λ z. z ≡ pos n) (ltb m half) (λ _. ap pos e) (λ t. absurd (ground (arith, e, h, t)))

word_of_negsuc :
    (m half full n : ℕ)
    → m + 1 + n ≡ full
    → half ≤ m
    → (if ltb m half then pos m else negsuc (full - 1 - m)) ≡ negsuc n
word_of_negsuc m half full n e h =
    if_cases (λ z. z ≡ negsuc n) (ltb m half) (λ t. absurd (ground (arith, e, h, t)))
      (λ _. ap negsuc (omega (arith, e)))

-- A number within a width comes back from its word.
back_8 : (z : ℤ) → signed_in_range z 8 ≡ true → signed_of 8 (signed_word 8 z) ≡ z
unfolding signed_of signed_word signed_in_range
back_8 (pos n) r =
    let small : n < 2 ^ 7 = ground arith in
    word_of_pos (n % 2 ^ 8) (2 ^ 7) (2 ^ 8) n (omega arith) small
back_8 (negsuc n) r =
    let small : n < 2 ^ 7 = ground arith in
    word_of_negsuc (2 ^ 8 - 1 - n % 2 ^ 8) (2 ^ 7) (2 ^ 8) n (omega arith) (omega arith)

back_16 : (z : ℤ) → signed_in_range z 16 ≡ true → signed_of 16 (signed_word 16 z) ≡ z
unfolding signed_of signed_word signed_in_range
back_16 (pos n) r =
    let small : n < 2 ^ 15 = ground arith in
    word_of_pos (n % 2 ^ 16) (2 ^ 15) (2 ^ 16) n (omega arith) small
back_16 (negsuc n) r =
    let small : n < 2 ^ 15 = ground arith in
    word_of_negsuc (2 ^ 16 - 1 - n % 2 ^ 16) (2 ^ 15) (2 ^ 16) n (omega arith) (omega arith)

back_32 : (z : ℤ) → signed_in_range z 32 ≡ true → signed_of 32 (signed_word 32 z) ≡ z
unfolding signed_of signed_word signed_in_range
back_32 (pos n) r =
    let small : n < 2 ^ 31 = ground arith in
    word_of_pos (n % 2 ^ 32) (2 ^ 31) (2 ^ 32) n (omega arith) small
back_32 (negsuc n) r =
    let small : n < 2 ^ 31 = ground arith in
    word_of_negsuc (2 ^ 32 - 1 - n % 2 ^ 32) (2 ^ 31) (2 ^ 32) n (omega arith) (omega arith)

back_64 : (z : ℤ) → signed_in_range z 64 ≡ true → signed_of 64 (signed_word 64 z) ≡ z
unfolding signed_of signed_word signed_in_range
back_64 (pos n) r =
    let small : n < 2 ^ 63 = ground arith in
    word_of_pos (n % 2 ^ 64) (2 ^ 63) (2 ^ 64) n (omega arith) small
back_64 (negsuc n) r =
    let small : n < 2 ^ 63 = ground arith in
    word_of_negsuc (2 ^ 64 - 1 - n % 2 ^ 64) (2 ^ 63) (2 ^ 64) n (omega arith) (omega arith)

word_small : (w : ℕ) (z : ℤ) → 0 < 2 ^ w → signed_word w z < 2 ^ w
unfolding signed_word
word_small w (pos n) h = mod-lt n h
word_small w (negsuc n) h = omega (arith, h)

fits_signed :
    (v : Value) (w : ℕ)
    → signed_fits v w ≡ true
    → (w == 64) ≡ false
    → signed_in_range v.int_value w ≡ true
unfolding signed_fits
fits_signed v w h s = ground arith

signed_back :
    (e : DescriptorEncoding) (d : FieldDescriptor) (v : Value) (w : ℕ)
    → signed_bits e ≡ some w
    → fits_encoding d v e ≡ some true
    → signed_in_range v.int_value 64 ≡ true
    → signed_of w (read (encoded_bytes d e v)) ≡ v.int_value
unfolding signed_bits fits_encoding
signed_back signed8 d v w b f range =
    let e : 8 ≡ w = cc in
    rw (sym e) (
      ap (signed_of 8) (omega (arith, word_small 8 v.int_value (omega arith)))
      ∙ back_8 v.int_value (fits_signed v 8 (value_of _ f) refl))
signed_back signed16 d v w b f range =
    let e : 16 ≡ w = cc in
    rw (sym e) (
      ap (signed_of 16) (read-u16_bytes _ (word_small 16 v.int_value (omega arith)))
      ∙ back_16 v.int_value (fits_signed v 16 (value_of _ f) refl))
signed_back signed32 d v w b f range =
    let e : 32 ≡ w = cc in
    rw (sym e) (
      ap (signed_of 32) (read-u32_bytes _ (word_small 32 v.int_value (omega arith)))
      ∙ back_32 v.int_value (fits_signed v 32 (value_of _ f) refl))
signed_back signed64 d v w b f range =
    let e : 64 ≡ w = cc in
    rw (sym e) (
      ap (signed_of 64) (read-u64_bytes _ (word_small 64 v.int_value (omega arith)))
      ∙ back_64 v.int_value range)
signed_back ipv4_address d v w b f range = cc
signed_back ipv6_address d v w b f range = cc
signed_back mac_address d v w b f range = cc
signed_back octet_array d v w b f range = cc
signed_back string d v w b f range = cc
signed_back date_time_nanoseconds d v w b f range = cc
signed_back date_time_milliseconds d v w b f range = cc
signed_back unspecified d v w b f range = cc
signed_back DescriptorEncoding.unlisted d v w b f range = cc
signed_back unsigned8 d v w b f range = cc
signed_back unsigned16 d v w b f range = cc
signed_back unsigned32 d v w b f range = cc
signed_back unsigned64 d v w b f range = cc

signed_of-value_bytes :
    (d : FieldDescriptor) (v : Value) (n w : ℕ)
    → Bound d
    → value_length d v ≡ ok n
    → signed_bits d.encoding ≡ some w
    → signed_in_range v.int_value 64 ≡ true
    → signed_of w (read (value_bytes d v)) ≡ v.int_value
unfolding value_bytes
signed_of-value_bytes d v n w bound h bits range =
    signed_back d.encoding d v w bits
      (number_fits d v n bound h (signed_is_not_content d.encoding w bits)) range

-- Where the buffer has room for the n bytes that ValueLength gives to a signed number of a valid
-- IPFIX descriptor, the writer moves the cursor by n, and the bytes that it leaves there, read as a
-- word in two's complement, are the number. The number is an int64.
pub signed_of-write_value :
    (d : FieldDescriptor) (v : Value) (n w : ℕ) (c : Cursor)
    → Bound d
    → value_length d v ≡ ok n
    → signed_bits d.encoding ≡ some w
    → signed_in_range v.int_value 64 ≡ true
    → c.off + n ≤ length c.buf
    → let c' = write_value d v c in
      (c'.off ≡ c.off + n) × (signed_of w (read (written c c')) ≡ v.int_value)
signed_of-write_value d v n w c bound h bits range room =
    let (moved, put) = written_value d v n c bound h room in
    (moved, ap (λ bs. signed_of w (read bs)) put ∙ signed_of-value_bytes d v n w bound h bits range)
