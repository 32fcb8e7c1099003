-- ===== src/Wire/Netflow5/Bytes.antt =====
-- The bytes of a NetFlow v5 record, and that a record has 48 of them.
use otelcol_exporter_netflow.Common.{
  ℕ, ◌%◌, ◌^◌, ◌≡◌, List, [], ◌∷◌, ◌++◌, length, length-append, if◌then◌else◌, arith,
}
use otelcol_exporter_netflow.Common.BigEndian.{u16_bytes, u32_bytes}
use otelcol_exporter_netflow.Wire.Model.{WireRecord}
use otelcol_exporter_netflow.Wire.Cursor.{Put, ◌>>◌ as ◌and◌}
use otelcol_exporter_netflow.Wire.Cursor.Writes.{
  Writes, Writes-then, Writes-put8, Writes-put16, Writes-put32, Writes-put_copy,
}
use otelcol_exporter_netflow.Wire.Encode.{value_at, as_4, elapsed_milliseconds}
use otelcol_exporter_netflow.Wire.Encode.Bytes.{length-as_4}
use otelcol_exporter_netflow.Wire.Netflow5.Emit.{
  value_uint, write_record, write_ipv4, number8, number16, number32, uptime32,
}

module _ (origin : ℕ) (r : WireRecord) where
  abbrev byte_of : ℕ → List ℕ
  byte_of i = value_uint (value_at r i) % 2 ^ 8 ∷ []

  abbrev word_of : ℕ → List ℕ
  word_of i = u16_bytes (value_uint (value_at r i) % 2 ^ 16)

  abbrev long_of : ℕ → List ℕ
  long_of i = u32_bytes (value_uint (value_at r i) % 2 ^ 32)

  abbrev time_of : ℕ → List ℕ
  time_of i = u32_bytes ((elapsed_milliseconds (value_at r i).uint_value origin).0 % 2 ^ 32)

  -- The record behind its three addresses.
  abbrev numbers : List ℕ
  numbers =
      word_of 3
      ++ (word_of 4
          ++ (long_of 5
              ++ (long_of 6
                  ++ (time_of 7
                      ++ (time_of 8
                          ++ (word_of 9
                              ++ (word_of 10
                                  ++ ((0 ∷ [])
                                      ++ (byte_of 12
                                          ++ (byte_of 13
                                              ++ (byte_of 14
                                                  ++ (word_of 15
                                                      ++ (word_of 16
                                                          ++ (byte_of 17
                                                            ++ (byte_of 18
                                                            ++ u16_bytes 0)))))))))))))))

  abbrev pub record_bytes : List ℕ
  record_bytes =
      as_4 (value_at r 0).ip ++ (as_4 (value_at r 1).ip ++ (as_4 (value_at r 2).ip ++ numbers))

  pub length-record_bytes : length record_bytes ≡ 48
  length-record_bytes = omega (
    arith,
    length-as_4 (value_at r 0).ip,
    length-as_4 (value_at r 1).ip,
    length-as_4 (value_at r 2).ip,
    length-append (as_4 (value_at r 0).ip)
        (as_4 (value_at r 1).ip ++ (as_4 (value_at r 2).ip ++ numbers)),
    length-append (as_4 (value_at r 1).ip) (as_4 (value_at r 2).ip ++ numbers),
    length-append (as_4 (value_at r 2).ip) numbers,
  )

  Writes-ipv4 : (i : ℕ) → Writes (write_ipv4 (value_at r i)) (as_4 (value_at r i).ip)
  unfolding write_ipv4
  Writes-ipv4 i = Writes-put_copy _

  Writes-byte : (i : ℕ) → Writes (number8 r i) (byte_of i)
  unfolding number8
  Writes-byte i = Writes-put8 _

  Writes-word : (i : ℕ) → Writes (number16 r i) (word_of i)
  unfolding number16
  Writes-word i = Writes-put16 _

  Writes-long : (i : ℕ) → Writes (number32 r i) (long_of i)
  unfolding number32
  Writes-long i = Writes-put32 _

  Writes-time : (i : ℕ) → Writes (uptime32 origin r i) (time_of i)
  unfolding uptime32
  Writes-time i = Writes-put32 _

  infixr 5 ◌then◌
  abbrev ◌then◌ :
      {f g : Put} {as' bs : List ℕ} → Writes f as' → Writes g bs → Writes (f and g) (as' ++ bs)
  p then q = Writes-then p q

  pub Writes-write_record : Writes (write_record origin r) record_bytes
  unfolding write_record
  Writes-write_record =
      Writes-ipv4 0
      then Writes-ipv4 1
      then Writes-ipv4 2
      then Writes-word 3
      then Writes-word 4
      then Writes-long 5
      then Writes-long 6
      then Writes-time 7
      then Writes-time 8
      then Writes-word 9
      then Writes-word 10
      then Writes-put8 0
      then Writes-byte 12
      then Writes-byte 13
      then Writes-byte 14
      then Writes-word 15
      then Writes-word 16
      then Writes-byte 17
      then Writes-byte 18
      then Writes-put16 0
