-- ===== src/Wire/Model.antt =====
-- internal/wire/model.go: protocols, families, values, records, descriptors and header metadata.
-- Bytes and Go strings are lists of bytes. A `netip.Addr` is its octets, with the zone of an IPv6
-- address.
use otelcol_exporter_netflow.Common.{
  ℕ, ◌-◌, ◌^◌, Bool, true, false, ◌&&◌, ◌||◌, not, Option, none, some, List, [], ◌∷◌, length, ltb,
  ◌==◌, if◌then◌else◌,
}
use otelcol_exporter_netflow.Common.Int.{ℤ, pos}
use otelcol_exporter_netflow.Wire.Field
use otelcol_exporter_netflow.Wire.Field.{CanonicalField, canonical_field_count}

-- `unlisted` is any other value of the underlying byte.
pub data Protocol : Type 0 where
  unknown v5 v9 ipfix unlisted : Protocol

abbrev pub protocol_code : Protocol → ℕ
protocol_code Protocol.unknown = 0
protocol_code v5 = 1
protocol_code v9 = 2
protocol_code ipfix = 3
protocol_code Protocol.unlisted = 4

abbrev pub same_protocol : Protocol → Protocol → Bool
same_protocol p q = protocol_code p == protocol_code q

-- One of the three protocols that the exporter writes.
abbrev pub is_known : Protocol → Bool
is_known v5 = true
is_known v9 = true
is_known ipfix = true
is_known other = false

pub data Family : Type 0 where
  unknown ipv4 ipv6 unlisted : Family

abbrev pub family_code : Family → ℕ
family_code Family.unknown = 0
family_code ipv4 = 1
family_code ipv6 = 2
family_code Family.unlisted = 3

abbrev pub same_family : Family → Family → Bool
same_family f g = family_code f == family_code g

abbrev pub is_address_family : Family → Bool
is_address_family ipv4 = true
is_address_family ipv6 = true
is_address_family other = false

-- `is_valid_field` is CanonicalField.Valid.
unfoldable pub is_valid_field : CanonicalField → Bool
is_valid_field f = ltb f canonical_field_count || f == Field.icmp_type_code

unfoldable pub is_absolute_time_field : CanonicalField → Bool
is_absolute_time_field f = f == Field.time_received || f == Field.start || f == Field.end

pub data DescriptorEncoding : Type 0 where
  unspecified unsigned8 unsigned16 unsigned32 unsigned64 : DescriptorEncoding
  signed8 signed16 signed32 signed64 : DescriptorEncoding
  ipv4_address ipv6_address mac_address octet_array string : DescriptorEncoding
  date_time_nanoseconds date_time_milliseconds unlisted : DescriptorEncoding

abbrev pub encoding_code : DescriptorEncoding → ℕ
encoding_code unspecified = 0
encoding_code unsigned8 = 1
encoding_code unsigned16 = 2
encoding_code unsigned32 = 3
encoding_code unsigned64 = 4
encoding_code signed8 = 5
encoding_code signed16 = 6
encoding_code signed32 = 7
encoding_code signed64 = 8
encoding_code ipv4_address = 9
encoding_code ipv6_address = 10
encoding_code mac_address = 11
encoding_code octet_array = 12
encoding_code string = 13
encoding_code date_time_nanoseconds = 14
encoding_code date_time_milliseconds = 15
encoding_code DescriptorEncoding.unlisted = 16

abbrev pub same_encoding : DescriptorEncoding → DescriptorEncoding → Bool
same_encoding e f = encoding_code e == encoding_code f

pub data ContractError : Type 0 where
  invalid_protocol invalid_family invalid_value duplicate_field record_value_limit : ContractError
  time_out_of_range invalid_descriptor invalid_header invalid_shape invalid_catalog : ContractError
  duplicate_identity bounds short_buffer : ContractError
  packet_not_begun packet_finished packet_empty : ContractError

-- Two byte strings are equal.
unfoldable pub same_bytes : List ℕ → List ℕ → Bool
same_bytes [] [] = true
same_bytes [] (b ∷ bs) = false
same_bytes (a ∷ as') [] = false
same_bytes (a ∷ as') (b ∷ bs) = a == b && same_bytes as' bs

pub record FieldDescriptor : Type 0 where
  pub protocol : Protocol
  pub field : CanonicalField
  pub source : List ℕ
  pub custom : Bool
  pub constant : Bool
  pub id : ℕ
  pub pen : ℕ
  pub enterprise : Bool
  pub private : Bool
  pub length : ℕ
  pub variable : Bool
  pub max_length : ℕ
  pub encoding : DescriptorEncoding

pub record HeaderMetadata : Type 0 where
  pub protocol : Protocol
  pub sequence : ℕ
  pub observation_domain_id : ℕ
  pub source_id : ℕ
  pub engine_type : ℕ
  pub engine_id : ℕ
  pub sampling_mode : ℕ
  pub sampling_interval : ℕ
  pub count : ℕ
  pub export_time_unix_nanos : ℕ
  pub uptime_origin_unix_nanos : ℕ
  pub has_uptime_origin : Bool

pub data ValueKind : Type 0 where
  invalid int uint text bytes ip mac unix_nanos unlisted : ValueKind

-- A netip.Addr: none at all, four octets, or sixteen octets with a zone.
pub data Addr : Type 0 where
  no_addr : Addr
  addr4 : List ℕ → Addr
  addr6 : List ℕ → List ℕ → Addr

abbrev pub is_valid_addr : Addr → Bool
is_valid_addr no_addr = false
is_valid_addr other = true

abbrev pub is_4 : Addr → Bool
is_4 (addr4 octets) = true
is_4 other = false

abbrev pub is_6 : Addr → Bool
is_6 (addr6 octets zone) = true
is_6 other = false

abbrev pub zone : Addr → List ℕ
zone (addr6 octets z) = z
zone other = []

-- A borrowed view of bytes, which the caller implements.
pub record ByteView : Type 0 where
  pub len : ℤ
  pub at : ℕ → ℕ

pub record Value : Type 0 where
  pub kind : ValueKind
  pub int_value : ℤ
  pub uint_value : ℕ
  pub text : List ℕ
  pub octets : List ℕ
  pub octets_set : Bool
  pub borrowed : Option ByteView
  pub ip : Addr
  pub mac : List ℕ

abbrev pub no_mac : List ℕ
no_mac = 0 ∷ 0 ∷ 0 ∷ 0 ∷ 0 ∷ 0 ∷ []

-- The zero Value.
abbrev pub zero_value : Value
zero_value = record {
  kind = ValueKind.invalid;
  int_value = pos 0;
  uint_value = 0;
  text = [];
  octets = [];
  octets_set = false;
  borrowed = none;
  ip = no_addr;
  mac = no_mac;
}

unfoldable pub byte_len : Value → ℤ
byte_len v = elim v.borrowed [ none ↦ pos (length v.octets) | some view ↦ view.len ]

unfoldable pub uint_value_of : ℕ → Value
uint_value_of n = record zero_value { kind = uint; uint_value = n }

pub unix_nanos_value_of : ℕ → Value
unix_nanos_value_of n = record zero_value { kind = unix_nanos; uint_value = n }

pub ip_value_of : Addr → Value
ip_value_of a =
    if not (is_valid_addr a) || not (length (zone a) == 0)
    then zero_value
    else record zero_value { kind = ip; ip = a }

-- A WireRecord keeps its values in an array of 64; `count` of them are in use, and here the list
-- holds just those.
pub record WireRecord : Type 0 where
  pub family : Family
  pub values : List Value

abbrev pub max_record_fields : ℕ
max_record_fields = 64

abbrev pub max_normalized_value_bytes : ℕ
max_normalized_value_bytes = 1048576

abbrev pub default_max_fields_per_shape : ℕ
default_max_fields_per_shape = 64

abbrev pub default_max_template_bytes : ℕ
default_max_template_bytes = 4096

abbrev pub default_max_records : ℕ
default_max_records = 65535

abbrev pub default_max_record_bytes : ℕ
default_max_record_bytes = 65535

abbrev pub default_max_set_bytes : ℕ
default_max_set_bytes = 65535

abbrev pub default_max_message_bytes : ℕ
default_max_message_bytes = 65535

abbrev pub hard_max_mapped_value_bytes : ℕ
hard_max_mapped_value_bytes = 65535

abbrev pub max_int64 : ℕ
max_int64 = 2 ^ 63 - 1
