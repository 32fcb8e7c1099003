-- ===== src/Wire/Field.antt =====
-- internal/wire/model.go: the canonical fields that the profiles use.
use otelcol_exporter_netflow.Common.{ℕ}

-- A canonical field is its number in the schema, below 256.
abbrev pub CanonicalField : Type 0
CanonicalField = ℕ

abbrev pub source_address : CanonicalField
source_address = 0

abbrev pub source_port : CanonicalField
source_port = 1

abbrev pub destination_address : CanonicalField
destination_address = 2

abbrev pub destination_port : CanonicalField
destination_port = 3

abbrev pub network_transport : CanonicalField
network_transport = 4

abbrev pub network_type : CanonicalField
network_type = 5

abbrev pub io_bytes : CanonicalField
io_bytes = 6

abbrev pub io_packets : CanonicalField
io_packets = 7

abbrev pub time_received : CanonicalField
time_received = 10

abbrev pub start : CanonicalField
start = 11

abbrev pub end : CanonicalField
end = 12

abbrev pub sampling_rate : CanonicalField
sampling_rate = 13

abbrev pub sampler_address : CanonicalField
sampler_address = 14

abbrev pub tcp_flags : CanonicalField
tcp_flags = 15

abbrev pub in_if : CanonicalField
in_if = 16

abbrev pub out_if : CanonicalField
out_if = 17

abbrev pub ip_tos : CanonicalField
ip_tos = 18

abbrev pub next_hop : CanonicalField
next_hop = 31

abbrev pub src_as : CanonicalField
src_as = 33

abbrev pub dst_as : CanonicalField
dst_as = 34

abbrev pub src_net : CanonicalField
src_net = 36

abbrev pub dst_net : CanonicalField
dst_net = 37

abbrev pub icmp_type_code : CanonicalField
icmp_type_code = 41

abbrev pub invalid : CanonicalField
invalid = 255

abbrev pub canonical_field_count : ℕ
canonical_field_count = 41
