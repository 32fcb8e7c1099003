-- ===== src/Wire/Names.antt =====
-- internal/wire/model.go: the canonical receiver names, which no custom mapping may take.
use Prim.Native.Char.{code}
use Prim.Native.String.{String}
use otelcol_exporter_netflow.Common.{ℕ, Bool, false, ◌||◌, List, [], ◌∷◌}
use otelcol_exporter_netflow.Wire.Model.{same_bytes}

-- The bytes of an ASCII text.
abbrev codes : String → List ℕ
codes String.[] = []
codes (String.◌∷◌ c s) = code c ∷ codes s

canonical_names : List (List ℕ)
canonical_names =
    codes "source.address"
    ∷ codes "source.port"
    ∷ codes "destination.address"
    ∷ codes "destination.port"
    ∷ codes "network.transport"
    ∷ codes "network.type"
    ∷ codes "flow.io.bytes"
    ∷ codes "flow.io.packets"
    ∷ codes "flow.type"
    ∷ codes "flow.sequence_num"
    ∷ codes "flow.time_received"
    ∷ codes "flow.start"
    ∷ codes "flow.end"
    ∷ codes "flow.sampling_rate"
    ∷ codes "flow.sampler_address"
    ∷ codes "flow.tcp_flags"
    ∷ codes "flow.in_if"
    ∷ codes "flow.out_if"
    ∷ codes "flow.ip_tos"
    ∷ codes "flow.ip_ttl"
    ∷ codes "flow.ip_flags"
    ∷ codes "flow.fragment_id"
    ∷ codes "flow.fragment_offset"
    ∷ codes "flow.ipv6_flow_label"
    ∷ codes "flow.icmp_type"
    ∷ codes "flow.icmp_code"
    ∷ codes "flow.src_mac"
    ∷ codes "flow.dst_mac"
    ∷ codes "flow.src_vlan"
    ∷ codes "flow.dst_vlan"
    ∷ codes "flow.vlan_id"
    ∷ codes "flow.next_hop"
    ∷ codes "flow.next_hop_as"
    ∷ codes "flow.src_as"
    ∷ codes "flow.dst_as"
    ∷ codes "flow.bgp_next_hop"
    ∷ codes "flow.src_net"
    ∷ codes "flow.dst_net"
    ∷ codes "flow.forwarding_status"
    ∷ codes "flow.observation_domain_id"
    ∷ codes "flow.observation_point_id"
    ∷ []

is_among : List (List ℕ) → List ℕ → Bool
is_among [] name = false
is_among (x ∷ xs) name = same_bytes name x || is_among xs name

-- A canonical name, or the name of the virtual ICMP composite.
unfoldable pub is_reserved_name : List ℕ → Bool
unfolding canonical_names is_among
is_reserved_name name =
    is_among canonical_names name || same_bytes name (codes "flow.icmp_type_code")
