-- ===== src/Nettrace/Reconstruct/Units.antt =====
-- `_Unit` and `derive_units` of backend/nettrace/reconstruct.py
use netscope_x.Prelude.{
  ℕ, Option, none, Text, List, [], ◌∷◌, map, Bool, true, false, ◌&&◌, if◌then◌else◌, ◌==◌, nat_ord,
  list_ord, option_ord, pair_ord, sort_by, Result, ok, raise, index_error, sum_of,
}
use netscope_x.Models.Packet.{Packet, PacketDirection, forward, reverse, TransportProtocol, udp}
use netscope_x.Models.Flow.{TcpState, is_tcp}
use netscope_x.Nettrace.Fingerprint.{fingerprint_protocol}
use netscope_x.Nettrace.Reconstruct.Keys.{FlowKey, flow_key}
use netscope_x.Nettrace.Reconstruct.Tcp.{compute_tcp_state, is_forward}
use netscope_x.Nettrace.Reconstruct.Sessions.{by_time, split_udp_sessions}

-- `_Unit`; the name avoids that of the type with one element
pub record FlowUnit : Type 0 where
  pub canonical : Packet
  pub packets : List Packet
  pub directed : List (Packet × PacketDirection)
  pub forward_bytes : ℕ
  pub tcp_state : Option TcpState
  pub fingerprinted_protocol : Option Text
  pub key : FlowKey
  pub src_ip_str : Text

abbrev same_endpoint : Text × Option ℕ → Text × Option ℕ → Bool
same_endpoint a b = a == b

-- FORWARD exactly for the canonical source and destination, ports included
unfoldable pub direction_of : Packet → Packet → PacketDirection
direction_of canonical p =
    if same_endpoint (p.src_ip, p.src_port) (canonical.src_ip, canonical.src_port)
      && same_endpoint (p.dst_ip, p.dst_port) (canonical.dst_ip, canonical.dst_port)
    then forward
    else reverse

abbrev pub forward_size : Packet × PacketDirection → ℕ
forward_size (p, d) = if is_forward d then p.size_bytes else 0

-- the body of the loop, for the packets of a unit in order of time and the first of them
unfoldable pub unit_of : Packet → List Packet → FlowUnit
unfolding direction_of
unit_of canonical group =
    let directed = map (λ p. (p, direction_of canonical p)) group in
    record {
      canonical = canonical;
      packets = group;
      directed = directed;
      forward_bytes = sum_of forward_size directed;
      tcp_state = if is_tcp canonical.protocol then compute_tcp_state directed else none;
      fingerprinted_protocol =
          fingerprint_protocol canonical.protocol canonical.src_port canonical.dst_port;
      key = flow_key canonical;
      src_ip_str = canonical.src_ip;
    }

-- appends the unit of a sorted group: `canonical = group[0]`; no session is empty (`IsCut`)
unfoldable pub add_unit : List Packet → List FlowUnit → List FlowUnit
unfolding unit_of
add_unit [] units = units
add_unit (canonical ∷ rest) units = unit_of canonical (canonical ∷ rest) ∷ units

-- the loop over `raw_units`; `group = sorted(...)`
unfoldable pub units_of : List (List Packet) → List FlowUnit
unfolding add_unit
units_of [] = []
units_of (group ∷ more) = add_unit (sort_by by_time group) (units_of more)

abbrev pub is_udp : TransportProtocol → Bool
is_udp udp = true
is_udp _ = false

unfoldable pub derive_units : List Packet → ℕ → Result (List FlowUnit)
unfolding units_of
derive_units [] idle = raise index_error
derive_units (p ∷ group) idle =
    let raw_units =
      if is_udp p.protocol then split_udp_sessions idle (p ∷ group) else (p ∷ group) ∷ [] in
    ok (units_of raw_units)
