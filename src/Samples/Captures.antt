-- ===== src/Samples/Captures.antt =====
-- A short capture, and the theorems on reconstruction and discovery applied to it.
use netscope_x.Prelude.{
  String, ℕ, true, Option, none, some, List, [], ◌∷◌, Text, text, ◌≡◌, ◌↔◌, refl, ok, raise,
  validation_error, sort_by, append_at, sorted_pair, lookup, any, All, nat_ord, list_ord, pair_ord,
  values, if◌then◌else◌, map_index, ◌||◌, ◌>>=◌,
}
use netscope_x.Models.Packet.{
  Packet, TransportProtocol, tcp, udp, PacketDirection, forward, reverse, unknown, protocol_ord,
}
use netscope_x.Models.Flow.{is_some, reset}
use netscope_x.Models.Topology.{Node}
use netscope_x.Nettrace.Reconstruct.Keys.{FlowKey, flow_key, flow_key_iff, SameEndpoints}
use netscope_x.Nettrace.Reconstruct.Tcp.{
  compute_tcp_state, has_flag, retransmission_no_op, reset_iff,
}
use netscope_x.Nettrace.Reconstruct.Sessions.{
  split_udp_sessions, split_udp_sessions-IsCut, IsCut, by_time,
}
use netscope_x.Nettrace.Reconstruct.Units.{units_of}
use netscope_x.Nettrace.Reconstruct.UnitFacts.{all_units-IsUnit, session_units}
use netscope_x.Nettrace.Reconstruct.Assemble.{
  TlsVersions, assemble_flows, by_first, flow_fields, tally_from, no_tally, tls_version_of,
  reconstruct_flows, group_packets, derive_all,
}
use netscope_x.Nettrace.Reconstruct.Validity.{
  tls_conflict, assemble_flows_lem, capture_units, reconstruct_flows-raises,
}
use netscope_x.Nettrace.Topology.Discovery.{discover_nodes, sightings, up_to}
use netscope_x.Nettrace.Topology.Discovery.Nodes.{IsSighted, nodes_at, earliest, discover_nodes_lem}
use netscope_x.Nettrace.Topology.Incremental.{nodes, flows, IncrementalTopology}
use netscope_x.Nettrace.Topology.Incremental.Ingesting.{Visits}
use netscope_x.Nettrace.Topology.Incremental.Equivalence.{
  reconstruct_incrementally, incremental-eq-batch,
}
use netscope_x.Samples.Whole.{whole, whole_laws}

abbrev pub packet : String → ℕ → String → ℕ → String → ℕ → TransportProtocol → Option Text → Packet
packet id t src sp dst dp protocol flags = record {
  packet_id = text id;
  capture_id = text "c";
  timestamp = t;
  src_ip = text src;
  dst_ip = text dst;
  src_port = some sp;
  dst_port = some dp;
  protocol = protocol;
  size_bytes = 60;
  direction = unknown;
  tcp_flags = flags;
}

abbrev pub syn : Packet
syn = packet "p1" 10 "a" 5 "b" 443 tcp (some (text "SYN"))

abbrev pub syn_ack : Packet
syn_ack = packet "p2" 11 "b" 443 "a" 5 tcp (some (text "SYN,ACK"))

abbrev pub quic : Packet
quic = packet "p3" 12 "a" 6 "b" 443 udp none

abbrev pub capture : List Packet
capture = syn ∷ syn_ack ∷ quic ∷ []

-- the TLS server that the capture has shown on TCP
abbrev pub servers : TlsVersions
servers = ((text "b", some 443), text "TLS 1.3") ∷ []

flow_key_iff_example : (flow_key syn ≡ flow_key syn_ack) ↔ ((tcp ≡ tcp) × SameEndpoints syn syn_ack)
flow_key_iff_example = flow_key_iff syn syn_ack

syn_is_flagged : (has_flag syn "SYN" || has_flag syn "FIN" || has_flag syn "RST") ≡ true
unfolding has_flag
syn_is_flagged = refl

retransmission_no_op_example :
    compute_tcp_state ((syn, forward) ∷ (syn_ack, reverse) ∷ (syn, forward) ∷ [])
    ≡ compute_tcp_state ((syn, forward) ∷ (syn_ack, reverse) ∷ [])
retransmission_no_op_example =
    retransmission_no_op syn forward [] ((syn_ack, reverse) ∷ []) [] syn_is_flagged

reset_iff_example :
    (compute_tcp_state ((syn, forward) ∷ []) ≡ some reset)
    ↔ (any (λ (x : Packet × PacketDirection). has_flag x.0 "RST") ((syn, forward) ∷ []) ≡ true)
reset_iff_example = reset_iff ((syn, forward) ∷ [])

split_udp_sessions-IsCut_example : IsCut 1 (sort_by by_time capture) (split_udp_sessions 1 capture)
split_udp_sessions-IsCut_example = split_udp_sessions-IsCut 1 capture

discover_nodes_lem_example :
    (nodes : List Node) × (discover_nodes (text "c") (some 11) (some capture) ≡ ok nodes)
    × All (IsSighted (text "c") (sightings (up_to (some 11) capture))) nodes
    × ((ip : Text)
        → nodes_at (text "c") (sightings (up_to (some 11) capture)) ip nodes
          ≡ (if is_some (earliest ip (sightings (up_to (some 11) capture))) then 1 else 0))
discover_nodes_lem_example = discover_nodes_lem (text "c") (some 11) capture

abbrev pub in_given_order : List FlowKey → List FlowKey
in_given_order ks = ks

in_given_order-Visits : Visits in_given_order
in_given_order-Visits ks k = refl

incremental-eq-batch_example :
    (s : IncrementalTopology) × (reconstruct_incrementally in_given_order
        (text "c")
        300
        ((syn ∷ []) ∷ (syn_ack ∷ quic ∷ []) ∷ [])
      ≡ ok s)
    × (nodes s ≡ discover_nodes (text "c") none (some capture))
    × (flows whole s ≡ (do
      units ← derive_all 300 (values (group_packets [] capture))
      assemble_flows whole (text "c") units []))
incremental-eq-batch_example =
    incremental-eq-batch whole in_given_order (text "c") 300
      ((syn ∷ []) ∷ (syn_ack ∷ quic ∷ []) ∷ []) in_given_order-Visits

assemble_flows_lem_example : assemble_flows whole (text "c") (capture_units 300 capture) servers ≡ (
    if any (tls_conflict servers) (capture_units 300 capture)
    then raise validation_error
    else (let ordered = sort_by by_first (capture_units 300 capture) in
        ok (
          map_index
            (flow_fields whole (text "c") servers (tally_from no_tally ordered))
            0
            ordered)))
assemble_flows_lem_example =
    assemble_flows_lem whole whole_laws (text "c") (capture_units 300 capture) servers
      (all_units-IsUnit 300 (values (group_packets [] capture)))

conflict : any (tls_conflict servers) (capture_units 300 capture) ≡ true
unfolding tls_conflict group_packets append_at flow_key sorted_pair session_units units_of sort_by
    tls_version_of lookup split_udp_sessions
conflict = refl

reconstruct_flows-raises_example :
    reconstruct_flows whole (text "c") 300 servers capture ≡ raise validation_error
reconstruct_flows-raises_example =
    reconstruct_flows-raises whole whole_laws (text "c") 300 servers capture conflict
