-- ===== src/Nettrace/Topology/Incremental.antt =====
-- backend/nettrace/topology/incremental.py: `IncrementalTopology`, up to the flows and the nodes.
pub mod Scanning
pub mod Ingesting
pub mod Equivalence
use netscope_x.Prelude.{
  ℕ, ◌+◌, ◌≤◌, Option, none, some, Text, List, [], ◌∷◌, ◌++◌, ◌≡◌, refl, arith, Bool, true, false,
  ltb, if◌then◌else◌, ◌==◌, nat_ord, list_ord, pair_ord, Dict, lookup, insert, keys, group,
  append_at, add, contains, length, Result, ok, raise, value_error, key_error, or_raise, traverse,
  ◌>>=◌,
}
use netscope_x.Models.Packet.{Packet, protocol_ord}
use netscope_x.Models.Floats.{Floats}
use netscope_x.Models.Flow.{Flow}
use netscope_x.Models.Topology.{Node}
use netscope_x.Nettrace.Reconstruct.Keys.{FlowKey, flow_key}
use netscope_x.Nettrace.Reconstruct.Units.{FlowUnit, derive_units}
use netscope_x.Nettrace.Reconstruct.Assemble.{is_flow_protocol, assemble_flows, or_empty}
use netscope_x.Nettrace.Topology.Discovery.{Observed, Sighting, unseen, nodes_from_observations}

-- what changed for one key: its units before and after
pub record Change : Type 0 where
  pub key : FlowKey
  pub before : List FlowUnit
  pub after : List FlowUnit

pub record IngestStats : Type 0 where
  pub packets : ℕ
  pub flow_keys_touched : ℕ
  pub flow_keys_total : ℕ
  pub new_ips : ℕ
  pub changes : List Change

pub record IncrementalTopology : Type 0 where
  pub capture_id : Text
  pub udp_idle : ℕ
  pub groups : Dict FlowKey (List Packet)
  pub units : Dict FlowKey (List FlowUnit)
  pub observed : Observed
  pub packet_count : ℕ

-- `__init__`
unfoldable pub init : Text → ℕ → Bool → Result IncrementalTopology
init capture_id idle true = raise value_error
init capture_id idle false = ok (record {
  capture_id = capture_id;
  udp_idle = idle;
  groups = [];
  units = [];
  observed = unseen;
  packet_count = 0;
})

-- the body of the loop over the two addresses of a packet, for the times of an address that is known
unfoldable pub see_known : Observed → Sighting → ℕ → ℕ → Observed
see_known o (ip, t) first last = record {
  first = if ltb t first then insert ip t o.first else o.first;
  last = if ltb last t then insert ip t o.last else o.last;
}

unfoldable pub or_raise_times : Observed → Sighting → Option ℕ → Option ℕ → Result Observed
unfolding see_known
or_raise_times o (ip, t) none last =
    ok (record { first = insert ip t o.first; last = insert ip t o.last })
or_raise_times o s (some first) none = raise key_error
or_raise_times o s (some first) (some last) = ok (see_known o s first last)

unfoldable pub see_next : Observed → Sighting → Result Observed
unfolding or_raise_times
see_next o (ip, t) = or_raise_times o (ip, t) (lookup ip o.first) (lookup ip o.last)

-- the variables of the first loop of `ingest`
pub record Scan : Type 0 where
  pub observed : Observed
  pub groups : Dict FlowKey (List Packet)
  pub touched : List FlowKey
  pub new_ips : ℕ

abbrev pub if_new : Observed → Text → ℕ
if_new o ip = if contains (keys o.first) ip then 0 else 1

unfoldable pub scan_packet : Scan → Packet → Result Scan
unfolding see_next
scan_packet c p = do
  o ← see_next c.observed (p.src_ip, p.timestamp)
  o' ← see_next o (p.dst_ip, p.timestamp)
  let is_flow = is_flow_protocol p.protocol
  ok (record {
    observed = o';
    groups = if is_flow then append_at (flow_key p) p c.groups else c.groups;
    touched = if is_flow then add c.touched (flow_key p) else c.touched;
    new_ips = c.new_ips + if_new c.observed p.src_ip + if_new o p.dst_ip;
  })

unfoldable pub scan_packets : Scan → List Packet → Result Scan
unfolding scan_packet
scan_packets c [] = ok c
scan_packets c (p ∷ ps) = do c' ← scan_packet c p; scan_packets c' ps

-- the loop over the touched keys: the new `_units`, and the changes
unfoldable pub rederive :
    ℕ
    → Dict FlowKey (List Packet)
    → Dict FlowKey (List FlowUnit)
    → List FlowKey
    → Result (Dict FlowKey (List FlowUnit) × List Change)
rederive idle groups units [] = ok (units, [])
rederive idle groups units (k ∷ ks) = do
  after ← derive_units (group k groups) idle
  (units', changes) ← rederive idle groups (insert k after units) ks
  ok (units', record { key = k; before = or_empty (lookup k units); after = after } ∷ changes)

-- `iter` is the order in which Python iterates over the set of touched keys.
unfoldable pub ingest :
    (List FlowKey → List FlowKey)
    → IncrementalTopology
    → List Packet
    → Result (IncrementalTopology × IngestStats)
unfolding scan_packets rederive
ingest iter s packets = do
  c ←
      scan_packets (record { observed = s.observed; groups = s.groups; touched = []; new_ips = 0 })
        packets
  (units, changes) ← rederive s.udp_idle c.groups s.units (iter c.touched)
  ok (
    record s {
      groups = c.groups;
      units = units;
      observed = c.observed;
      packet_count = s.packet_count + length packets;
    },
    record {
      packets = length packets;
      flow_keys_touched = length c.touched;
      flow_keys_total = length c.groups;
      new_ips = c.new_ips;
      changes = changes;
    },
  )

unfoldable pub nodes : IncrementalTopology → Result (List Node)
nodes s = nodes_from_observations s.capture_id s.observed

-- `[u for key in self._groups for u in self._units[key]]`
unfoldable pub units_in_order : Dict FlowKey (List FlowUnit) → List FlowKey → Result (List FlowUnit)
units_in_order units [] = ok []
units_in_order units (k ∷ ks) = do
  us ← or_raise key_error (lookup k units)
  more ← units_in_order units ks
  ok (us ++ more)

unfoldable pub flows : {F : Type 0} → Floats F → IncrementalTopology → Result (List (Flow F))
unfolding units_in_order
flows fl s = do
  units ← units_in_order s.units (keys s.groups)
  assemble_flows fl s.capture_id units []
