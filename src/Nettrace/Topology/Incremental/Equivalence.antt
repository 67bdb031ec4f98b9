-- ===== src/Nettrace/Topology/Incremental/Equivalence.antt =====
-- The incremental reconstruction gives what the batch reconstruction of all the packets gives.
use netscope_x.Prelude.{
  ℕ, none, some, Text, List, [], ◌∷◌, ◌≡◌, refl, ◌∙◌, arith, true, false, ◌==◌, ==_iff, ==_self,
  ==_comm, All, nat_ord, list_ord, pair_ord, Dict, lookup, keys, values, group, append_at, contains,
  contains-keys-append_at, Result, ok, ◌>>=◌, Bool-cases, inl, inr,
}
use netscope_x.Models.Packet.{Packet, protocol_ord}
use netscope_x.Models.Floats.{Floats}
use netscope_x.Nettrace.Reconstruct.Keys.{FlowKey, flow_key}
use netscope_x.Nettrace.Reconstruct.UnitFacts.{session_units}
use netscope_x.Nettrace.Reconstruct.Validity.{capture_units, derive_all-capture}
use netscope_x.Nettrace.Reconstruct.Assemble.{
  derive_all, is_flow_protocol, assemble_flows, group_packets,
}
use netscope_x.Nettrace.Topology.Discovery.{see_all, unseen, discover_nodes}
use netscope_x.Nettrace.Topology.Incremental.{IncrementalTopology, init, nodes, flows}
use netscope_x.Nettrace.Topology.Incremental.Ingesting.{
  Tracks, Visits, ingest_all, concat_batches, ingest_all-Tracks, units_in_order-eq-ok,
}

-- every key of the groups stands there once
abbrev AreDistinct : Dict FlowKey (List Packet) → Type 0
AreDistinct [] = Unit
AreDistinct ((k, g) ∷ d) = (contains (keys d) k ≡ false) × AreDistinct d

append_at-AreDistinct :
    (k : FlowKey) (p : Packet) (d : Dict FlowKey (List Packet))
    → AreDistinct d
    → AreDistinct (append_at k p d)
unfolding append_at
append_at-AreDistinct k p [] h = (refl, tt)
append_at-AreDistinct k p ((j, g) ∷ d) (h, hs) = elim (Bool-cases (j == k)) [
  | inl e ↦ rw e (h, hs)
  | inr e ↦
      rw e (
        ground (arith, contains-keys-append_at k j p d, ==_comm k j),
        append_at-AreDistinct k p d hs,
      )
]

group_packets-AreDistinct :
    (d : Dict FlowKey (List Packet)) (ps : List Packet)
    → AreDistinct d
    → AreDistinct (group_packets d ps)
unfolding group_packets
group_packets-AreDistinct d [] h = h
group_packets-AreDistinct d (p ∷ ps) h = elim (Bool-cases (is_flow_protocol p.protocol)) [
  | inl e ↦ rw e (
      group_packets-AreDistinct (append_at (flow_key p) p d) ps
        (append_at-AreDistinct (flow_key p) p d h))
  | inr e ↦ rw e (group_packets-AreDistinct d ps h)
]

All-items :
    (P : FlowKey → List Packet → Type 0) (d : Dict FlowKey (List Packet))
    → AreDistinct d
    → ((k : FlowKey) → contains (keys d) k ≡ true → P k (group k d))
    → All (λ e. P e.0 e.1) d
unfolding group
All-items P [] h f = tt
All-items P ((k, g) ∷ d) (h, hs) f = (
  rw (==_self k, group) at (f k (ground (arith, ==_self k))),
  All-items P d hs (λ j present.
      let other : (k == j) ≡ false = ground (arith, ==_iff k j) in
      rw (other, group) at (f j (ground arith))),
)

-- the flows and the nodes of a state that has seen `ps`
flows-Tracks :
    {F : Type 0} (fl : Floats F) (s : IncrementalTopology) (ps : List Packet)
    → Tracks s ps
    → flows fl s ≡ assemble_flows fl s.capture_id (capture_units s.udp_idle ps) []
unfolding flows
flows-Tracks fl s ps h =
    let items =
      All-items (λ k g. lookup k s.units ≡ some (session_units s.udp_idle g)) s.groups
        (rw h.groups (group_packets-AreDistinct [] ps tt)) h.units in
    rw (units_in_order-eq-ok s.udp_idle s.units s.groups items, h.groups)

init-Tracks :
    (capture_id : Text) (idle : ℕ)
    → (s : IncrementalTopology) × (init capture_id idle false ≡ ok s)
      × Tracks s []
      × (s.capture_id ≡ capture_id)
      × (s.udp_idle ≡ idle)
unfolding init
init-Tracks capture_id idle = (
  record {
    capture_id = capture_id;
    udp_idle = idle;
    groups = [];
    units = [];
    observed = unseen;
    packet_count = 0;
  },
  refl,
  record {
    groups = unfold group_packets in refl;
    observed = unfold see_all in refl;
    twins = λ ip. refl;
    units = λ k p. absurd (cc);
  },
  refl,
  refl,
)

-- the loop and the constructor together
pub reconstruct_incrementally :
    (List FlowKey → List FlowKey) → Text → ℕ → List (List Packet) → Result IncrementalTopology
reconstruct_incrementally iter capture_id idle batches = do
  s ← init capture_id idle false
  ingest_all iter s batches

-- However the packets come in batches, and in whatever order Python iterates over its sets, the
-- incremental reconstruction does not raise, its nodes are those of `discover_nodes` over all the
-- packets, and its flows are those that the batch path assembles from all the packets (without TLS
-- versions).
pub incremental-eq-batch :
    {F : Type 0} (fl : Floats F) (iter : List FlowKey → List FlowKey) (capture_id : Text) (idle : ℕ)
    (batches : List (List Packet))
    → Visits iter
    → (s : IncrementalTopology) × (reconstruct_incrementally iter capture_id idle batches ≡ ok s)
      × (nodes s ≡ discover_nodes capture_id none (some (concat_batches batches)))
      × (flows fl s ≡ (do
        units ← derive_all idle (values (group_packets [] (concat_batches batches)))
        assemble_flows fl capture_id units []))
unfolding reconstruct_incrementally nodes discover_nodes
incremental-eq-batch fl iter capture_id idle batches visits =
    let (s₀, e₀, h₀, c₀, i₀) = init-Tracks capture_id idle in
    let (s, e, h, c, i) = ingest_all-Tracks iter s₀ [] batches visits h₀ in
    (
      s,
      rw (e₀, e),
      rw (c, c₀, h.observed),
      rw derive_all-capture (flows-Tracks fl s (concat_batches batches) h ∙ rw (c, c₀, i, i₀)),
    )
