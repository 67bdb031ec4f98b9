-- ===== src/Nettrace/Topology/Incremental/Ingesting.antt =====
-- What `ingest` keeps: the state after all the packets of its batches.
use netscope_x.Prelude.{
  ℕ, ◌+◌, some, List, [], ◌∷◌, ◌++◌, ◌≡◌, refl, sym, ap, ◌∙◌, arith, Bool, true, false, ◌||◌,
  if◌then◌else◌, ◌==◌, ==_iff, ==_self, All, nat_ord, list_ord, pair_ord, Dict, lookup, insert,
  keys, values, group, append_at, contains, group-append_at, contains-keys-append_at, lookup-insert,
  length, Result, ok, ◌>>=◌, Bool-cases, inl, inr,
}
use mathlib.Core.List.{append-nil, append_assoc}
use netscope_x.Models.Packet.{Packet, protocol_ord}
use netscope_x.Nettrace.Reconstruct.Keys.{FlowKey, flow_key}
use netscope_x.Nettrace.Reconstruct.Units.{FlowUnit}
use netscope_x.Nettrace.Reconstruct.UnitFacts.{
  session_units, all_units, derive_units-eq-ok, IsNonempty, group_packets-IsNonempty,
}
use netscope_x.Nettrace.Reconstruct.Assemble.{is_flow_protocol, group_packets, or_empty}
use netscope_x.Nettrace.Topology.Discovery.{sightings, see_all, unseen}
use netscope_x.Nettrace.Topology.Incremental.{
  IncrementalTopology, IngestStats, Scan, Change, rederive, ingest, units_in_order,
}
use netscope_x.Nettrace.Topology.Incremental.Scanning.{
  AreTwins, see_all-append, sightings-append, group_packets-append, touches, Scanned,
  scan_packets-Scanned,
}

-- the keys of the groups, and the groups that no packet touches
keys-group_packets :
    (d : Dict FlowKey (List Packet)) (ps : List Packet) (k : FlowKey)
    → contains (keys (group_packets d ps)) k ≡ (contains (keys d) k || touches ps k)
unfolding group_packets
keys-group_packets d [] k = ground arith
keys-group_packets d (p ∷ ps) k = elim (Bool-cases (is_flow_protocol p.protocol)) [
  | inl e ↦ rw e (
      keys-group_packets (append_at (flow_key p) p d) ps k
      ∙ ground (arith, contains-keys-append_at (flow_key p) k p d))
  | inr e ↦ rw e (keys-group_packets d ps k)
]

group-untouched :
    (d : Dict FlowKey (List Packet)) (ps : List Packet) (k : FlowKey)
    → touches ps k ≡ false
    → group k (group_packets d ps) ≡ group k d
unfolding group_packets
group-untouched d [] k h = refl
group-untouched d (p ∷ ps) k h = elim (Bool-cases (is_flow_protocol p.protocol)) [
  | inl e ↦
      let h' = (rw e at h) in
      rw e (
        group-untouched (append_at (flow_key p) p d) ps k (ground arith)
        ∙ ground (arith, group-append_at (flow_key p) k p d))
  | inr e ↦ let h' = (rw e at h) in rw e (group-untouched d ps k h')
]

-- a key that is there has a group that is not empty
group-IsNonempty :
    (d : Dict FlowKey (List Packet)) (k : FlowKey)
    → All IsNonempty (values d)
    → contains (keys d) k ≡ true
    → IsNonempty (group k d)
unfolding group
group-IsNonempty [] k h e = absurd (cc)
group-IsNonempty ((j, g) ∷ d) k (h, hs) e = elim (Bool-cases (j == k)) [
  | inl same ↦ rw same h
  | inr other ↦ rw other (group-IsNonempty d k hs (rw other at e))
]

module _ (idle : ℕ) (groups : Dict FlowKey (List Packet)) where
  -- each listed key gets the units of its group, and no other key changes
  rederive-eq-ok :
      (units : Dict FlowKey (List FlowUnit)) (ks : List FlowKey)
      → ((k : FlowKey) → contains ks k ≡ true → IsNonempty (group k groups))
      → (units' : Dict FlowKey (List FlowUnit)) × (changes : List Change) × (rederive idle groups
            units ks
          ≡ ok (units', changes))
        × ((k : FlowKey)
            → lookup k units' ≡ (
                if contains ks k
                then some (session_units idle (group k groups))
                else lookup k units))
  unfolding rederive
  rederive-eq-ok units [] full = (units, [], refl, λ k. refl)
  rederive-eq-ok units (k ∷ ks) full =
      let after = session_units idle (group k groups) in
      let (units', changes, e, f) =
        rederive-eq-ok (insert k after units) ks (λ j h. full j (ground arith)) in
      let change : Change = record { key = k; before = or_empty (lookup k units); after = after } in
      (
        units',
        change ∷ changes,
        rw (derive_units-eq-ok (group k groups) idle (full k (ground (arith, ==_self k))), e),
        λ j. f j ∙ ground (arith, lookup-insert k j after units, ==_iff k j),
      )

-- the state after the packets `ps`, whatever the batches were
pub record Tracks (s : IncrementalTopology) (ps : List Packet) : Type 0 where
  pub groups : s.groups ≡ group_packets [] ps
  pub observed : s.observed ≡ see_all unseen (sightings ps)
  pub twins : AreTwins s.observed
  pub units :
      (k : FlowKey)
      → contains (keys s.groups) k ≡ true
      → lookup k s.units ≡ some (session_units s.udp_idle (group k s.groups))

-- the order in which Python iterates over a set: it visits what is in the set, and nothing else
abbrev pub Visits : (List FlowKey → List FlowKey) → Type 0
Visits iter = (ks : List FlowKey) (k : FlowKey) → contains (iter ks) k ≡ contains ks k

abbrev scan_start : IncrementalTopology → Scan
scan_start s = record { observed = s.observed; groups = s.groups; touched = []; new_ips = 0 }

module _ (s : IncrementalTopology) (ps batch : List Packet) (c : Scan) (h : Tracks s ps)
    (f : Scanned (scan_start s) batch c) where
  groups_after : c.groups ≡ group_packets [] (ps ++ batch)
  groups_after =
      f.groups ∙ ap (λ g. group_packets g batch) h.groups ∙ sym (group_packets-append [] ps batch)

  observed_after : c.observed ≡ see_all unseen (sightings (ps ++ batch))
  observed_after =
      f.observed
      ∙ ap (λ o. see_all o (sightings batch)) h.observed
      ∙ sym (see_all-append unseen (sightings ps) (sightings batch))
      ∙ ap (see_all unseen) (sym (sightings-append ps batch))

  keys_after :
      (k : FlowKey) → contains (keys c.groups) k ≡ (contains (keys s.groups) k || touches batch k)
  keys_after k = rw f.groups (keys-group_packets s.groups batch k)

  touched_full : (k : FlowKey) → contains c.touched k ≡ true → IsNonempty (group k c.groups)
  touched_full k e =
      let present : contains (keys c.groups) k ≡ true = ground (arith, keys_after k, f.touched k) in
      rw groups_after (
        group-IsNonempty (group_packets [] (ps ++ batch)) k
          (group_packets-IsNonempty [] (ps ++ batch) tt) (rw groups_after at present))

  untouched_group :
      (k : FlowKey) → contains c.touched k ≡ false → group k c.groups ≡ group k s.groups
  untouched_group k e = rw f.groups (group-untouched s.groups batch k (ground (arith, f.touched k)))

  units_after :
      (units : Dict FlowKey (List FlowUnit)) (k : FlowKey) (hit : Bool)
      → hit ≡ contains c.touched k
      → lookup k units
        ≡ (if hit then some (session_units s.udp_idle (group k c.groups)) else lookup k s.units)
      → contains (keys c.groups) k ≡ true
      → lookup k units ≡ some (session_units s.udp_idle (group k c.groups))
  units_after units k true e found present = found
  units_after units k false e found present =
      found
      ∙ h.units k (ground (arith, keys_after k, f.touched k))
      ∙ ap (λ g. some (session_units s.udp_idle g)) (sym (untouched_group k (sym e)))

pub ingest-Tracks :
    (iter : List FlowKey → List FlowKey) (s : IncrementalTopology) (ps batch : List Packet)
    → Visits iter
    → Tracks s ps
    → (s' : IncrementalTopology) × (stats : IngestStats) × (ingest iter s batch ≡ ok (s', stats))
      × Tracks s' (ps ++ batch)
      × (s'.capture_id ≡ s.capture_id)
      × (s'.udp_idle ≡ s.udp_idle)
unfolding ingest
ingest-Tracks iter s ps batch visits h =
    let (c, e, f) = scan_packets-Scanned (scan_start s) batch h.twins in
    let full = λ (k : FlowKey) (p : contains (iter c.touched) k ≡ true).
      touched_full s ps batch c h f k (sym (visits c.touched k) ∙ p) in
    let (units, changes, e', f') =
      rederive-eq-ok s.udp_idle c.groups s.units (iter c.touched) full in
    let s' : IncrementalTopology = record s {
      groups = c.groups;
      units = units;
      observed = c.observed;
      packet_count = s.packet_count + length batch;
    } in
    let stats : IngestStats = record {
      packets = length batch;
      flow_keys_touched = length c.touched;
      flow_keys_total = length c.groups;
      new_ips = c.new_ips;
      changes = changes;
    } in
    (
      s',
      stats,
      rw (e, e'),
      record {
        groups = groups_after s ps batch c h f;
        observed = observed_after s ps batch c h f;
        twins = f.twins;
        units = λ k present.
            units_after s ps batch c h f units k (contains (iter c.touched) k) (visits c.touched k)
              (f' k) present;
      },
      refl,
      refl,
    )

-- `ingest` of one batch after the other
pub ingest_all :
    (List FlowKey → List FlowKey)
    → IncrementalTopology
    → List (List Packet)
    → Result IncrementalTopology
ingest_all iter s [] = ok s
ingest_all iter s (b ∷ bs) = do (s', stats) ← ingest iter s b; ingest_all iter s' bs

abbrev pub concat_batches : List (List Packet) → List Packet
concat_batches [] = []
concat_batches (b ∷ bs) = b ++ concat_batches bs

pub ingest_all-Tracks :
    (iter : List FlowKey → List FlowKey) (s : IncrementalTopology) (ps : List Packet)
    (bs : List (List Packet))
    → Visits iter
    → Tracks s ps
    → (s' : IncrementalTopology) × (ingest_all iter s bs ≡ ok s')
      × Tracks s' (ps ++ concat_batches bs)
      × (s'.capture_id ≡ s.capture_id)
      × (s'.udp_idle ≡ s.udp_idle)
unfolding ingest_all
ingest_all-Tracks iter s ps [] visits h = (s, refl, rw append-nil h, refl, refl)
ingest_all-Tracks iter s ps (b ∷ bs) visits h =
    let (s₁, stats, e₁, h₁, c₁, i₁) = ingest-Tracks iter s ps b visits h in
    let (s₂, e₂, h₂, c₂, i₂) = ingest_all-Tracks iter s₁ (ps ++ b) bs visits h₁ in
    (s₂, rw e₁ e₂, rw append_assoc at h₂, c₂ ∙ c₁, i₂ ∙ i₁)

pub units_in_order-eq-ok :
    (idle : ℕ) (units : Dict FlowKey (List FlowUnit)) (d : Dict FlowKey (List Packet))
    → All (λ e. lookup e.0 units ≡ some (session_units idle e.1)) d
    → units_in_order units (keys d) ≡ ok (all_units idle (values d))
unfolding units_in_order
units_in_order-eq-ok idle units [] h = refl
units_in_order-eq-ok idle units ((k, g) ∷ d) (h, hs) = rw (h, units_in_order-eq-ok idle units d hs)
