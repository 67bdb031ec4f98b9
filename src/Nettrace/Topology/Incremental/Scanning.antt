-- ===== src/Nettrace/Topology/Incremental/Scanning.antt =====
-- What the first loop of `ingest` leaves.
use netscope_x.Prelude.{
  ◌+◌, Text, List, [], ◌∷◌, ◌++◌, ◌≡◌, refl, sym, ◌∙◌, arith, Bool, false, ◌||◌, if◌then◌else◌,
  ◌==◌, ==_iff, nat_ord, list_ord, pair_ord, Dict, lookup, append_at, add, contains, contains-add,
  lookup-insert, ok, Bool-cases, inl, inr,
}
use netscope_x.Models.Packet.{Packet, protocol_ord}
use netscope_x.Models.Flow.{is_some}
use netscope_x.Nettrace.Reconstruct.Keys.{FlowKey, flow_key}
use netscope_x.Nettrace.Reconstruct.Assemble.{is_flow_protocol, group_packets}
use netscope_x.Nettrace.Topology.Discovery.{Observed, Sighting, sightings, see, see_all}
use netscope_x.Nettrace.Topology.Incremental.{see_next, Scan, scan_packet, scan_packets, if_new}

-- one address has both times or none
abbrev pub AreTwins : Observed → Type 0
AreTwins o = (ip : Text) → is_some (lookup ip o.first) ≡ is_some (lookup ip o.last)

see_next-eq-see : (o : Observed) (s : Sighting) → AreTwins o → see_next o s ≡ ok (see o s)
unfolding see_next see
see_next-eq-see o (ip, t) twins = ground (arith, twins ip)

see-AreTwins : (o : Observed) (s : Sighting) → AreTwins o → AreTwins (see o s)
unfolding see
see-AreTwins o (ip, t) twins j = ground (
  arith,
  twins ip,
  twins j,
  lookup-insert ip j t o.first,
  lookup-insert ip j t o.last,
  ==_iff ip j,
)

pub see_all-append :
    (o : Observed) (xs ys : List Sighting) → see_all o (xs ++ ys) ≡ see_all (see_all o xs) ys
unfolding see_all
see_all-append o [] ys = refl
see_all-append o (x ∷ xs) ys = see_all-append (see o x) xs ys

pub sightings-append : (ps qs : List Packet) → sightings (ps ++ qs) ≡ sightings ps ++ sightings qs
sightings-append [] qs = refl
sightings-append (p ∷ ps) qs = rw (sightings-append ps qs)

pub group_packets-append :
    (d : Dict FlowKey (List Packet)) (ps qs : List Packet)
    → group_packets d (ps ++ qs) ≡ group_packets (group_packets d ps) qs
unfolding group_packets
group_packets-append d [] qs = refl
group_packets-append d (p ∷ ps) qs =
    group_packets-append (if is_flow_protocol p.protocol then append_at (flow_key p) p d else d) ps
      qs

-- the flow keys that packets touch
abbrev pub touches : List Packet → FlowKey → Bool
touches [] k = false
touches (p ∷ ps) k =
    (if is_flow_protocol p.protocol then flow_key p == k else false) || touches ps k

-- what the first loop of `ingest` leaves
pub record Scanned (c : Scan) (ps : List Packet) (c' : Scan) : Type 0 where
  pub observed : c'.observed ≡ see_all c.observed (sightings ps)
  pub twins : AreTwins c'.observed
  pub groups : c'.groups ≡ group_packets c.groups ps
  pub touched : (k : FlowKey) → contains c'.touched k ≡ (contains c.touched k || touches ps k)

-- what one packet leaves
abbrev src_sighting : Packet → Sighting
src_sighting p = (p.src_ip, p.timestamp)

abbrev dst_sighting : Packet → Sighting
dst_sighting p = (p.dst_ip, p.timestamp)

abbrev after_packet : Scan → Packet → Scan
after_packet c p =
    let o = see c.observed (src_sighting p) in
    let is_flow = is_flow_protocol p.protocol in
    record {
      observed = see o (dst_sighting p);
      groups = if is_flow then append_at (flow_key p) p c.groups else c.groups;
      touched = if is_flow then add c.touched (flow_key p) else c.touched;
      new_ips = c.new_ips + if_new c.observed p.src_ip + if_new o p.dst_ip;
    }

scan_packet-eq-ok :
    (c : Scan) (p : Packet) → AreTwins c.observed → scan_packet c p ≡ ok (after_packet c p)
unfolding scan_packet
scan_packet-eq-ok c p twins = rw (
  see_next-eq-see c.observed (src_sighting p) twins,
  see_next-eq-see (see c.observed (src_sighting p)) (dst_sighting p)
      (see-AreTwins c.observed (src_sighting p) twins),
)

touched-after_packet :
    (c : Scan) (p : Packet) (k : FlowKey)
    → contains (after_packet c p).touched k ≡ (contains c.touched k || touches (p ∷ []) k)
touched-after_packet c p k = elim (Bool-cases (is_flow_protocol p.protocol)) [
  | inl e ↦ rw e (contains-add c.touched (flow_key p) k ∙ ground arith)
  | inr e ↦ rw e (ground arith)
]

after_packet-Scanned :
    (c : Scan) (p : Packet) → AreTwins c.observed → Scanned c (p ∷ []) (after_packet c p)
unfolding see_all group_packets
after_packet-Scanned c p twins = record {
  observed = refl;
  twins =
      see-AreTwins (see c.observed (src_sighting p)) (dst_sighting p)
        (see-AreTwins c.observed (src_sighting p) twins);
  groups = refl;
  touched = touched-after_packet c p;
}

pub scan_packets-Scanned :
    (c : Scan) (ps : List Packet)
    → AreTwins c.observed
    → (c' : Scan) × (scan_packets c ps ≡ ok c') × Scanned c ps c'
unfolding scan_packets see_all group_packets
scan_packets-Scanned c [] twins = (
  c,
  refl,
  record {
    observed = unfold see_all in refl;
    twins = twins;
    groups = unfold group_packets in refl;
    touched = λ k. ground arith;
  },
)
scan_packets-Scanned c (p ∷ ps) twins =
    let f₁ = after_packet-Scanned c p twins in
    let (c₂, e₂, f₂) = scan_packets-Scanned (after_packet c p) ps f₁.twins in
    (
      c₂,
      rw (scan_packet-eq-ok c p twins, e₂),
      record {
        observed =
            f₂.observed ∙ sym (see_all-append c.observed (sightings (p ∷ [])) (sightings ps));
        twins = f₂.twins;
        groups = f₂.groups ∙ sym (group_packets-append c.groups (p ∷ []) ps);
        touched = λ k. ground (arith, f₁.touched k, f₂.touched k);
      },
    )
