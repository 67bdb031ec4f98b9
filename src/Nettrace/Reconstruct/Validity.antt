-- ===== src/Nettrace/Reconstruct/Validity.antt =====
-- When `assemble_flows` raises: exactly for a flow that is not TCP and gets a TLS version.
use netscope_x.Prelude.{
  ℕ, suc, ◌≤◌, Text, List, [], ◌∷◌, ◌≡◌, refl, ◌∙◌, arith, Bool, true, false, ltb, ltb→lt, le→leb,
  not, ◌&&◌, if◌then◌else◌, sort_by, IsSorted, All, sum_of, inl, inr, ok, raise, validation_error,
  last_or, any, any-sort_by, sort_by-All, map_index, Bool-cases, values,
}
use netscope_x.Models.Floats.{Floats, FloatLaws}
use netscope_x.Models.Packet.{Packet}
use netscope_x.Models.Flow.{
  is_tcp, is_some, features_valid, last_not_before_first, tcp_state_only_for_tcp,
  tls_version_only_for_tcp, build_flow,
}
use netscope_x.Nettrace.Reconstruct.Sessions.{by_time}
use netscope_x.Nettrace.Reconstruct.Units.{FlowUnit}
use netscope_x.Nettrace.Reconstruct.UnitFacts.{
  IsUnit, size_of, all_units, all_units-IsUnit, derive_all-eq-ok, group_packets-IsNonempty,
}
use netscope_x.Nettrace.Reconstruct.Assemble.{
  TlsVersions, Tally, derive_all, inter_arrivals, compute_features, mean_of, tls_version_of,
  flow_fields, build_from, assemble_flows, tally_from, no_tally, by_first, group_packets,
  reconstruct_flows,
}

-- a unit that is not TCP, one of whose endpoints is that of a TLS server
unfoldable pub tls_conflict : TlsVersions → FlowUnit → Bool
tls_conflict tls u = is_some (tls_version_of tls u.canonical) && not (is_tcp u.canonical.protocol)

last_or-not_before :
    (p : Packet) (rest : List Packet)
    → IsSorted by_time (p ∷ rest)
    → p.timestamp ≤ (last_or p rest).timestamp
last_or-not_before p [] s = omega arith
last_or-not_before p (q ∷ rest) ((h, hs), s) = ground (arith, last_or-not_before q rest s)

module _ {F : Type 0} (fl : Floats F) (laws : FloatLaws fl) where
  open laws use {
    zero_nonneg, zero-le-one, elapsed_nonneg, quotient_nonneg, quotient-le-one, fmean_nonneg,
  }

  inter_arrivals_nonneg :
      (ps : List Packet)
      → IsSorted by_time ps
      → All (λ x. fl.less x fl.zero_f ≡ false) (inter_arrivals fl ps)
  inter_arrivals_nonneg [] s = tt
  inter_arrivals_nonneg (p ∷ []) s = tt
  inter_arrivals_nonneg (p ∷ q ∷ rest) ((h, hs), s) =
      (elapsed_nonneg q.timestamp p.timestamp (ground arith), inter_arrivals_nonneg (q ∷ rest) s)

  mean_nonneg :
      (xs : List F)
      → All (λ x. fl.less x fl.zero_f ≡ false) xs
      → fl.less (mean_of fl xs) fl.zero_f ≡ false
  mean_nonneg [] h = zero_nonneg
  mean_nonneg (x ∷ xs) h = fmean_nonneg (x ∷ xs) h

  ratio_valid :
      (fb bc : ℕ)
      → fb ≤ bc
      → let r = (if ltb 0 bc then fl.quotient fb bc else fl.zero_f) in
        (fl.less r fl.zero_f ≡ false) × (fl.less fl.one_f r ≡ false)
  ratio_valid fb bc h = elim (Bool-cases (ltb 0 bc)) [
    | inl e ↦ rw e (quotient_nonneg fb bc, quotient-le-one fb bc h (ltb→lt 0 bc e))
    | inr e ↦ rw e (zero_nonneg, zero-le-one)
  ]

  features_valid-compute :
      (p : Packet) (rest : List Packet) (fb dd pd : ℕ) (per : Bool)
      → IsSorted by_time (p ∷ rest)
      → fb ≤ sum_of size_of (p ∷ rest)
      → features_valid fl (compute_features fl p rest fb dd pd per) ≡ true
  unfolding features_valid compute_features
  features_valid-compute p rest fb dd pd per s h =
      let ratio = ratio_valid fb (sum_of size_of (p ∷ rest)) h in
      rw (
        elapsed_nonneg (last_or p rest).timestamp p.timestamp (last_or-not_before p rest s),
        mean_nonneg (inter_arrivals fl (p ∷ rest)) (inter_arrivals_nonneg (p ∷ rest) s),
        ratio.0,
        ratio.1,
      )

  module _ (capture_id : Text) (tls : TlsVersions) (t : Tally) where
    features-flow_fields :
        (index : ℕ) (u : FlowUnit)
        → IsUnit u
        → features_valid fl (flow_fields fl capture_id tls t index u).features ≡ true
    unfolding flow_fields
    features-flow_fields index u facts =
        let part = (rw facts.begins at facts.forward_part) in
        rw facts.begins
          (features_valid-compute u.canonical facts.rest u.forward_bytes _ _ _ facts.sorted part)

    order-flow_fields :
        (index : ℕ) (u : FlowUnit)
        → IsUnit u
        → last_not_before_first fl (flow_fields fl capture_id tls t index u) ≡ true
    unfolding flow_fields last_not_before_first
    order-flow_fields index u facts = rw facts.begins (
        le→leb u.canonical.timestamp (last_or u.canonical facts.rest).timestamp
          (last_or-not_before u.canonical facts.rest facts.sorted))

    state-flow_fields :
        (index : ℕ) (u : FlowUnit)
        → IsUnit u
        → tcp_state_only_for_tcp fl (flow_fields fl capture_id tls t index u) ≡ true
    unfolding flow_fields tcp_state_only_for_tcp
    state-flow_fields index u facts = ground (arith, facts.state_for_tcp)

    tls-flow_fields :
        (index : ℕ) (u : FlowUnit)
        → tls_version_only_for_tcp fl (flow_fields fl capture_id tls t index u)
          ≡ not (tls_conflict tls u)
    unfolding flow_fields tls_version_only_for_tcp tls_conflict
    tls-flow_fields index u = ground arith

    -- one flow: it is built unless the unit has a conflict
    build_flow-eq :
        (index : ℕ) (u : FlowUnit)
        → IsUnit u
        → build_flow fl (flow_fields fl capture_id tls t index u) ≡ (
            if tls_conflict tls u
            then raise validation_error
            else ok (flow_fields fl capture_id tls t index u))
    unfolding build_flow
    build_flow-eq index u facts = ground (
      arith,
      features-flow_fields index u facts,
      order-flow_fields index u facts,
      state-flow_fields index u facts,
      tls-flow_fields index u,
    )

    build_from-eq :
        (index : ℕ) (us : List FlowUnit)
        → All IsUnit us
        → build_from fl capture_id tls t index us ≡ (
            if any (tls_conflict tls) us
            then raise validation_error
            else ok (map_index (flow_fields fl capture_id tls t) index us))
    unfolding build_from
    build_from-eq index [] h = refl
    build_from-eq index (u ∷ us) (h, hs) =
        ground (arith, build_flow-eq index u h, build_from-eq (suc index) us hs)

-- From the units that `derive_units` gives, `assemble_flows` raises ValidationError exactly if some
-- unit that is not TCP has an endpoint with a known TLS version. Otherwise it returns one flow for
-- each unit, in order of the first packets, with the fields of `flow_fields`.
pub assemble_flows_lem :
    {F : Type 0} (fl : Floats F)
    → FloatLaws fl
    → (capture_id : Text) (units : List FlowUnit) (tls : TlsVersions) → All IsUnit units
    → assemble_flows fl capture_id units tls ≡ (
        if any (tls_conflict tls) units
        then raise validation_error
        else (let ordered = sort_by by_first units in
            ok (map_index (flow_fields fl capture_id tls (tally_from no_tally ordered)) 0 ordered)))
unfolding assemble_flows
assemble_flows_lem fl laws capture_id units tls h =
    let ordered = sort_by by_first units in
    build_from-eq fl laws capture_id tls (tally_from no_tally ordered) 0 ordered
      (sort_by-All by_first IsUnit units h)
    ∙ rw (any-sort_by by_first (tls_conflict tls) units)

-- the units of a capture
abbrev pub capture_units : ℕ → List Packet → List FlowUnit
capture_units idle packets = all_units idle (values (group_packets [] packets))

pub derive_all-capture :
    (idle : ℕ) (packets : List Packet)
    → derive_all idle (values (group_packets [] packets)) ≡ ok (capture_units idle packets)
derive_all-capture idle packets =
    derive_all-eq-ok idle (values (group_packets [] packets))
      (group_packets-IsNonempty [] packets tt)

-- Whatever the packets are, `reconstruct_flows` raises ValidationError if some unit that is not TCP
-- has an endpoint with a known TLS version.
pub reconstruct_flows-raises :
    {F : Type 0} (fl : Floats F)
    → FloatLaws fl
    → (capture_id : Text) (idle : ℕ) (tls : TlsVersions) (packets : List Packet)
    → any (tls_conflict tls) (capture_units idle packets) ≡ true
    → reconstruct_flows fl capture_id idle tls packets ≡ raise validation_error
unfolding reconstruct_flows
reconstruct_flows-raises fl laws capture_id idle tls packets h = rw (
  derive_all-capture idle packets,
  assemble_flows_lem fl laws capture_id (capture_units idle packets) tls
      (all_units-IsUnit idle (values (group_packets [] packets))),
  h,
)
