-- ===== src/Nettrace/Reconstruct/UnitFacts.antt =====
-- What holds of every unit that `derive_units` gives.
use netscope_x.Prelude.{
  ℕ, ◌≤◌, none, List, [], ◌∷◌, ◌++◌, map, ◌≡◌, refl, arith, true, false, if◌then◌else◌, sort_by,
  IsSorted, sort_by-IsSorted, All, All-append, sum_of, inl, inr, ok, Dict, values, append_at,
  Bool-cases, ◌==◌, nat_ord, list_ord, pair_ord,
}
use netscope_x.Models.Packet.{Packet, PacketDirection, protocol_ord}
use netscope_x.Models.Flow.{is_tcp}
use netscope_x.Nettrace.Reconstruct.Keys.{FlowKey, flow_key}
use netscope_x.Nettrace.Reconstruct.Sessions.{by_time, split_udp_sessions}
use netscope_x.Nettrace.Reconstruct.Units.{
  FlowUnit, direction_of, forward_size, unit_of, add_unit, units_of, derive_units, is_udp,
}
use netscope_x.Nettrace.Reconstruct.Assemble.{derive_all, group_packets, is_flow_protocol}

abbrev pub size_of : Packet → ℕ
size_of p = p.size_bytes

pub record IsUnit (u : FlowUnit) : Type 0 where
  pub rest : List Packet
  pub begins : u.packets ≡ u.canonical ∷ rest
  pub sorted : IsSorted by_time (u.canonical ∷ rest)
  pub forward_part : u.forward_bytes ≤ sum_of size_of u.packets
  pub state_for_tcp : is_tcp u.canonical.protocol ≡ false → u.tcp_state ≡ none

by_time_total : (p q : Packet) → by_time p q ≡ false → by_time q p ≡ true
by_time_total p q h = ground arith

by_time_trans : (p q r : Packet) → by_time p q ≡ true → by_time q r ≡ true → by_time p r ≡ true
by_time_trans p q r h k = ground arith

pub sort_by_time : (ps : List Packet) → IsSorted by_time (sort_by by_time ps)
sort_by_time = sort_by-IsSorted by_time by_time_total by_time_trans

forward_part_le :
    (dir : Packet → PacketDirection) (ps : List Packet)
    → sum_of forward_size (map (λ p. (p, dir p)) ps) ≤ sum_of size_of ps
forward_part_le dir [] = omega arith
forward_part_le dir (p ∷ ps) = ground (arith, forward_part_le dir ps)

unit_of-IsUnit :
    (p : Packet) (rest : List Packet) → IsSorted by_time (p ∷ rest) → IsUnit (unit_of p (p ∷ rest))
unfolding unit_of
unit_of-IsUnit p rest s = record {
  rest = rest;
  begins = refl;
  sorted = s;
  forward_part = forward_part_le (direction_of p) (p ∷ rest);
  state_for_tcp = λ h. rw h;
}

add_unit-IsUnit :
    (s : List Packet) (us : List FlowUnit)
    → IsSorted by_time s
    → All IsUnit us
    → All IsUnit (add_unit s us)
add_unit-IsUnit [] us h k = unfold add_unit in k
add_unit-IsUnit (p ∷ rest) us h k = unfold add_unit in (unit_of-IsUnit p rest h, k)

units_of-IsUnit : (gs : List (List Packet)) → All IsUnit (units_of gs)
unfolding units_of
units_of-IsUnit [] = tt
units_of-IsUnit (g ∷ gs) =
    add_unit-IsUnit (sort_by by_time g) (units_of gs) (sort_by_time g) (units_of-IsUnit gs)

-- what `derive_units` returns for a group that is not empty
unfoldable pub session_units : ℕ → List Packet → List FlowUnit
session_units idle [] = []
session_units idle (p ∷ group) =
    units_of (if is_udp p.protocol then split_udp_sessions idle (p ∷ group) else (p ∷ group) ∷ [])

abbrev pub IsNonempty {ℓ} : {A : Type ℓ} → List A → Type 0
IsNonempty [] = ⊥
IsNonempty (x ∷ xs) = Unit

pub derive_units-eq-ok :
    (g : List Packet) (idle : ℕ) → IsNonempty g → derive_units g idle ≡ ok (session_units idle g)
derive_units-eq-ok [] idle h = absurd h
derive_units-eq-ok (p ∷ g) idle h = unfold derive_units session_units in refl

pub session_units-IsUnit : (idle : ℕ) (g : List Packet) → All IsUnit (session_units idle g)
session_units-IsUnit idle [] = unfold session_units in tt
session_units-IsUnit idle (p ∷ g) =
    let facts =
      units_of-IsUnit
        (if is_udp p.protocol then split_udp_sessions idle (p ∷ g) else (p ∷ g) ∷ []) in
    unfold session_units in facts

abbrev pub all_units : ℕ → List (List Packet) → List FlowUnit
all_units idle [] = []
all_units idle (g ∷ gs) = session_units idle g ++ all_units idle gs

pub derive_all-eq-ok :
    (idle : ℕ) (gs : List (List Packet))
    → All IsNonempty gs
    → derive_all idle gs ≡ ok (all_units idle gs)
unfolding derive_all
derive_all-eq-ok idle [] h = refl
derive_all-eq-ok idle (g ∷ gs) (h, hs) =
    rw (derive_units-eq-ok g idle h, derive_all-eq-ok idle gs hs)

pub all_units-IsUnit : (idle : ℕ) (gs : List (List Packet)) → All IsUnit (all_units idle gs)
all_units-IsUnit idle [] = tt
all_units-IsUnit idle (g ∷ gs) =
    All-append IsUnit (session_units idle g) (all_units idle gs) (session_units-IsUnit idle g)
      (all_units-IsUnit idle gs)

-- no group is empty
append-IsNonempty : (xs : List Packet) (p : Packet) → IsNonempty (xs ++ p ∷ [])
append-IsNonempty [] p = tt
append-IsNonempty (x ∷ xs) p = tt

append_at-IsNonempty :
    (k : FlowKey) (p : Packet) (d : Dict FlowKey (List Packet))
    → All IsNonempty (values d)
    → All IsNonempty (values (append_at k p d))
unfolding append_at
append_at-IsNonempty k p [] h = (tt, tt)
append_at-IsNonempty k p ((j, g) ∷ d) (h, hs) = elim (Bool-cases (j == k)) [
  | inl e ↦ rw e (append-IsNonempty g p, hs)
  | inr e ↦ rw e (h, append_at-IsNonempty k p d hs)
]

pub group_packets-IsNonempty :
    (d : Dict FlowKey (List Packet)) (ps : List Packet)
    → All IsNonempty (values d)
    → All IsNonempty (values (group_packets d ps))
unfolding group_packets
group_packets-IsNonempty d [] h = h
group_packets-IsNonempty d (p ∷ ps) h = elim (Bool-cases (is_flow_protocol p.protocol)) [
  | inl e ↦ rw e (
      group_packets-IsNonempty (append_at (flow_key p) p d) ps
        (append_at-IsNonempty (flow_key p) p d h))
  | inr e ↦ rw e (group_packets-IsNonempty d ps h)
]
