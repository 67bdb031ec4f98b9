-- ===== src/Nettrace/Topology/Discovery/Nodes.antt =====
-- What `discover_nodes` finds: one node for each address, with the first and the last sighting.
use netscope_x.Prelude.{
  ℕ, suc, ◌+◌, ◌≤◌, Option, none, some, Text, List, [], ◌∷◌, ◌≡◌, refl, sym, ap, ◌∙◌, arith, false,
  ltb, if◌then◌else◌, ◌==◌, ==_iff, ==_self, ==_comm, nat_ord, list_ord, Dict, lookup, insert, keys,
  contains, contains-keys-insert, lookup-insert, lookup-eq-none, ok, Bool-cases, All, All-imp,
  sum_of, sum_of-sort_by, sort_by, sort_by-All, inl, inr, min, max, ◌++◌, text, decimal, le→leb,
}
use netscope_x.Models.Packet.{Packet}
use netscope_x.Models.Flow.{is_some}
use netscope_x.Models.Topology.{Node, build_node}
use netscope_x.Nettrace.Topology.Discovery.{
  Observed, Sighting, sightings, see, see_all, unseen, build_nodes, nodes_from_observations,
  discover_nodes, by_observation, up_to, is_missing_or,
}

abbrev pub join : (ℕ → ℕ → ℕ) → Option ℕ → Option ℕ → Option ℕ
join f none b = b
join f (some a) none = some a
join f (some a) (some b) = some (f a b)

-- the time of the earliest and of the latest sighting of an address
abbrev pub earliest : Text → List Sighting → Option ℕ
earliest ip [] = none
earliest ip ((j, t) ∷ ss) = if j == ip then join min (some t) (earliest ip ss) else earliest ip ss

abbrev pub latest : Text → List Sighting → Option ℕ
latest ip [] = none
latest ip ((j, t) ∷ ss) = if j == ip then join max (some t) (latest ip ss) else latest ip ss

first-see :
    (o : Observed) (ip j : Text) (t : ℕ)
    → lookup ip (see o (j, t)).first
      ≡ (if j == ip then join min (lookup ip o.first) (some t) else lookup ip o.first)
unfolding see
first-see o ip j t = ground (arith, lookup-insert j ip t o.first, ==_iff j ip)

last-see :
    (o : Observed) (ip j : Text) (t : ℕ)
    → lookup ip (see o (j, t)).last
      ≡ (if j == ip then join max (lookup ip o.last) (some t) else lookup ip o.last)
unfolding see
last-see o ip j t = ground (arith, lookup-insert j ip t o.last, ==_iff j ip)

first-see_all :
    (o : Observed) (ip : Text) (ss : List Sighting)
    → lookup ip (see_all o ss).first ≡ join min (lookup ip o.first) (earliest ip ss)
unfolding see_all
first-see_all o ip [] = ground arith
first-see_all o ip ((j, t) ∷ ss) =
    first-see_all (see o (j, t)) ip ss ∙ ground (arith, first-see o ip j t)

last-see_all :
    (o : Observed) (ip : Text) (ss : List Sighting)
    → lookup ip (see_all o ss).last ≡ join max (lookup ip o.last) (latest ip ss)
unfolding see_all
last-see_all o ip [] = ground arith
last-see_all o ip ((j, t) ∷ ss) =
    last-see_all (see o (j, t)) ip ss ∙ ground (arith, last-see o ip j t)

-- both times or none, in order
abbrev AreOrdered : Option ℕ → Option ℕ → Type 0
AreOrdered none none = Unit
AreOrdered (some f) (some l) = f ≤ l
AreOrdered _ _ = ⊥

join-AreOrdered :
    (t : ℕ) (a b : Option ℕ)
    → AreOrdered a b
    → AreOrdered (join min (some t) a) (join max (some t) b)
join-AreOrdered t none none h = omega arith
join-AreOrdered t none (some l) h = absurd h
join-AreOrdered t (some f) none h = absurd h
join-AreOrdered t (some f) (some l) h = omega arith

earliest-AreOrdered : (ip : Text) (ss : List Sighting) → AreOrdered (earliest ip ss) (latest ip ss)
earliest-AreOrdered ip [] = tt
earliest-AreOrdered ip ((j, t) ∷ ss) = elim (Bool-cases (j == ip)) [
  | inl e ↦ rw e (join-AreOrdered t (earliest ip ss) (latest ip ss) (earliest-AreOrdered ip ss))
  | inr e ↦ rw e (earliest-AreOrdered ip ss)
]

-- the dictionary of first times has each address once
abbrev AreDistinct : Dict Text ℕ → Type 0
AreDistinct [] = Unit
AreDistinct ((k, t) ∷ d) = (contains (keys d) k ≡ false) × AreDistinct d

insert-AreDistinct :
    (k : Text) (t : ℕ) (d : Dict Text ℕ) → AreDistinct d → AreDistinct (insert k t d)
unfolding insert
insert-AreDistinct k t [] h = (refl, tt)
insert-AreDistinct k t ((j, u) ∷ d) (h, hs) = elim (Bool-cases (j == k)) [
  | inl e ↦ rw e (h, hs)
  | inr e ↦
      rw e (ground (arith, contains-keys-insert k j t d, ==_comm k j), insert-AreDistinct k t d hs)
]

see-AreDistinct : (o : Observed) (s : Sighting) → AreDistinct o.first → AreDistinct (see o s).first
unfolding see
see-AreDistinct o (j, t) h = elim (Bool-cases (is_missing_or (λ f. ltb t f) (lookup j o.first))) [
  | inl e ↦ rw e (insert-AreDistinct j t o.first h)
  | inr e ↦ rw e h
]

see_all-AreDistinct :
    (o : Observed) (ss : List Sighting) → AreDistinct o.first → AreDistinct (see_all o ss).first
unfolding see_all
see_all-AreDistinct o [] h = h
see_all-AreDistinct o (s ∷ ss) h = see_all-AreDistinct (see o s) ss (see-AreDistinct o s h)

-- each item of a dictionary is what a lookup finds
All-items : (d : Dict Text ℕ) → AreDistinct d → All (λ e. lookup e.0 d ≡ some e.1) d
All-items d h = go d h d (λ k t e. e)
  where
    go :
        (c : Dict Text ℕ)
        → AreDistinct c
        → (d : Dict Text ℕ) → ((k : Text) (t : ℕ) → lookup k c ≡ some t → lookup k d ≡ some t)
        → All (λ e. lookup e.0 d ≡ some e.1) c
    go [] h d f = tt
    go ((k, t) ∷ c) (h, hs) d f = (
      f k t (unfold lookup in rw (==_self k)),
      go c hs d (λ j u e. f j u (
          let other : (k == j) ≡ false = ground (arith, ==_iff k j, lookup-eq-none k c) in
          unfold lookup in rw other e)),
    )

module _ (capture_id : Text) (ss : List Sighting) where
  -- the facts about one node
  abbrev pub IsSighted : Node → Type 0
  IsSighted n =
      (ip : Text) × (n.ip_addresses ≡ ip ∷ [])
      × (earliest ip ss ≡ some n.first_observed)
      × (latest ip ss ≡ some n.last_observed)

  -- how many nodes have an address
  abbrev pub nodes_at : Text → List Node → ℕ
  nodes_at ip nodes = sum_of (λ n. if contains n.ip_addresses ip then 1 else 0) nodes

  abbrev items_at : Text → Dict Text ℕ → ℕ
  items_at ip d = sum_of (λ e. if e.0 == ip then 1 else 0) d

  latest_of :
      (ip : Text) (f : ℕ) → earliest ip ss ≡ some f → (l : ℕ) × (latest ip ss ≡ some l) × (f ≤ l)
  latest_of ip f h = go (latest ip ss) refl
    where
      go : (b : Option ℕ) → latest ip ss ≡ b → (l : ℕ) × (latest ip ss ≡ some l) × (f ≤ l)
      go none e = absurd (rw (h, e) at (earliest-AreOrdered ip ss))
      go (some l) e = (l, e, rw (h, e) at (earliest-AreOrdered ip ss))

  build_nodes-eq-ok :
      (last : Dict Text ℕ) (index : ℕ) (items : List (Text × ℕ))
      → ((ip : Text) → lookup ip last ≡ latest ip ss)
      → All (λ e. earliest e.0 ss ≡ some e.1) items
      → (nodes : List Node) × (build_nodes capture_id last index items ≡ ok nodes)
        × All IsSighted nodes
        × ((ip : Text) → nodes_at ip nodes ≡ items_at ip items)
  unfolding build_nodes build_node
  build_nodes-eq-ok last index [] f h = ([], refl, tt, λ ip. refl)
  build_nodes-eq-ok last index ((ip, t) ∷ items) f (h, hs) =
      let (l, e, le) = latest_of ip t h in
      let (nodes, built, sighted, count) = build_nodes-eq-ok last (suc index) items f hs in
      let node : Node = record {
        node_id = capture_id ++ text ":node:" ++ decimal index;
        ip_addresses = ip ∷ [];
        first_observed = t;
        last_observed = l;
      } in
      (
        node ∷ nodes,
        rw (f ip, e, le→leb t l le, built),
        ((ip, refl, h, e), sighted),
        λ j. ground (arith, count j),
      )

items_at-AreDistinct :
    (ip : Text) (d : Dict Text ℕ)
    → AreDistinct d
    → sum_of (λ (e : Text × ℕ). if e.0 == ip then 1 else 0) d
      ≡ (if is_some (lookup ip d) then 1 else 0)
unfolding lookup
items_at-AreDistinct ip [] h = refl
items_at-AreDistinct ip ((k, t) ∷ d) (h, hs) = elim (Bool-cases (k == ip)) [
  | inl e ↦
      let same : k ≡ ip = (==_iff k ip).0 e in
      let none_behind : lookup ip d ≡ none = rw (← same) (lookup-eq-none k d h) in
      let rest = (rw none_behind at (items_at-AreDistinct ip d hs)) in rw e (ap (λ n. 1 + n) rest)
  | inr e ↦ rw e (omega (arith, items_at-AreDistinct ip d hs))
]

first-unseen :
    (ip : Text) (ss : List Sighting) → lookup ip (see_all unseen ss).first ≡ earliest ip ss
first-unseen ip ss = unfold lookup in first-see_all unseen ip ss

last-unseen : (ip : Text) (ss : List Sighting) → lookup ip (see_all unseen ss).last ≡ latest ip ss
last-unseen ip ss = unfold lookup in last-see_all unseen ip ss

first-items : (ss : List Sighting) → All (λ e. earliest e.0 ss ≡ some e.1) (see_all unseen ss).first
first-items ss =
    let d = (see_all unseen ss).first in
    All-imp (λ e. lookup e.0 d ≡ some e.1) (λ e. earliest e.0 ss ≡ some e.1) d
      (λ e h. sym (first-unseen e.0 ss) ∙ h) (All-items d (see_all-AreDistinct unseen ss tt))

-- `discover_nodes` does not raise. Each node has one address, and its times are those of the earliest
-- and the latest packet (up to `as_of`) that names the address as source or destination. An address
-- that some packet names has exactly one node, any other has none.
pub discover_nodes_lem :
    (capture_id : Text) (as_of : Option ℕ) (packets : List Packet)
    → let ss = sightings (up_to as_of packets) in
      (nodes : List Node) × (discover_nodes capture_id as_of (some packets) ≡ ok nodes)
      × All (IsSighted capture_id ss) nodes
      × ((ip : Text)
          → nodes_at capture_id ss ip nodes ≡ (if is_some (earliest ip ss) then 1 else 0))
unfolding discover_nodes nodes_from_observations
discover_nodes_lem capture_id as_of packets =
    let ss = sightings (up_to as_of packets) in
    let o = see_all unseen ss in
    let distinct = see_all-AreDistinct unseen ss tt in
    let (nodes, built, sighted, count) =
      build_nodes-eq-ok capture_id ss o.last 0 (sort_by by_observation o.first)
        (λ ip. last-unseen ip ss)
        (sort_by-All by_observation (λ e. earliest e.0 ss ≡ some e.1) o.first (first-items ss)) in
    (
      nodes,
      built,
      sighted,
      λ ip.
          count ip
          ∙ sum_of-sort_by by_observation (λ e. if e.0 == ip then 1 else 0) o.first
          ∙ items_at-AreDistinct ip o.first distinct
          ∙ rw (first-unseen ip ss),
    )
