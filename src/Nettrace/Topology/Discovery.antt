-- ===== src/Nettrace/Topology/Discovery.antt =====
-- backend/nettrace/topology/discovery.py
pub mod Nodes
use netscope_x.Prelude.{
  ℕ, suc, ◌≤◌, Option, none, some, Text, text, decimal, List, [], ◌∷◌, ◌++◌, ◌≡◌, refl, arith, Bool,
  true, false, ltb, leb, ◌&&◌, ◌||◌, not, if◌then◌else◌, ◌==◌, ◌<=◌, nat_ord, list_ord, pair_ord,
  sort_by, map_index, Dict, lookup, insert, keys, keep_if, contains, Result, ok, raise, key_error,
  or_raise, traverse, ◌>>=◌,
}
use netscope_x.Models.Packet.{Packet}
use netscope_x.Models.Topology.{Node, build_node}

-- an address and the time of a packet that names it
abbrev pub Sighting : Type 0
Sighting = Text × ℕ

-- `for ip in (str(pkt.src_ip), str(pkt.dst_ip))`, for each packet
abbrev pub sightings : List Packet → List Sighting
sightings [] = []
sightings (p ∷ ps) = (p.src_ip, p.timestamp) ∷ (p.dst_ip, p.timestamp) ∷ sightings ps

abbrev pub is_missing_or : (ℕ → Bool) → Option ℕ → Bool
is_missing_or test none = true
is_missing_or test (some t) = test t

-- `first_observed` and `last_observed`
pub record Observed : Type 0 where
  pub first : Dict Text ℕ
  pub last : Dict Text ℕ

-- the body of the inner loop of `discover_nodes`
unfoldable pub see : Observed → Sighting → Observed
see o (ip, t) = record {
  first = if is_missing_or (λ f. ltb t f) (lookup ip o.first) then insert ip t o.first else o.first;
  last = if is_missing_or (λ l. ltb l t) (lookup ip o.last) then insert ip t o.last else o.last;
}

unfoldable pub see_all : Observed → List Sighting → Observed
unfolding see
see_all o [] = o
see_all o (s ∷ ss) = see_all (see o s) ss

abbrev pub unseen : Observed
unseen = record { first = []; last = [] }

abbrev pub time_of : Dict Text ℕ → Text → Result ℕ
time_of d ip = or_raise key_error (lookup ip d)

abbrev pub observation_le : ℕ × Text → ℕ × Text → Bool
observation_le x y = x <= y

-- `key=lambda ip: (first_observed[ip], ip)`; the addresses are keys of the dictionary
abbrev pub by_observation : Text × ℕ → Text × ℕ → Bool
by_observation (a, s) (b, t) = observation_le (s, a) (t, b)

unfoldable pub build_nodes : Text → Dict Text ℕ → ℕ → List (Text × ℕ) → Result (List Node)
build_nodes capture_id last index [] = ok []
build_nodes capture_id last index ((ip, first) ∷ rest) = do
  seen_last ← time_of last ip
  node ← build_node (record {
    node_id = capture_id ++ text ":node:" ++ decimal index;
    ip_addresses = ip ∷ [];
    first_observed = first;
    last_observed = seen_last;
  })
  more ← build_nodes capture_id last (suc index) rest
  ok (node ∷ more)

unfoldable pub nodes_from_observations : Text → Observed → Result (List Node)
unfolding build_nodes
nodes_from_observations capture_id o =
    build_nodes capture_id o.last 0 (sort_by by_observation o.first)

-- `packets = [p for p in packets if p.timestamp <= as_of]`
abbrev pub up_to : Option ℕ → List Packet → List Packet
up_to none ps = ps
up_to (some as_of) ps = keep_if (λ p. leb p.timestamp as_of) ps

-- `none` stands for a capture with no packets file
unfoldable pub discover_nodes : Text → Option ℕ → Option (List Packet) → Result (List Node)
unfolding see_all nodes_from_observations
discover_nodes capture_id as_of none = ok []
discover_nodes capture_id as_of (some packets) =
    nodes_from_observations capture_id (see_all unseen (sightings (up_to as_of packets)))
