-- ===== src/Nettrace/Reconstruct/Assemble.antt =====
-- `_compute_features`, `assemble_flows` and `reconstruct_flows` of backend/nettrace/reconstruct.py
use netscope_x.Prelude.{
  ℕ, suc, Option, none, some, Text, text, decimal, List, [], ◌∷◌, ◌++◌, Bool, true, false, ltb, leb,
  ◌&&◌, if◌then◌else◌, nat_ord, list_ord, option_ord, pair_ord, sort_by, Result, ok, key_error,
  or_raise, traverse, ◌>>=◌, sum_of, length, last_or, Dict, lookup, insert, append_at, add, values,
}
use netscope_x.Models.Floats.{Floats}
use netscope_x.Models.Packet.{Packet, PacketDirection, TransportProtocol, tcp, udp, protocol_ord}
use netscope_x.Models.Flow.{Flow, FlowFeatures, build_flow}
use netscope_x.Nettrace.Reconstruct.Keys.{FlowKey, flow_key}
use netscope_x.Nettrace.Reconstruct.Units.{FlowUnit, derive_units}

-- a dictionary of (address, port) to TLS version; a flow's port may be missing
abbrev pub TlsVersions : Type 0
TlsVersions = Dict (Text × Option ℕ) Text

module _ {F : Type 0} (fl : Floats F) where
  -- `(group[i].timestamp - group[i - 1].timestamp).total_seconds()` for each i
  abbrev pub inter_arrivals : List Packet → List F
  inter_arrivals [] = []
  inter_arrivals (p ∷ []) = []
  inter_arrivals (p ∷ q ∷ rest) = fl.elapsed q.timestamp p.timestamp ∷ inter_arrivals (q ∷ rest)

  abbrev pub mean_of : List F → F
  mean_of [] = fl.zero_f
  mean_of (x ∷ xs) = fl.fmean (x ∷ xs)

  -- of a group that is not empty, given by its first packet
  unfoldable pub compute_features : Packet → List Packet → ℕ → ℕ → ℕ → Bool → FlowFeatures F
  compute_features first rest forward_bytes destination_diversity port_diversity is_persistent =
      let group = first ∷ rest in
      let byte_count = sum_of (λ (p : Packet). p.size_bytes) group in
      let gaps = inter_arrivals group in
      let mean = mean_of gaps in
      record {
        packet_count = length group;
        byte_count = byte_count;
        duration_seconds = fl.elapsed (last_or first rest).timestamp first.timestamp;
        burstiness =
            if leb 2 (length gaps) && fl.less fl.zero_f mean
            then fl.divide (fl.pstdev gaps) mean
            else fl.zero_f;
        mean_inter_arrival_seconds = mean;
        forward_byte_ratio =
            if ltb 0 byte_count then fl.quotient forward_bytes byte_count else fl.zero_f;
        destination_diversity = destination_diversity;
        port_diversity = port_diversity;
        is_persistent = is_persistent;
      }

-- the aggregates over all units: `key_counts`, `dest_by_src` and `port_by_src`
pub record Tally : Type 0 where
  pub key_counts : Dict FlowKey ℕ
  pub dest_by_src : Dict Text (List Text)
  pub port_by_src : Dict Text (List (Option ℕ))

abbrev pub or_empty {ℓ} : {A : Type ℓ} → Option (List A) → List A
or_empty none = []
or_empty (some xs) = xs

abbrev pub or_none : Option ℕ → ℕ
or_none none = 0
or_none (some n) = n

-- the body of the loop over the units
unfoldable pub count_unit : Tally → FlowUnit → Tally
count_unit t u = record {
  key_counts = insert u.key (suc (or_none (lookup u.key t.key_counts))) t.key_counts;
  dest_by_src =
      insert u.src_ip_str (add (or_empty (lookup u.src_ip_str t.dest_by_src)) u.canonical.dst_ip)
        t.dest_by_src;
  port_by_src =
      insert u.src_ip_str (add (or_empty (lookup u.src_ip_str t.port_by_src)) u.canonical.dst_port)
        t.port_by_src;
}

unfoldable pub tally_from : Tally → List FlowUnit → Tally
unfolding count_unit
tally_from t [] = t
tally_from t (u ∷ us) = tally_from (count_unit t u) us

abbrev pub no_tally : Tally
no_tally = record { key_counts = []; dest_by_src = []; port_by_src = [] }

-- `a or b` of two optional texts: the empty text counts as missing
abbrev pub or_else : Option Text → Option Text → Option Text
or_else none b = b
or_else (some []) b = b
or_else (some (c ∷ s)) b = some (c ∷ s)

unfoldable pub tls_version_of : TlsVersions → Packet → Option Text
tls_version_of tls p =
    or_else (lookup (p.src_ip, p.src_port) tls) (lookup (p.dst_ip, p.dst_port) tls)

-- `key=lambda u: u.group[0].timestamp`: the canonical packet is the first of its unit
abbrev pub by_first : FlowUnit → FlowUnit → Bool
by_first u v = leb u.canonical.timestamp v.canonical.timestamp

abbrev pub after_first : List Packet → List Packet
after_first [] = []
after_first (p ∷ rest) = rest

module _ {F : Type 0} (fl : Floats F) (capture_id : Text) where
  -- the arguments of the `Flow(...)` of one unit; `u.packets` begins with `u.canonical`
  unfoldable pub flow_fields : TlsVersions → Tally → ℕ → FlowUnit → Flow F
  flow_fields tls t index u = record {
    flow_id = capture_id ++ text ":flow:" ++ decimal index;
    capture_id = capture_id;
    src_ip = u.canonical.src_ip;
    dst_ip = u.canonical.dst_ip;
    src_port = u.canonical.src_port;
    dst_port = u.canonical.dst_port;
    protocol = u.canonical.protocol;
    first_seen = u.canonical.timestamp;
    last_seen = (last_or u.canonical u.packets).timestamp;
    tcp_state = u.tcp_state;
    fingerprinted_protocol = u.fingerprinted_protocol;
    tls_version = tls_version_of tls u.canonical;
    features =
        compute_features fl u.canonical (after_first u.packets) u.forward_bytes
          (length (or_empty (lookup u.src_ip_str t.dest_by_src)))
          (length (or_empty (lookup u.src_ip_str t.port_by_src)))
          (ltb 1 (or_none (lookup u.key t.key_counts)));
  }

  unfoldable pub build_from : TlsVersions → Tally → ℕ → List FlowUnit → Result (List (Flow F))
  unfolding flow_fields
  build_from tls t index [] = ok []
  build_from tls t index (u ∷ us) = do
    flow ← build_flow fl (flow_fields tls t index u)
    flows ← build_from tls t (suc index) us
    ok (flow ∷ flows)

  unfoldable pub assemble_flows : List FlowUnit → TlsVersions → Result (List (Flow F))
  unfolding build_from tally_from
  assemble_flows units tls =
      let ordered_units = sort_by by_first units in
      build_from tls (tally_from no_tally ordered_units) 0 ordered_units

abbrev pub is_flow_protocol : TransportProtocol → Bool
is_flow_protocol tcp = true
is_flow_protocol udp = true
is_flow_protocol _ = false

-- `groups` and `passthrough` after the loop over the packets
unfoldable pub group_packets : Dict FlowKey (List Packet) → List Packet → Dict FlowKey (List Packet)
group_packets groups [] = groups
group_packets groups (p ∷ rest) =
    group_packets (if is_flow_protocol p.protocol then append_at (flow_key p) p groups else groups)
      rest

abbrev pub passthrough : List Packet → List Packet
passthrough [] = []
passthrough (p ∷ rest) =
    let others = passthrough rest in if is_flow_protocol p.protocol then others else p ∷ others

-- `units.extend(derive_units(group, ...))` for each group
unfoldable pub derive_all : ℕ → List (List Packet) → Result (List FlowUnit)
derive_all idle [] = ok []
derive_all idle (g ∷ gs) = do us ← derive_units g idle; more ← derive_all idle gs; ok (us ++ more)

-- `resolved_by_id`: the packets of the units with their directions, and those that are in no flow
unfoldable pub resolve_directed :
    Dict Text Packet → List (Packet × PacketDirection) → Dict Text Packet
resolve_directed d [] = d
resolve_directed d ((p, dir) ∷ rest) =
    resolve_directed (insert p.packet_id (record p { direction = dir }) d) rest

unfoldable pub resolve_units : Dict Text Packet → List FlowUnit → Dict Text Packet
unfolding resolve_directed
resolve_units d [] = d
resolve_units d (u ∷ us) = resolve_units (resolve_directed d u.directed) us

unfoldable pub resolve_passthrough : Dict Text Packet → List Packet → Dict Text Packet
resolve_passthrough d [] = d
resolve_passthrough d (p ∷ rest) = resolve_passthrough (insert p.packet_id p d) rest

-- The flows that are written to flows.jsonl, and the packets that packets.jsonl is rewritten with.
-- `tls` is what `extract_tls_versions` found, or empty if there is no pcap. Nothing is written if
-- an exception is raised.
unfoldable pub reconstruct_flows :
    {F : Type 0}
    → Floats F
    → Text
    → ℕ
    → TlsVersions
    → List Packet
    → Result (List (Flow F) × List Packet)
unfolding assemble_flows group_packets derive_all resolve_units resolve_passthrough
reconstruct_flows fl capture_id idle tls packets = do
  units ← derive_all idle (values (group_packets [] packets))
  flows ← assemble_flows fl capture_id units tls
  let resolved_by_id = resolve_passthrough (resolve_units [] units) (passthrough packets)
  resolved ← traverse (λ p. or_raise key_error (lookup p.packet_id resolved_by_id)) packets
  ok (flows, resolved)
