-- ===== src/FlowExport/Records.antt =====
-- backend/nettrace/flowexport/records.py
pub mod Totals
use netscope_x.Prelude.{
  ℕ, zero, suc, ◌+◌, ◌-◌, ◌/◌, ◌%◌, max, Bool, true, false, Option, none, some, List, [], ◌∷◌, ◌++◌,
  Text, text, decimal, if◌then◌else◌, ◌==◌, nat_ord, sort_by, map_index, sum_of, concat_map,
}
use netscope_x.Models.Packet.{Packet, TransportProtocol, tcp, udp, icmp, other, unknown}

pub record FlowRecord (F : Type 0) : Type 0 where
  pub src_ip : Text
  pub dst_ip : Text
  pub src_port : ℕ
  pub dst_port : ℕ
  pub protocol : ℕ
  pub packets : ℕ
  pub octets : ℕ
  pub start : F
  pub end : F
  pub tcp_flags : ℕ

-- What the package does with times, which are floats: a parameter. The times are finite: the rounding of
-- a NaN, which raises ValueError, is not modelled.
pub record Times (F : Type 0) : Type 0 where
  -- `int(round(t * 1000))`, which is none where that is negative, and `v / 1000.0`
  pub to_ms : F → Option ℕ
  pub of_ms : ℕ → Option F
  -- `int(t)`, which is none where that is negative
  pub to_seconds : F → Option ℕ
  -- `max(a, b)`, `t + 1.0` and `a <= b`
  pub latest : F → F → F
  pub plus_one : F → F
  pub not_later : F → F → Bool
  -- `start + (end - start) * i / m`
  pub between : F → F → ℕ → ℕ → F
  -- `datetime.fromtimestamp(t)`, for a time that has one
  pub instant : F → ℕ

-- `_PROTO.get(protocol, OTHER)`
abbrev pub transport_of : ℕ → TransportProtocol
transport_of p =
    if p == 6
    then tcp
    else if p == 17
    then udp
    else if p == 1
    then icmp
    else if p == 58
    then icmp
    else other

abbrev pub has_ports : TransportProtocol → Bool
has_ports tcp = true
has_ports udp = true
has_ports _ = false

-- an element of `staged`; the fields that depend only on the record are read off it later
pub record Staged (F : Type 0) : Type 0 where
  pub time : F
  pub rec : FlowRecord F
  pub size : ℕ

module _ {F : Type 0} (times : Times F) where
  -- `n`
  abbrev pub packets_of : FlowRecord F → ℕ
  packets_of rec = max rec.packets 1

  unfoldable pub stage_one : FlowRecord F → ℕ → Staged F
  stage_one rec i =
      let n = packets_of rec in
      record {
        time = if n == 1 then rec.start else times.between rec.start rec.end i (n - 1);
        rec = rec;
        size = if i == n - 1 then rec.octets / n + rec.octets % n else rec.octets / n;
      }

  -- the loop over `range(n)`, of which `left` rounds are left
  unfoldable pub stage_from : FlowRecord F → ℕ → ℕ → List (Staged F)
  unfolding stage_one
  stage_from rec i zero = []
  stage_from rec i (suc left) = stage_one rec i ∷ stage_from rec (suc i) left

  abbrev pub stage : FlowRecord F → List (Staged F)
  stage rec = stage_from rec 0 (packets_of rec)

  abbrev pub by_time : Staged F → Staged F → Bool
  by_time a b = times.not_later a.time b.time

  abbrev pub if_ports : FlowRecord F → ℕ → Option ℕ
  if_ports rec port = if has_ports (transport_of rec.protocol) then some port else none

  unfoldable pub packet_from : Text → ℕ → Staged F → Packet
  packet_from capture_id index s = record {
    packet_id = capture_id ++ text ":" ++ decimal index;
    capture_id = capture_id;
    timestamp = times.instant s.time;
    src_ip = s.rec.src_ip;
    dst_ip = s.rec.dst_ip;
    src_port = if_ports s.rec s.rec.src_port;
    dst_port = if_ports s.rec s.rec.dst_port;
    protocol = transport_of s.rec.protocol;
    size_bytes = s.size;
    direction = unknown;
    tcp_flags = none;
  }

  unfoldable pub records_to_packets : List (FlowRecord F) → Text → List Packet
  unfolding stage_from packet_from
  records_to_packets records capture_id =
      map_index (packet_from capture_id) 0 (sort_by by_time (concat_map stage records))

-- `total_packets`
abbrev pub total_packets : {F : Type 0} → List (FlowRecord F) → ℕ
total_packets records = sum_of (λ r. r.packets) records
