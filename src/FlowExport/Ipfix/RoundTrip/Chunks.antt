-- ===== src/FlowExport/Ipfix/RoundTrip/Chunks.antt =====
-- The messages of backend/nettrace/flowexport/ipfix.py, one after another.
use netscope_x.Prelude.{
  ℕ, ◌+◌, ◌*◌, ◌^◌, ◌≤◌, ◌<◌, Bool, true, false, List, [], ◌++◌, map, length, length-append, All,
  keep_if, length-keep_if, nat_ord, pair_ord, ok, ◌≡◌, refl, arith, if◌then◌else◌,
}
use mathlib.Core.List.{append_assoc, append-nil, map-append}
use netscope_x.FlowExport.Bytes.{Bytes}
use netscope_x.FlowExport.Records.{FlowRecord, Times}
use netscope_x.FlowExport.Ipfix.Fields.{Addresses}
use netscope_x.FlowExport.Ipfix.Encode.{template_set, message_sets}
use netscope_x.FlowExport.Ipfix.Decode.{Templates}
use netscope_x.FlowExport.Ipfix.RoundTrip.Cells.{in_ms}
use netscope_x.FlowExport.Ipfix.RoundTrip.Sets.{set_bytes, length-set_bytes, Reads, Reads-nil}
use netscope_x.FlowExport.Ipfix.RoundTrip.Parts.{
  templates_body, length-templates_body, template_set-bytes, IsKnown, known, Reads-templates,
  group_bytes, data_set-bytes, length-group_bytes, Reads-group,
}
use netscope_x.FlowExport.Ipfix.RoundTrip.Versions.{
  IsExportable, has_version, with_version-keep_if, kept4, kept6, by_version,
}
use netscope_x.FlowExport.Ipfix.RoundTrip.Messages.{v4_is, v6_is}

abbrev first_bytes : Bool → Bytes
first_bytes true = set_bytes 2 templates_body
first_bytes false = []

length-first_bytes : (first : Bool) → length (first_bytes first) ≤ 92
length-first_bytes true = omega (arith, length-set_bytes 2 templates_body, length-templates_body)
length-first_bytes false = omega arith

-- the templates that the decoder has after a message
abbrev pub then_known : ℕ → Bool → Templates → Templates
then_known domain first ts = if first then known domain ts else ts

module _ {F : Type 0} (ips : Addresses) (times : Times F) (domain : ℕ) where
  abbrev Export : Type 0
  Export = List (FlowRecord F)

  Reads-end :
      (ts ts' : Templates) (b : Bytes) (rs : Export)
      → Reads ips times domain ts (b ++ []) ts' (rs ++ [])
      → Reads ips times domain ts b ts' rs
  Reads-end ts ts' b rs h = rw (← append-nil b) (rw (← append-nil rs) h)

  -- what stands behind the templates
  Reads-first :
      (first : Bool) (ts ts' : Templates) (b : Bytes) (rs : Export)
      → Reads ips times domain (then_known domain first ts) b ts' rs
      → Reads ips times domain ts (first_bytes first ++ b) ts' rs
  Reads-first true ts ts' b rs h = Reads-templates ips times domain ts ts' b rs h
  Reads-first false ts ts' b rs h = h

  module _ (chunk : List (FlowRecord F)) (h : All (IsExportable ips times) chunk)
      (short : length chunk ≤ 500) where
    abbrev v4s : Export
    v4s = keep_if (has_version ips times 4) chunk

    abbrev v6s : Export
    v6s = keep_if (has_version ips times 6) chunk

    abbrev set4 : Bytes
    set4 = group_bytes ips times domain 256 8 12 4 v4_is v4s (kept4 ips times chunk h)

    abbrev set6 : Bytes
    set6 = group_bytes ips times domain 257 27 28 16 v6_is v6s (kept6 ips times chunk h)

    pub sets_of : Bool → Bytes
    sets_of first = first_bytes first ++ set4 ++ set6

    small4 : 4 + 47 * length v4s < 256 ^ 2
    small4 = omega (arith, length-keep_if (has_version ips times 4) chunk, short)

    small6 : 4 + 71 * length v6s < 256 ^ 2
    small6 = omega (arith, length-keep_if (has_version ips times 6) chunk, short)

    pub length-sets_of : (first : Bool) → 16 + length (sets_of first) < 256 ^ 2
    unfolding sets_of
    length-sets_of first = omega (
      arith,
      length-append (first_bytes first ++ set4) set6,
      length-append (first_bytes first) set4,
      length-first_bytes first,
      short,
      length-group_bytes ips times domain 256 8 12 4 v4_is v4s (kept4 ips times chunk h),
      length-group_bytes ips times domain 257 27 28 16 v6_is v6s (kept6 ips times chunk h),
      length-keep_if (has_version ips times 4) chunk,
      length-keep_if (has_version ips times 6) chunk,
    )

    pub message_sets-bytes :
        (first : Bool) → message_sets ips times first chunk ≡ ok (sets_of first)
    unfolding message_sets sets_of
    message_sets-bytes first =
        let e4 = with_version-keep_if ips times 4 chunk h in
        let e6 = with_version-keep_if ips times 6 chunk h in
        let d4 =
          data_set-bytes ips times domain 256 8 12 4 v4_is v4s (kept4 ips times chunk h)
            (omega arith) small4 in
        let d6 =
          data_set-bytes ips times domain 257 27 28 16 v6_is v6s (kept6 ips times chunk h)
            (omega arith) small6 in
        rw (templates first) (rw e4 (rw d4 (rw e6 (rw d6 refl))))
      where
        templates :
            (first : Bool) → (if first then template_set else ok []) ≡ ok (first_bytes first)
        templates true = template_set-bytes
        templates false = refl

    pub Reads-sets_of :
        (first : Bool) (ts : Templates)
        → IsKnown domain (then_known domain first ts)
        → Reads ips times domain ts
            (sets_of first)
            (then_known domain first ts)
            (map (in_ms times) (by_version ips times chunk))
    unfolding sets_of
    Reads-sets_of first ts (k4, k6) = rw (map-append (in_ms times) v4s v6s) (
        rw (append_assoc (first_bytes first) set4 set6) (
          Reads-first first ts ts' (set4 ++ set6) _ (
            Reads-group ips times domain 256 8 12 4 v4_is v4s (map (in_ms times) v6s)
              (kept4 ips times chunk h) ts' ts' set6 (omega arith) (omega arith) small4 k4 read6)))
      where
        ts' : Templates
        ts' = then_known domain first ts

        read6 : Reads ips times domain ts' set6 ts' (map (in_ms times) v6s)
        read6 = Reads-end ts' ts' set6 (map (in_ms times) v6s) (
            Reads-group ips times domain 257 27 28 16 v6_is v6s [] (kept6 ips times chunk h) ts' ts'
              [] (omega arith) (omega arith) small6 k6 (Reads-nil ips times domain ts'))
