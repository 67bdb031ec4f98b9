-- ===== src/FlowExport/Ipfix/RoundTrip/Parts.antt =====
-- The template set and the two data sets of one message of backend/nettrace/flowexport/ipfix.py.
use netscope_x.Prelude.{
  ℕ, ◌+◌, ◌*◌, ◌^◌, ◌≤◌, ◌<◌, true, false, some, List, [], ◌∷◌, ◌++◌, map, length, nat_ord,
  pair_ord, lookup, insert, lookup-insert, ==_self, ==_iff, ◌==◌, leb, ok, raise, ◌>>=◌, ◌≡◌, refl,
  ◌∙◌, arith,
}
use netscope_x.FlowExport.Bytes.{Bytes, digits, to_bytes, from_bytes}
use netscope_x.FlowExport.Records.{FlowRecord, Times}
use netscope_x.FlowExport.Ipfix.Fields.{Addresses, Field, v4_fields, v6_fields}
use netscope_x.FlowExport.Ipfix.Encode.{pack, pack_set, template_body, template_set, data_set}
use netscope_x.FlowExport.Ipfix.Decode.{
  Templates, parse_field, parse_fields, parse_templates, parse_set,
}
use netscope_x.FlowExport.Ipfix.RoundTrip.Cells.{as_fields, in_ms, IsTemplate, fields_of}
use netscope_x.FlowExport.Ipfix.RoundTrip.Groups.{
  Carried, bodies, length-bodies, traverse-bodies, parse_data-bodies,
}
use netscope_x.FlowExport.Ipfix.RoundTrip.Sets.{
  set_bytes, length-set_bytes, pack_set-bytes, Reads, Reads-set,
}

unfoldable pub templates_body : Bytes
unfolding template_body
templates_body =
    elim (do v4 ← template_body 256 v4_fields; v6 ← template_body 257 v6_fields; ok (v4 ++ v6)) [
      | ok b ↦ b
      | raise e ↦ []
    ]

pub length-templates_body : length templates_body ≡ 88
unfolding templates_body template_body pack to_bytes digits
length-templates_body = refl

pub template_set-bytes : template_set ≡ ok (set_bytes 2 templates_body)
unfolding template_set template_body pack_set pack to_bytes digits set_bytes templates_body
template_set-bytes = refl

module _ (domain : ℕ) where
  abbrev pub IsKnown : Templates → Type 0
  IsKnown ts =
      (lookup (domain, 256) ts ≡ some (as_fields v4_fields))
      × (lookup (domain, 257) ts ≡ some (as_fields v6_fields))

  abbrev pub known : Templates → Templates
  known ts =
      insert (domain, 257) (as_fields v6_fields) (insert (domain, 256) (as_fields v4_fields) ts)

  pub known-IsKnown : (ts : Templates) → IsKnown (known ts)
  known-IsKnown ts = (
    lookup-insert (domain, 257) (domain, 256) v6 d
        ∙ rw differ
            (lookup-insert (domain, 256) (domain, 256) v4 ts ∙ rw (self (domain, 256)) refl),
    lookup-insert (domain, 257) (domain, 257) v6 d ∙ rw (self (domain, 257)) refl,
  )
    where
      v4 : List Field
      v4 = as_fields v4_fields

      v6 : List Field
      v6 = as_fields v6_fields

      d : Templates
      d = insert (domain, 256) v4 ts

      self : (key : ℕ × ℕ) → (key == key) ≡ true
      self = ==_self

      differ : ◌==◌ {A = ℕ × ℕ} (domain, 257) (domain, 256) ≡ false
      differ = ground (arith, ==_iff {A = ℕ × ℕ} (domain, 257) (domain, 256))

module _ {F : Type 0} (ips : Addresses) (times : Times F) (domain : ℕ) where
  -- one group of records and its template
  module _ (tid ie ie' n : ℕ) (is : IsTemplate ie ie') where
    abbrev pub group_bytes : (rs : List (FlowRecord F)) → Carried ips times ie ie' n is rs → Bytes
    group_bytes [] h = []
    group_bytes (r ∷ rs) h = set_bytes tid (bodies ips times ie ie' n is (r ∷ rs) h)

    abbrev pub Small : List (FlowRecord F) → Type 0
    Small rs = 4 + (n + n + 39) * length rs < 256 ^ 2

    pub data_set-bytes :
        (rs : List (FlowRecord F)) (h : Carried ips times ie ie' n is rs)
        → tid < 256 ^ 2
        → Small rs
        → data_set ips times tid (fields_of ie ie' n) rs ≡ ok (group_bytes rs h)
    unfolding data_set
    data_set-bytes [] h k l = refl
    data_set-bytes (r ∷ rs) h k l =
        let (bs, e, f) = traverse-bodies ips times ie ie' n is (r ∷ rs) h in
        let size = length-bodies ips times ie ie' n is (r ∷ rs) h in
        rw e (rw f (pack_set-bytes tid _ k (omega (arith, size, l))))

    pub length-group_bytes :
        (rs : List (FlowRecord F)) (h : Carried ips times ie ie' n is rs)
        → length (group_bytes rs h) ≤ 4 + (n + n + 39) * length rs
    length-group_bytes [] h = omega arith
    length-group_bytes (r ∷ rs) h =
        let b = bodies ips times ie ie' n is (r ∷ rs) h in
        omega (arith, length-set_bytes tid b, length-bodies ips times ie ie' n is (r ∷ rs) h)

    pub Reads-group :
        (rs more_rs : List (FlowRecord F)) (h : Carried ips times ie ie' n is rs)
        (ts ts' : Templates) (more : Bytes)
        → 256 ≤ tid
        → tid < 256 ^ 2
        → Small rs
        → lookup (domain, tid) ts ≡ some (as_fields (fields_of ie ie' n))
        → Reads ips times domain ts more ts' more_rs
        → Reads ips times domain ts (group_bytes rs h ++ more) ts' (map (in_ms times) rs ++ more_rs)
    unfolding parse_set
    Reads-group [] more_rs h ts ts' more k l s t f = f
    Reads-group (r ∷ rs) more_rs h ts ts' more k l s t f =
        let b = bodies ips times ie ie' n is (r ∷ rs) h in
        let size = length-bodies ips times ie ie' n is (r ∷ rs) h in
        let not_two : (tid == 2) ≡ false = ground (arith, ==_iff tid 2) in
        let is_data : leb 256 tid ≡ true = ground arith in
        Reads-set ips times domain tid b more ts ts ts' (map (in_ms times) (r ∷ rs)) more_rs l
          (omega (arith, size, s))
          (rw not_two
            (rw is_data (rw t (rw (parse_data-bodies ips times ie ie' n is (r ∷ rs) h) refl))))
          f

  parse_set-templates :
      (ts : Templates) → parse_set ips times domain 2 ts templates_body ≡ ok (known domain ts, [])
  unfolding parse_set parse_templates parse_fields parse_field templates_body template_body pack
      to_bytes digits from_bytes
  parse_set-templates ts = refl

  pub Reads-templates :
      (ts ts' : Templates) (more : Bytes) (rs : List (FlowRecord F))
      → Reads ips times domain (known domain ts) more ts' rs
      → Reads ips times domain ts (set_bytes 2 templates_body ++ more) ts' rs
  Reads-templates ts ts' more rs h =
      Reads-set ips times domain 2 templates_body more ts (known domain ts) ts' [] rs (omega arith)
        (omega (arith, length-templates_body)) (parse_set-templates ts) h
