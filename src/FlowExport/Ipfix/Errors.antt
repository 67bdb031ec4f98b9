-- ===== src/FlowExport/Ipfix/Errors.antt =====
-- How `decode` of backend/nettrace/flowexport/ipfix.py fails.
use netscope_x.Prelude.{
  inl, ℕ, zero, suc, ◌-◌, ◌≤◌, ◌<◌, Option, none, some, List, [], ◌∷◌, ◌==◌, ◌||◌, not, ==_iff,
  nat_ord, pair_ord, option_ord, if_split, ltb, leb, length, length-drop, take, drop, lookup, ok,
  raise, Error, or_raise, >>=-eq-ok, length-take, value_error, ◌≡◌, refl, ◌⊎◌, inr, arith,
}
use netscope_x.FlowExport.Bytes.{Bytes}
use netscope_x.FlowExport.Records.{FlowRecord, Times}
use netscope_x.FlowExport.Ipfix.Fields.{Addresses, Field, is_source, is_destination}
use netscope_x.FlowExport.Ipfix.Decode.{
  at, Templates, parse_field, parse_fields, parse_templates, Values, no_values, is_integer,
  put_value, read_fields, record_of, size_of, parse_records, parse_data, parse_set, parse_sets,
  parse_messages, decode,
}
use netscope_x.FlowExport.Failing.{IsDecodeError, Fails, bind-Fails, or_raise-Fails, flow, ends}

parse_field-Fails : (b : Bytes) → Fails (parse_field b)
unfolding parse_field
parse_field-Fails b =
    if_split Fails (ltb (length b) 4) _ _ (λ e. flow)
      (λ e.
        if_split Fails (at 2 2 b == 65535) _ _ (λ f. flow)
          (λ f. if_split Fails (leb 32768 (at 0 2 b)) _ _ (λ g. tt) (λ g. tt)))

parse_field-shrinks :
    (b : Bytes) (f : Field) (rest : Bytes) → parse_field b ≡ ok (f, rest) → length rest ≤ length b
unfolding parse_field
parse_field-shrinks b f rest h = ground (arith, length-drop 4 b, length-drop 8 b)

parse_fields-Fails : (count : ℕ) (b : Bytes) → Fails (parse_fields count b)
unfolding parse_fields
parse_fields-Fails zero b = tt
parse_fields-Fails (suc count) b =
    bind-Fails (parse_field b) _ (parse_field-Fails b) (λ (f, rest) e.
      bind-Fails (parse_fields count rest) _ (parse_fields-Fails count rest) (λ p e. tt))

parse_fields-shrinks :
    (count : ℕ) (b : Bytes) (fs : List Field) (rest : Bytes)
    → parse_fields count b ≡ ok (fs, rest)
    → length rest ≤ length b
unfolding parse_fields
parse_fields-shrinks zero b fs rest h = ground arith
parse_fields-shrinks (suc count) b fs rest h =
    let ((f, r), e, h1) = >>=-eq-ok (parse_field b) _ h in
    let ((gs, r'), e', h2) = >>=-eq-ok (parse_fields count r) _ h1 in
    ground (arith, parse_field-shrinks b f r e, parse_fields-shrinks count r gs r' e')

parse_templates-Fails :
    (rounds domain : ℕ) (found : Templates) (b : Bytes)
    → length b ≤ rounds
    → Fails (parse_templates rounds domain found b)
unfolding parse_templates
parse_templates-Fails zero domain found b h =
    if_split Fails (ltb (length b) 4) _ _ (λ e. tt) (λ e. absurd (ground arith))
parse_templates-Fails (suc rounds) domain found b h =
    if_split Fails (ltb (length b) 4) _ _ (λ e. tt)
      (λ e.
        bind-Fails (parse_fields (at 2 2 b) (drop 4 b)) _ (parse_fields-Fails (at 2 2 b) (drop 4 b))
          (λ (fs, rest) p. parse_templates-Fails rounds domain _ rest (
            ground
              (arith, e, parse_fields-shrinks (at 2 2 b) (drop 4 b) fs rest p, length-drop 4 b))))

module _ (ips : Addresses) where
  put_value-Fails : (v : Values) (ie : Option ℕ) (raw : Bytes) → Fails (put_value ips v ie raw)
  unfolding put_value
  put_value-Fails v none raw = tt
  put_value-Fails v (some ie) raw =
      if_split Fails (is_source ie) _ _
        (λ e.
          bind-Fails (or_raise value_error (ips.shown raw)) _
            (or_raise-Fails value_error (ips.shown raw) (inr (inl refl))) (λ t e. tt))
        (λ e.
          if_split Fails (is_destination ie) _ _
            (λ f.
              bind-Fails (or_raise value_error (ips.shown raw)) _
                (or_raise-Fails value_error (ips.shown raw) (inr (inl refl))) (λ t e. tt))
            (λ f. if_split Fails (is_integer ie) _ _ (λ g. tt) (λ g. tt)))

  read_fields-Fails :
      (fields : List Field) (v : Values) (b : Bytes) → Fails (read_fields ips fields v b)
  unfolding read_fields
  read_fields-Fails [] v b = tt
  read_fields-Fails ((ie, ln) ∷ fields) v b =
      bind-Fails (put_value ips v ie (take ln b)) _ (put_value-Fails v ie (take ln b))
        (λ v' e. read_fields-Fails fields v' (drop ln b))

  read_fields-takes :
      (fields : List Field) (v w : Values) (b rest : Bytes)
      → read_fields ips fields v b ≡ ok (w, rest)
      → length rest ≡ length b - size_of fields
  unfolding read_fields
  read_fields-takes [] v w b rest h = ground arith
  read_fields-takes ((ie, ln) ∷ fields) v w b rest h =
      let (v', e, h1) = >>=-eq-ok (put_value ips v ie (take ln b)) _ h in
      omega (arith, read_fields-takes fields v' w (drop ln b) rest h1, length-drop ln b)

module _ {F : Type 0} (ips : Addresses) (times : Times F) where
  record_of-Fails : (v : Values) → Fails (record_of ips times v)
  unfolding record_of
  record_of-Fails v = bind-Fails _ _ (or_raise-Fails _ v.src flow) (λ src e.
      bind-Fails _ _ (or_raise-Fails _ v.dst flow) (λ dst e.
        bind-Fails _ _ (or_raise-Fails _ (lookup 4 v.ints) flow) (λ a e.
          bind-Fails _ _ (or_raise-Fails _ (lookup 2 v.ints) flow) (λ b e.
            bind-Fails _ _ (or_raise-Fails _ (lookup 1 v.ints) flow) (λ c e.
              bind-Fails _ _ (or_raise-Fails _ (lookup 152 v.ints) flow) (λ d e.
                bind-Fails _ _ (or_raise-Fails _ (lookup 153 v.ints) flow) (λ f e.
                  bind-Fails _ _ (or_raise-Fails _ (times.of_ms d) (inr (inr refl))) (λ g e.
                    bind-Fails _ _ (or_raise-Fails _ (times.of_ms f) (inr (inr refl)))
                      (λ k e. tt)))))))))

  parse_records-Fails :
      (rounds : ℕ) (fields : List Field) (b : Bytes)
      → length b ≤ rounds
      → 0 < size_of fields
      → Fails (parse_records ips times rounds fields b)
  unfolding parse_records
  parse_records-Fails zero fields b h p =
      if_split Fails (ltb (length b) (size_of fields)) _ _ (λ e. tt) (λ e. absurd (ground arith))
  parse_records-Fails (suc rounds) fields b h p =
      if_split Fails (ltb (length b) (size_of fields)) _ _ (λ e. tt)
        (λ e.
          bind-Fails (read_fields ips fields no_values b) _
            (read_fields-Fails ips fields no_values b)
            (λ (v, rest) r. bind-Fails (record_of ips times v) _ (record_of-Fails v) (λ x q.
              bind-Fails (parse_records ips times rounds fields rest) _
                (parse_records-Fails rounds fields rest
                  (ground (arith, e, read_fields-takes ips fields no_values v b rest r)) p)
                (λ xs q. tt))))

  parse_data-Fails : (fields : List Field) (b : Bytes) → Fails (parse_data ips times fields b)
  unfolding parse_data
  parse_data-Fails fields b =
      if_split Fails (size_of fields == 0) _ _ (λ e. flow)
        (λ e.
          parse_records-Fails (length b) fields b (omega arith)
            (ground (arith, e, ==_iff (size_of fields) 0)))

  parse_set-Fails :
      (domain id : ℕ) (ts : Templates) (body : Bytes)
      → Fails (parse_set ips times domain id ts body)
  unfolding parse_set
  parse_set-Fails domain id ts body =
      if_split Fails (id == 2) _ _
        (λ e.
          bind-Fails _ _ (parse_templates-Fails (length body) domain ts body (omega arith))
            (λ t e. tt))
        (λ e.
          if_split Fails (leb 256 id) _ _
            (λ f.
              bind-Fails _ _
                (bind-Fails _ _ (or_raise-Fails _ (lookup (domain, id) ts) flow)
                  (λ fields e. parse_data-Fails fields body))
                (λ rs e. tt))
            (λ f. if_split Fails (id == 3) _ _ (λ g. tt) (λ g. flow)))

  parse_sets-Fails :
      (rounds domain : ℕ) (ts : Templates) (b : Bytes)
      → length b ≤ rounds
      → Fails (parse_sets ips times rounds domain ts b)
  unfolding parse_sets
  parse_sets-Fails rounds domain ts [] h = tt
  parse_sets-Fails zero domain ts (x ∷ xs) h = absurd (omega (arith, h))
  parse_sets-Fails (suc rounds) domain ts (x ∷ xs) h =
      let b : Bytes = x ∷ xs in
      if_split Fails (ltb (length b) 4) _ _ (λ e. flow)
        (λ e.
          if_split Fails (ltb (at 2 2 b) 4 || ltb (length b) (at 2 2 b)) _ _ (λ f. flow)
            (λ f.
              bind-Fails (parse_set ips times domain (at 0 2 b) ts (take (at 2 2 b - 4) (drop 4 b)))
                _ (parse_set-Fails domain (at 0 2 b) ts (take (at 2 2 b - 4) (drop 4 b)))
                (λ (t, rs) p.
                  bind-Fails (parse_sets ips times rounds domain t (drop (at 2 2 b) b)) _
                    (parse_sets-Fails rounds domain t (drop (at 2 2 b) b)
                      (ground (arith, f, h, length-drop (at 2 2 b) b)))
                    (λ q e. tt))))

  parse_messages-Fails :
      (rounds : ℕ) (ts : Templates) (b : Bytes)
      → length b ≤ rounds
      → Fails (parse_messages ips times rounds ts b)
  unfolding parse_messages
  parse_messages-Fails rounds ts [] h = tt
  parse_messages-Fails zero ts (x ∷ xs) h = absurd (omega (arith, h))
  parse_messages-Fails (suc rounds) ts (x ∷ xs) h =
      let b : Bytes = x ∷ xs in
      let body = take (at 2 2 b - 16) (drop 16 b) in
      if_split Fails (ltb (length b) 16) _ _ (λ e. flow)
        (λ e.
          if_split Fails (not (at 0 2 b == 10)) _ _ (λ f. flow)
            (λ f.
              if_split Fails (ltb (at 2 2 b) 16 || ltb (length b) (at 2 2 b)) _ _ (λ g. flow)
                (λ g.
                  bind-Fails (parse_sets ips times (length b) (at 12 4 b) ts body) _
                    (parse_sets-Fails (length b) (at 12 4 b) ts body (
                      ground (arith, g, length-take (at 2 2 b - 16) (drop 16 b), length-drop 16 b)))
                    (λ (t, rs) p.
                      bind-Fails (parse_messages ips times rounds t (drop (at 2 2 b) b)) _
                        (parse_messages-Fails rounds t (drop (at 2 2 b) b)
                          (ground (arith, g, h, length-drop (at 2 2 b) b)))
                        (λ q e. tt)))))

  pub decode-Fails : (b : Bytes) → Fails (decode ips times b)
  unfolding decode
  decode-Fails [] = flow
  decode-Fails (x ∷ xs) = parse_messages-Fails (length (x ∷ xs)) [] (x ∷ xs) (omega arith)

  -- On every input, whatever its bytes are, `decode` ends: its loops do not run out of rounds, and it
  -- returns records or raises FlowExportError, the ValueError of `ip_address`, or the OverflowError of a
  -- time that is too large for a float, and nothing else.
  pub decode-ends :
      (b : Bytes)
      → ((rs : List (FlowRecord F)) × (decode ips times b ≡ ok rs))
        ⊎ ((e : Error) × (decode ips times b ≡ raise e) × IsDecodeError e)
  decode-ends b = ends (decode ips times b) (decode-Fails b)
