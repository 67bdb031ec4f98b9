-- ===== src/FlowExport/Ipfix/RoundTrip/Sets.antt =====
-- The sets of one message of backend/nettrace/flowexport/ipfix.py, as they are written and read.
use netscope_x.Prelude.{
  ℕ, zero, suc, ◌+◌, ◌-◌, ◌^◌, ◌≤◌, ◌<◌, false, List, [], ◌∷◌, ◌++◌, length, length-append, take,
  drop, nat_ord, pair_ord, ◌||◌, ltb, ok, ◌>>=◌, ◌≡◌, refl, ◌∙◌, arith, struct_error,
}
use netscope_x.FlowExport.Bytes.{Bytes, digits, uint-digits, to_bytes-fits, take-field, drop-field}
use netscope_x.FlowExport.Records.{FlowRecord, Times}
use netscope_x.FlowExport.Ipfix.Fields.{Addresses}
use netscope_x.FlowExport.Ipfix.Encode.{pack, pack_set}
use netscope_x.FlowExport.Ipfix.Decode.{at, Templates, parse_set, parse_sets}

unfoldable pub set_bytes : ℕ → Bytes → Bytes
set_bytes id body = digits 2 id ++ (digits 2 (4 + length body) ++ []) ++ body

pub length-set_bytes : (id : ℕ) (body : Bytes) → length (set_bytes id body) ≡ 4 + length body
unfolding set_bytes digits
length-set_bytes id body = omega arith

pub pack_set-bytes :
    (id : ℕ) (body : Bytes)
    → id < 256 ^ 2
    → 4 + length body < 256 ^ 2
    → pack_set id body ≡ ok (set_bytes id body)
unfolding pack_set pack set_bytes
pack_set-bytes id body h k =
    rw (to_bytes-fits struct_error 2 id h)
      (rw (to_bytes-fits struct_error 2 (4 + length body) k) refl)

at-set_id : (id : ℕ) (body more : Bytes) → id < 256 ^ 2 → at 0 2 (set_bytes id body ++ more) ≡ id
unfolding set_bytes digits
at-set_id id body more h = uint-digits 2 id h

at-set_length :
    (id : ℕ) (body more : Bytes)
    → 4 + length body < 256 ^ 2
    → at 2 2 (set_bytes id body ++ more) ≡ 4 + length body
unfolding set_bytes digits
at-set_length id body more h = uint-digits 2 (4 + length body) h

set_body :
    (id : ℕ) (body more : Bytes) → take (length body) (drop 4 (set_bytes id body ++ more)) ≡ body
unfolding set_bytes digits
set_body id body more = take-field (length body) body more refl

module _ {F : Type 0} (ips : Addresses) (times : Times F) (domain : ℕ) where
  -- the sets `b` turn the templates `ts` into `ts'`, and hold the records `rs`
  abbrev pub Reads : Templates → Bytes → Templates → List (FlowRecord F) → Type 0
  Reads ts b ts' rs =
      (rounds : ℕ) → length b ≤ rounds → parse_sets ips times rounds domain ts b ≡ ok (ts', rs)

  pub Reads-nil : (ts : Templates) → Reads ts [] ts []
  unfolding parse_sets
  Reads-nil ts zero h = refl
  Reads-nil ts (suc rounds) h = refl

  parse_sets-step :
      (rounds : ℕ) (ts : Templates) (b : Bytes)
      → 4 ≤ at 2 2 b
      → at 2 2 b ≤ length b
      → parse_sets ips times (suc rounds) domain ts b ≡ (
          parse_set ips times domain (at 0 2 b) ts (take (at 2 2 b - 4) (drop 4 b))
          >>= (λ (ts', rs).
              parse_sets ips times rounds domain ts' (drop (at 2 2 b) b)
              >>= (λ (ts'', rs'). ok (ts'', rs ++ rs'))))
  unfolding parse_sets
  parse_sets-step rounds ts [] h k = absurd (omega (arith, h, k))
  parse_sets-step rounds ts (x ∷ xs) h k =
      let b : Bytes = x ∷ xs in
      let long : ltb (length b) 4 ≡ false = ground arith in
      let fits : (ltb (at 2 2 b) 4 || ltb (length b) (at 2 2 b)) ≡ false = ground arith in
      rw long (rw fits refl)

  pub Reads-set :
      (id : ℕ) (body more : Bytes) (ts ts' ts'' : Templates) (rs rs' : List (FlowRecord F))
      → id < 256 ^ 2
      → 4 + length body < 256 ^ 2
      → parse_set ips times domain id ts body ≡ ok (ts', rs)
      → Reads ts' more ts'' rs'
      → Reads ts (set_bytes id body ++ more) ts'' (rs ++ rs')
  Reads-set id body more ts ts' ts'' rs rs' h k e f zero l =
      absurd (omega (arith, l, length-append (set_bytes id body) more, length-set_bytes id body))
  Reads-set id body more ts ts' ts'' rs rs' h k e f (suc rounds) l =
      let b = set_bytes id body ++ more in
      let long = length-append (set_bytes id body) more in
      let all = length-set_bytes id body in
      let size = at-set_length id body more k in
      let rest = drop-field (4 + length body) (set_bytes id body) more all in
      let four : 4 + length body - 4 ≡ length body = omega arith in
      parse_sets-step rounds ts b (omega (arith, size)) (omega (arith, size, long, all))
      ∙ rw (at-set_id id body more h) (
          rw size (
            rw rest (
              rw four (
                rw (set_body id body more)
                  (rw e (rw (f rounds (omega (arith, long, all, l))) refl))))))
