-- ===== src/FlowExport/Ipfix/RoundTrip/Messages.antt =====
-- One message of backend/nettrace/flowexport/ipfix.py, as it is written and read.
use netscope_x.Prelude.{
  ℕ, zero, suc, ◌+◌, ◌-◌, ◌^◌, ◌≤◌, ◌<◌, false, List, [], ◌∷◌, ◌++◌, length, length-append, take,
  drop, nat_ord, pair_ord, ==_iff, ◌==◌, ◌||◌, not, ltb, ok, ◌>>=◌, ◌≡◌, refl, ◌∙◌, arith,
}
use mathlib.Core.List.{append_assoc}
use netscope_x.FlowExport.Bytes.{Bytes, digits, uint-digits, take-field, drop-field}
use netscope_x.FlowExport.Records.{FlowRecord, Times}
use netscope_x.FlowExport.Ipfix.Fields.{Addresses}
use netscope_x.FlowExport.Ipfix.Decode.{at, Templates, parse_sets, parse_messages}
use netscope_x.FlowExport.Ipfix.RoundTrip.Cells.{IsTemplate}
use netscope_x.FlowExport.Ipfix.RoundTrip.Sets.{Reads}

unfoldable pub header_bytes : ℕ → ℕ → ℕ → ℕ → Bytes
header_bytes size t seq domain =
    digits 2 10 ++ (digits 2 size ++ (digits 4 t ++ (digits 4 seq ++ (digits 4 domain ++ []))))

pub length-header_bytes : (size t seq domain : ℕ) → length (header_bytes size t seq domain) ≡ 16
unfolding header_bytes digits
length-header_bytes size t seq domain = refl

at-version : (size t seq domain : ℕ) (b : Bytes) → at 0 2 (header_bytes size t seq domain ++ b) ≡ 10
unfolding header_bytes digits
at-version size t seq domain b = uint-digits 2 10 (omega arith)

at-size :
    (size t seq domain : ℕ) (b : Bytes)
    → size < 256 ^ 2
    → at 2 2 (header_bytes size t seq domain ++ b) ≡ size
unfolding header_bytes digits
at-size size t seq domain b h = uint-digits 2 size h

at-domain :
    (size t seq domain : ℕ) (b : Bytes)
    → domain < 256 ^ 4
    → at 12 4 (header_bytes size t seq domain ++ b) ≡ domain
unfolding header_bytes digits
at-domain size t seq domain b h = uint-digits 4 domain h

pub v4_is : IsTemplate 8 12
v4_is = record { source = refl; other = refl; destination = refl }

pub v6_is : IsTemplate 27 28
v6_is = record { source = refl; other = refl; destination = refl }

module _ {F : Type 0} (ips : Addresses) (times : Times F) where
  parse_messages-step :
      (rounds : ℕ) (ts : Templates) (b : Bytes)
      → at 0 2 b ≡ 10
      → 16 ≤ at 2 2 b
      → at 2 2 b ≤ length b
      → parse_messages ips times (suc rounds) ts b ≡ (
          parse_sets ips times (length b) (at 12 4 b) ts (take (at 2 2 b - 16) (drop 16 b))
          >>= (λ (ts', rs).
              parse_messages ips times rounds ts' (drop (at 2 2 b) b) >>= (λ rs'. ok (rs ++ rs'))))
  unfolding parse_messages
  parse_messages-step rounds ts [] v h k = absurd (omega (arith, h, k))
  parse_messages-step rounds ts (x ∷ xs) v h k =
      let b : Bytes = x ∷ xs in
      let long : ltb (length b) 16 ≡ false = ground arith in
      let ten : not (at 0 2 b == 10) ≡ false = ground (arith, ==_iff (at 0 2 b) 10) in
      let fits : (ltb (at 2 2 b) 16 || ltb (length b) (at 2 2 b)) ≡ false = ground arith in
      rw long (rw ten (rw fits refl))

  -- the messages `b` hold the records `rs`, for a decoder that has the templates `ts`
  abbrev pub Holds : Templates → Bytes → List (FlowRecord F) → Type 0
  Holds ts b rs = (rounds : ℕ) → length b ≤ rounds → parse_messages ips times rounds ts b ≡ ok rs

  pub Holds-nil : (ts : Templates) → Holds ts [] []
  unfolding parse_messages
  Holds-nil ts zero h = refl
  Holds-nil ts (suc rounds) h = refl

  pub Holds-message :
      (t seq domain : ℕ) (sets more : Bytes) (ts ts' : Templates) (rs rs' : List (FlowRecord F))
      → 16 + length sets < 256 ^ 2
      → domain < 256 ^ 4
      → Reads ips times domain ts sets ts' rs
      → Holds ts' more rs'
      → Holds ts (header_bytes (16 + length sets) t seq domain ++ (sets ++ more)) (rs ++ rs')
  Holds-message t seq domain sets more ts ts' rs rs' h k e f rounds l = go rounds l
    where
      size : ℕ
      size = 16 + length sets

      header : Bytes
      header = header_bytes size t seq domain

      b : Bytes
      b = header ++ (sets ++ more)

      sixteen : length header ≡ 16
      sixteen = length-header_bytes size t seq domain

      long : length b ≡ size + length more
      long = length-append header (sets ++ more) ∙ omega (arith, sixteen, length-append sets more)

      body : take (length sets) (drop 16 b) ≡ sets
      body =
          rw (drop-field 16 header (sets ++ more) sixteen) (take-field (length sets) sets more refl)

      rest : drop size b ≡ more
      rest = rw (← append_assoc header sets more) (
          drop-field size (header ++ sets) more
            (length-append header sets ∙ omega (arith, sixteen)))

      minus : size - 16 ≡ length sets
      minus = omega arith

      go : (rounds : ℕ) → length b ≤ rounds → parse_messages ips times rounds ts b ≡ ok (rs ++ rs')
      go zero l = absurd (omega (arith, l, long))
      go (suc rounds) l =
          let is_size = at-size size t seq domain (sets ++ more) h in
          parse_messages-step rounds ts b (at-version size t seq domain (sets ++ more))
            (omega (arith, is_size)) (omega (arith, is_size, long))
          ∙ rw is_size (
              rw (at-domain size t seq domain (sets ++ more) k) (
                rw minus (
                  rw body (
                    rw rest (
                      rw (e (length b) (omega (arith, long)))
                        (rw (f rounds (omega (arith, long, l))) refl))))))
