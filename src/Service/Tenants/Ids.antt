-- ===== src/Service/Tenants/Ids.antt =====
-- Which ids of tenants backend/app/tenancy/ids.py lets pass.
use netscope_x.Prelude.{
  ℕ, ◌≤◌, true, false, [], ◌∷◌, Text, ◌==◌, ==_iff, nat_ord, list_ord, if_split, length, all, any,
  ok, ◌≡◌, refl, ap, arith, Bool-cases, inl, inr,
}
use netscope_x.Service.Credentials.Guard.{the_ok}
use netscope_x.Service.Tenants.{is_id_char, is_tenant_id, validate_tenant_id}

abbrev pub Bounded : Text → Type 0
Bounded u =
    (2 ≤ length u)
    × (length u ≤ 63)
    × (any (λ c. c == 47) u ≡ false)
    × (any (λ c. c == 46) u ≡ false)

no_char :
    (c : ℕ) (t : Text)
    → is_id_char c ≡ false
    → all is_id_char t ≡ true
    → any (λ d. d == c) t ≡ false
no_char c [] h k = refl
no_char c (d ∷ t) h k = elim (Bool-cases (d == c)) [
  | inl e ↦ absurd (ground (arith, h, k, ap is_id_char ((==_iff d c).0 e)))
  | inr e ↦ ground (arith, e, no_char c t h (ground arith))
]

bounded : (t : Text) → is_tenant_id t ≡ true → Bounded t
unfolding is_tenant_id
bounded [] h = absurd (cc)
bounded (c ∷ t) h =
    let chars : all is_id_char (c ∷ t) ≡ true = ground arith in
    (ground arith, ground arith, no_char 47 (c ∷ t) refl chars, no_char 46 (c ∷ t) refl chars)

-- An id that passes has 2 to 63 characters, none of which is a slash or a dot.
pub validate_tenant_id-bounds : (t u : Text) → validate_tenant_id t ≡ ok u → Bounded u
unfolding is_tenant_id
validate_tenant_id-bounds t u e =
    if_split (λ r. r ≡ ok u → Bounded u) (is_tenant_id t) _ _
      (λ p f. rw (← the_ok t u f) (bounded t p)) (λ p f. absurd (cc)) e
