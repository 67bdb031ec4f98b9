-- ===== src/Service/Credentials/Guard.antt =====
-- The guard of the routes, `get_principal` of backend/app/auth/deps.py.
use netscope_x.Prelude.{
  ℕ, true, false, not, Option, none, some, Text, text, ◌==◌, ==_iff, nat_ord, list_ord, if_split,
  ltb, keys, AreDistinct, ◌≡◌, sym, ap, arith, Bool-cases, inl, inr, ◌⊎◌, ok, raise, or_raise,
  >>=-eq-ok, Error, authentication_error, key_error,
}
use netscope_x.Service.Credentials.{
  Principal, Store, rank_of, authenticate, strip, partition, is_bearer, is_safe, needed_for,
  header_of, Request, get_principal,
}
use netscope_x.Service.Credentials.Lifetime.{Grants, authenticate-Grants}

abbrev pub token_of : Request → Text
token_of request = strip (partition (header_of request.authorization)).1

pub the_ok {ℓ} : {A : Type ℓ} (a b : A) → ok a ≡ ok b → a ≡ b
the_ok a b e = ap (λ r. elim r [ ok x ↦ x | raise f ↦ a ]) e

pub or_raise-eq-ok {ℓ} :
    {A : Type ℓ} (error : Error) (o : Option A) (a : A) → or_raise error o ≡ ok a → o ≡ some a
or_raise-eq-ok error none a e = absurd (cc)
or_raise-eq-ok error (some b) a e = ap some (the_ok b a e)

-- a role that ranks no lower than what the method needs
allowed :
    (role method : Text) (have need : ℕ)
    → or_raise key_error (rank_of role) ≡ ok have
    → or_raise key_error (rank_of (needed_for method)) ≡ ok need
    → ltb have need ≡ false
    → (is_safe method ≡ true) ⊎ (role ≡ text "operator")
allowed role method have need r s t = elim (Bool-cases (is_safe method)) [
  | inl e ↦ inl e
  | inr e ↦ elim (Bool-cases (role == text "operator")) [
    | inl f ↦ inr ((==_iff role (text "operator")).0 f)
    | inr f ↦
        let two : 2 ≡ need = the_ok 2 need (rw e at s) in
        elim (Bool-cases (role == text "reader")) [
          | inl g ↦
              let one : 1 ≡ have = the_ok 1 have (rw g at r) in absurd (ground (arith, one, two, t))
          | inr g ↦ let bad : raise key_error ≡ ok have = rw f at (rw g at r) in absurd (cc)
        ]
  ]
]

abbrev pub Passes : (Text → Text) → Store → ℕ → Request → Option Principal → Type 0
Passes hash d now request o =
    (p : Principal) × (o ≡ some p)
    × Grants hash d (token_of request) now p
    × ((is_safe request.method ≡ true) ⊎ (p.role ≡ text "operator"))

-- With authentication on, a request passes only with a credential that grants its principal for the token
-- in its header, and whose role is `operator` where its method is not one of GET, HEAD and OPTIONS.
pub get_principal-Grants :
    (hash : Text → Text) (d : Store) (now : ℕ) (request : Request) (o : Option Principal)
    → AreDistinct (keys d)
    → get_principal hash true d now request ≡ ok o
    → Passes hash d now request o
unfolding get_principal
get_principal-Grants hash d now request o h e =
    if_split (λ r. r ≡ ok o → Passes hash d now request o)
      (not (is_bearer (partition (header_of request.authorization)))) _ _ (λ p f. absurd (cc))
      (λ b f.
        let (p, q, f1) =
          >>=-eq-ok (or_raise authentication_error (authenticate hash d (token_of request) now)) _
            f in
        let (have, r, f2) = >>=-eq-ok (or_raise key_error (rank_of p.role)) _ f1 in
        let (need, s, f3) =
          >>=-eq-ok (or_raise key_error (rank_of (needed_for request.method))) _ f2 in
        if_split (λ r. r ≡ ok o → Passes hash d now request o) (ltb have need) _ _
          (λ t g. absurd (cc))
          (λ t g. (
            p,
            sym (the_ok (some p) o g),
            authenticate-Grants hash d (token_of request) now p h (
                or_raise-eq-ok authentication_error (authenticate hash d (token_of request) now) p
                  q),
            allowed p.role request.method have need r s t,
          ))
          f3)
      e
