-- ===== src/Service/Credentials/Lifetime.antt =====
-- The life of a credential of backend/app/auth/store.py: created, found, revoked.
use netscope_x.Prelude.{
  some-injective, ℕ, true, false, not, Option, none, some, Text, ==_self, nat_ord, list_ord,
  if_split, keys, contains, AreDistinct, insert-AreDistinct, lookup, insert, lookup-insert, ◌≡◌,
  ◌≢◌, refl, sym, ap, ◌∙◌, arith, Bool-cases, inl, inr, ok, raise, or_raise, key_error, >>=-eq-ok,
}
use netscope_x.Service.Credentials.{
  Credential, Principal, Store, rank_of, is_some_rank, save, create, revoke, find_last, is_expired,
  admit, authenticate,
}
use netscope_x.Service.Credentials.Search.{find_last-lookup, find_last-created, IsFresh}
use netscope_x.Service.Credentials.Saving.{save-AreDistinct, lookup-save}

-- an entry that is found grants the principal that it describes
abbrev pub Grants : (Text → Text) → Store → Text → ℕ → Principal → Type 0
Grants hash d token now p =
    (c : Credential) × (lookup p.credential_id d ≡ some c)
    × (c.hash ≡ hash token)
    × (c.revoked ≡ false)
    × (is_expired now c.expires_at ≡ false)
    × (c.role ≡ p.role)
    × (c.tenant_id ≡ p.tenant_id)

admit-some :
    (now : ℕ) (found : Option (Text × Credential)) (p : Principal)
    → admit now found ≡ some p
    → (c : Credential) × (found ≡ some (p.credential_id, c))
      × (c.revoked ≡ false)
      × (is_expired now c.expires_at ≡ false)
      × (c.role ≡ p.role)
      × (c.tenant_id ≡ p.tenant_id)
unfolding admit
admit-some now none p e = absurd (cc)
admit-some now (some (cid, c)) p e = elim (Bool-cases c.revoked) [
  | inl q ↦ absurd (ground (arith, q, e))
  | inr q ↦ elim (Bool-cases (is_expired now c.expires_at)) [
    | inl r ↦ absurd (ground (arith, r, q, e))
    | inr r ↦
        let granted : Principal = record {
          credential_id = cid;
          role = c.role;
          tenant_id = c.tenant_id;
        } in
        let same : granted ≡ p = some-injective granted p (rw r at (rw q at e)) in
        (
          c,
          ap (λ (x : Principal). some (x.credential_id, c)) same,
          q,
          r,
          ap (λ (x : Principal). x.role) same,
          ap (λ (x : Principal). x.tenant_id) same,
        )
  ]
]

-- Whoever is authenticated has a token whose digest stands in the store, with a credential that is
-- neither revoked nor expired, and is given the name, the role and the tenant of this credential.
pub authenticate-Grants :
    (hash : Text → Text) (d : Store) (token : Text) (now : ℕ) (p : Principal)
    → AreDistinct (keys d)
    → authenticate hash d token now ≡ some p
    → Grants hash d token now p
unfolding authenticate
authenticate-Grants hash d token now p h e =
    let (c, q, r, s, t, u) = admit-some now (find_last (λ c. c.hash) (hash token) none d) p e in
    elim (find_last-lookup (λ c. c.hash) (hash token) none d p.credential_id c h q) [
      | inl f ↦ absurd (cc)
      | inr (f, g) ↦ (c, f, g, r, s, t, u)
    ]

result_of {ℓ} : {A : Type ℓ} (a b : A) → ok a ≡ ok b → a ≡ b
result_of a b e = ap (λ r. elim r [ ok x ↦ x | raise f ↦ a ]) e

revoked_store :
    (d d' : Store) (cid : Text)
    → revoke d cid ≡ ok d'
    → (c : Credential) × (d' ≡ save (insert cid (record c { revoked = true }) d))
unfolding revoke
revoked_store d d' cid e =
    let (c, q, f) = >>=-eq-ok (or_raise key_error (lookup cid d)) _ e in
    let written : Store = save (insert cid (record c { revoked = true }) d) in
    (c, sym (result_of written d' f))

-- Once a credential is revoked, no token authenticates as it any more, at any time.
pub revoke-authenticate :
    (hash : Text → Text) (d d' : Store) (cid token : Text) (now : ℕ) (p : Principal)
    → AreDistinct (keys d)
    → revoke d cid ≡ ok d'
    → authenticate hash d' token now ≡ some p
    → p.credential_id ≢ cid
revoke-authenticate hash d d' cid token now p h e a same =
    let (c, q) = revoked_store d d' cid e in
    let written : Store = insert cid (record c { revoked = true }) d in
    let whole : AreDistinct (keys written) =
      insert-AreDistinct cid (record c { revoked = true }) d h in
    let (k, l, m, n, o1, o2, o3) =
      authenticate-Grants hash d' token now p (rw q (save-AreDistinct written whole)) a in
    let there : lookup cid d' ≡ some (record c { revoked = true }) =
      ap (lookup cid) q
      ∙ (lookup-save written cid whole
          ∙ lookup-insert cid cid (record c { revoked = true }) d
          ∙ rw (==_self cid) refl) in
    absurd (
      ground (
        arith,
        n,
        ap (λ (x : Credential). x.revoked)
            (some-injective k (record c { revoked = true }) (sym l ∙ rw same there)),
      ))

abbrev pub new_credential : (Text → Text) → Text → Option Text → Option ℕ → Text → Credential
new_credential hash role tenant expires token = record {
  hash = hash token;
  role = role;
  tenant_id = tenant;
  revoked = false;
  expires_at = expires;
}

abbrev Created :
    (Text → Text) → Store → Text → Text → Option Text → Option ℕ → Text → Store × Text → Type 0
Created hash d cid role tenant expires token x =
    (contains (keys d) cid ≡ false)
    × (x ≡ (save (insert cid (new_credential hash role tenant expires token) d), token))

create-Created :
    (hash : Text → Text) (d : Store) (cid role : Text) (tenant : Option Text) (expires : Option ℕ)
    (token : Text) (x : Store × Text)
    → create hash d cid role tenant expires token ≡ ok x
    → Created hash d cid role tenant expires token x
unfolding create
create-Created hash d cid role tenant expires token x e =
    if_split (λ r. r ≡ ok x → Created hash d cid role tenant expires token x)
      (not (is_some_rank (rank_of role))) _ _ (λ p f. absurd (cc))
      (λ p.
        if_split (λ r. r ≡ ok x → Created hash d cid role tenant expires token x)
          (contains (keys d) cid) _ _ (λ q f. absurd (cc)) (λ q f. (q, sym (result_of _ x f))))
      e

-- A credential that is created authenticates with the token returned, under its name, its role and its
-- tenant, until it expires, where no other credential has the digest of the token.
pub create-authenticate :
    (hash : Text → Text) (d d' : Store) (cid role : Text) (tenant : Option Text)
    (expires : Option ℕ) (token t : Text) (now : ℕ)
    → create hash d cid role tenant expires token ≡ ok (d', t)
    → IsFresh (λ c. c.hash) (hash token) d
    → is_expired now expires ≡ false
    → authenticate hash d' t now
      ≡ some (record { credential_id = cid; role = role; tenant_id = tenant })
unfolding authenticate admit
create-authenticate hash d d' cid role tenant expires token t now e f g =
    let (k, q) = create-Created hash d cid role tenant expires token (d', t) e in
    let c = new_credential hash role tenant expires token in
    rw (ap (λ x. x.0) q) (
      rw (ap (λ x. x.1) q)
        (rw (find_last-created (λ c. c.hash) (hash token) cid c d refl f k) (rw g refl)))
