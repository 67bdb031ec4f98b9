-- ===== src/Service/Tenants/Scopes.antt =====
-- The scope that `get_tenant_scope` of backend/app/tenancy/deps.py gives a request, and the registry.
use netscope_x.Prelude.{
  some-injective, true, not, Option, none, some, [], ◌∷◌, Text, text, ◌==◌, ==_iff, nat_ord,
  list_ord, if_split, Dict, keys, contains, AreDistinct, lookup, Result, ok, >>=-eq-ok,
  tenant_access_error, ◌≡◌, refl, sym, ap, ◌∙◌, inl, inr,
}
use netscope_x.Service.Credentials.{Principal, find_last}
use netscope_x.Service.Credentials.Guard.{the_ok, or_raise-eq-ok}
use netscope_x.Service.Credentials.Search.{find_last-lookup, find_last-created, IsFresh}
use netscope_x.Service.Tenants.{
  is_tenant_id, validate_tenant_id, FilePath, join, parent, tenant_root, tenant_inbox,
  create_tenant, key_found, resolve_key, TenantScope, Settings, tenant_of, get_tenant_scope,
}

abbrev pub tenants_dir : (FilePath → FilePath) → FilePath → FilePath
tenants_dir resolve artifact_root = resolve (join artifact_root (text "tenants"))

tenant_root-eq :
    (resolve : FilePath → FilePath) (artifact_root : FilePath) (id : Text) (root : FilePath)
    → tenant_root resolve artifact_root id ≡ ok root
    → (is_tenant_id id ≡ true)
      × (root ≡ resolve (join (tenants_dir resolve artifact_root) id))
      × (parent root ≡ tenants_dir resolve artifact_root)
unfolding tenant_root
tenant_root-eq resolve artifact_root id root e =
    let (u, v, f) = >>=-eq-ok (validate_tenant_id id) _ e in
    let base = tenants_dir resolve artifact_root in
    let child = resolve (join base id) in
    let valid : is_tenant_id id ≡ true =
      if_split (λ r. r ≡ ok u → is_tenant_id id ≡ true) (is_tenant_id id) _ _ (λ p g. p)
        (λ p g. absurd (cc)) v in
    if_split (λ r. r ≡ ok root → (is_tenant_id id ≡ true) × (root ≡ child) × (parent root ≡ base))
      (parent child == base) _ _
      (λ p g.
        let same : child ≡ root = the_ok child root g in
        (valid, sym same, ap parent (sym same) ∙ (==_iff (parent child) base).0 p))
      (λ p g. absurd (cc)) f

-- who the tenant of a request is
abbrev pub Names : (Text → Text) → Dict Text Text → Option Text → Option Principal → Text → Type 0
Names hash tenants key (some p) id = p.tenant_id ≡ some id
Names hash tenants none none id = ⊥
Names hash tenants (some key) none id = lookup id tenants ≡ some (hash key)

tenant_of-Names :
    (hash : Text → Text) (tenants : Dict Text Text) (key : Option Text)
    (principal : Option Principal) (id : Text)
    → AreDistinct (keys tenants)
    → tenant_of hash tenants key principal ≡ ok id
    → Names hash tenants key principal id
unfolding tenant_of
tenant_of-Names hash tenants key (some p) id h e =
    or_raise-eq-ok tenant_access_error p.tenant_id id e
tenant_of-Names hash tenants none none id h e = absurd (cc)
tenant_of-Names hash tenants (some []) none id h e = absurd (cc)
tenant_of-Names hash tenants (some (c ∷ key)) none id h e =
    found (find_last (λ d. d) (hash (c ∷ key)) none tenants)
      (λ cid d q. elim (find_last-lookup (λ d. d) (hash (c ∷ key)) none tenants cid d h q) [
        | inl r ↦ absurd (cc)
        | inr (r, s) ↦ r ∙ ap some s
      ])
      (or_raise-eq-ok tenant_access_error _ id e)
  where
    found :
        (o : Option (Text × Text))
        → ((cid d : Text) → o ≡ some (cid, d) → lookup cid tenants ≡ some (hash (c ∷ key)))
        → key_found o ≡ some id
        → lookup id tenants ≡ some (hash (c ∷ key))
    found none f g = absurd (cc)
    found (some (cid, d)) f g = rw (← some-injective cid id g) (f cid d refl)

-- what a scope is where tenancy is on
abbrev pub IsScopeOf :
    (FilePath → FilePath)
    → (Text → Text)
    → Settings
    → Dict Text Text
    → Option Text
    → Option Principal
    → TenantScope
    → Text
    → Type 0
IsScopeOf resolve hash settings tenants key principal scope id =
    let base = tenants_dir resolve settings.artifact_root in
    (scope.tenant_id ≡ some id)
    × (is_tenant_id id ≡ true)
    × Names hash tenants key principal id
    × (scope.root ≡ resolve (join base id))
    × (parent scope.root ≡ base)
    × (scope.inbox ≡ join scope.root (text "inbox"))

-- With tenancy on, a request that gets a scope gets that of one tenant: the tenant of its credential,
-- or, without a credential, the one that is registered with the digest of its key. The id is valid, and
-- the root is the directory of this id, directly below the directory of the tenants.
pub get_tenant_scope-IsScopeOf :
    (resolve : FilePath → FilePath) (hash : Text → Text) (settings : Settings)
    (tenants : Dict Text Text) (key : Option Text) (principal : Option Principal)
    (scope : TenantScope)
    → AreDistinct (keys tenants)
    → settings.tenancy_enabled ≡ true
    → get_tenant_scope resolve hash settings tenants key principal ≡ ok scope
    → (id : Text) × IsScopeOf resolve hash settings tenants key principal scope id
unfolding get_tenant_scope tenant_inbox
get_tenant_scope-IsScopeOf resolve hash settings tenants key principal scope h on e =
    let (id, p, f) = >>=-eq-ok (tenant_of hash tenants key principal) _ (rw on at e) in
    let (root, q, g) = >>=-eq-ok (tenant_root resolve settings.artifact_root id) _ f in
    let (valid, is_root, below) = tenant_root-eq resolve settings.artifact_root id root q in
    let made : TenantScope = record {
      tenant_id = some id;
      root = root;
      inbox = join root (text "inbox");
    } in
    let same : made ≡ scope = the_ok made scope (rw q at g) in
    (
      id,
      rw (← same)
          (refl, valid, tenant_of-Names hash tenants key principal id h p, is_root, below, refl),
    )

last_of : Text → FilePath → Text
last_of t [] = t
last_of t (c ∷ p) = last_of c p

last_of-join : (t : Text) (p : FilePath) (a : Text) → last_of t (join p a) ≡ a
unfolding last_of
last_of-join t [] a = refl
last_of-join t (c ∷ p) a = last_of-join c p a

join-injective : (p : FilePath) (a b : Text) → join p a ≡ join p b → a ≡ b
join-injective p a b f = sym (last_of-join a p a) ∙ ap (last_of a) f ∙ last_of-join a p b

-- Where no tenant's directory is a link to another place, requests with one root have one tenant.
pub get_tenant_scope-isolated :
    (resolve : FilePath → FilePath) (hash : Text → Text) (settings : Settings)
    (tenants : Dict Text Text) (key key' : Option Text) (principal principal' : Option Principal)
    (scope scope' : TenantScope)
    → ((id : Text)
        → is_tenant_id id ≡ true
        → resolve (join (tenants_dir resolve settings.artifact_root) id)
          ≡ join (tenants_dir resolve settings.artifact_root) id)
    → AreDistinct (keys tenants)
    → settings.tenancy_enabled ≡ true
    → get_tenant_scope resolve hash settings tenants key principal ≡ ok scope
    → get_tenant_scope resolve hash settings tenants key' principal' ≡ ok scope'
    → scope.root ≡ scope'.root
    → scope.tenant_id ≡ scope'.tenant_id
get_tenant_scope-isolated resolve hash settings tenants key key' principal principal' scope scope'
      no_link h on e e' same =
    let (id, (p, valid, n, r, below, inside)) =
      get_tenant_scope-IsScopeOf resolve hash settings tenants key principal scope h on e in
    let (id', (p', valid', n', r', below', inside')) =
      get_tenant_scope-IsScopeOf resolve hash settings tenants key' principal' scope' h on e' in
    let roots = sym (no_link id valid) ∙ sym r ∙ same ∙ r' ∙ no_link id' valid' in
    p ∙ ap some (join-injective (tenants_dir resolve settings.artifact_root) id id' roots) ∙ sym p'

-- A tenant that is created is found by its key, where no other tenant's key has the same digest.
pub create_tenant-resolve_key :
    (resolve : FilePath → FilePath) (hash : Text → Text) (artifact_root : FilePath)
    (tenants : Dict Text Text) (id key : Text) (x : FilePath × Text)
    → (create_tenant resolve hash artifact_root tenants id key).1 ≡ ok x
    → IsFresh (λ d. d) (hash key) tenants
    → (x.1 ≡ key)
      × (resolve_key hash (create_tenant resolve hash artifact_root tenants id key).0 key ≡ some id)
unfolding create_tenant resolve_key
create_tenant-resolve_key resolve hash artifact_root tenants id key x e f =
    if_split Found (not (is_tenant_id id)) _ _ (λ p g. absurd (cc))
      (λ p.
        if_split Found (contains (keys tenants) id) _ _ (λ q g. absurd (cc))
          (λ q g.
            let (inbox, r, s) = >>=-eq-ok (tenant_inbox resolve artifact_root id) _ g in
            (
              ap (λ y. y.1) (sym (the_ok (inbox, key) x s)),
              ap key_found (find_last-created (λ d. d) (hash key) id (hash key) tenants refl f q),
            )))
      e
  where
    Found : Dict Text Text × Result (FilePath × Text) → Type 0
    Found y = y.1 ≡ ok x → (x.1 ≡ key) × (resolve_key hash y.0 key ≡ some id)
