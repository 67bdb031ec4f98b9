-- ===== src/Service/Credentials.antt =====
-- `CredentialStore` of backend/app/auth/store.py and `get_principal` of backend/app/auth/deps.py. The
-- file of the store is the dict that it holds; an instant is a number.
pub mod Saving
pub mod Search
pub mod Lifetime
pub mod Guard
use mathlib.Core.List.{reverse}
use netscope_x.Prelude.{
  ℕ, ◌+◌, Bool, true, false, not, Option, none, some, List, [], ◌∷◌, ◌++◌, ◌&&◌, ◌||◌, Text, text,
  ◌==◌, ◌<=◌, nat_ord, list_ord, if◌then◌else◌, ltb, leb, Dict, keys, contains, lookup, insert,
  sort_by, any, Result, ok, raise, or_raise, ◌>>=◌, value_error, key_error, authentication_error,
  authorization_error,
}

pub record Credential : Type 0 where
  pub hash : Text
  pub role : Text
  pub tenant_id : Option Text
  pub revoked : Bool
  pub expires_at : Option ℕ

pub record Principal : Type 0 where
  pub credential_id : Text
  pub role : Text
  pub tenant_id : Option Text

abbrev pub Store : Type 0
Store = Dict Text Credential

-- `ROLE_RANK.get(role)`
abbrev pub rank_of : Text → Option ℕ
rank_of role =
    if role == text "reader" then some 1 else if role == text "operator" then some 2 else none

abbrev pub is_some_rank : Option ℕ → Bool
is_some_rank none = false
is_some_rank (some n) = true

abbrev pub key_le : {A : Type 0} → Text × A → Text × A → Bool
key_le a b = a.0 <= b.0

-- `_save` and then `_load`: the keys are sorted
abbrev pub save : {A : Type 0} → Dict Text A → Dict Text A
save d = sort_by key_le d

-- `hash` is SHA-256, and `token` is the new random token
unfoldable pub create :
    (Text → Text) → Store → Text → Text → Option Text → Option ℕ → Text → Result (Store × Text)
create hash store credential_id role tenant_id expires_at token =
    if not (is_some_rank (rank_of role))
    then raise value_error
    else if contains (keys store) credential_id
    then raise value_error
    else ok (
      save (
          insert credential_id
            (record {
              hash = hash token;
              role = role;
              tenant_id = tenant_id;
              revoked = false;
              expires_at = expires_at;
            })
            store),
      token,
    )

unfoldable pub revoke : Store → Text → Result Store
revoke store credential_id =
    or_raise key_error (lookup credential_id store)
    >>= (λ c. ok (save (insert credential_id (record c { revoked = true }) store)))

-- the loop of `authenticate`, and of `resolve_key`: the last entry that has the digest
unfoldable pub find_last :
    {A : Type 0} → (A → Text) → Text → Option (Text × A) → Dict Text A → Option (Text × A)
find_last hash_of digest found [] = found
find_last hash_of digest found ((cid, c) ∷ entries) =
    find_last hash_of digest (if hash_of c == digest then some (cid, c) else found) entries

abbrev pub is_expired : ℕ → Option ℕ → Bool
is_expired now none = false
is_expired now (some t) = leb t now

unfoldable pub admit : ℕ → Option (Text × Credential) → Option Principal
admit now none = none
admit now (some (cid, c)) =
    if c.revoked
    then none
    else if is_expired now c.expires_at
    then none
    else some (record { credential_id = cid; role = c.role; tenant_id = c.tenant_id })

unfoldable pub authenticate : (Text → Text) → Store → Text → ℕ → Option Principal
unfolding find_last admit
authenticate hash store token now = admit now (find_last (λ c. c.hash) (hash token) none store)

-- `partition(" ")`, without the separator
unfoldable pub partition : Text → Text × Text
partition [] = ([], [])
partition (c ∷ t) = let (a, b) = partition t in if c == 32 then ([], t) else (c ∷ a, b)

-- `lower()` on a header, which is latin-1: none of its other characters has an ASCII lower case
unfoldable pub lower : Text → Text
lower [] = []
lower (c ∷ t) = (if leb 65 c && leb c 90 then c + 32 else c) ∷ lower t

-- the white space of latin-1
abbrev pub is_space : ℕ → Bool
is_space c = (leb 9 c && leb c 13) || (leb 28 c && leb c 32) || c == 133 || c == 160

unfoldable pub strip_left : Text → Text
strip_left [] = []
strip_left (c ∷ t) = if is_space c then strip_left t else c ∷ t

-- `strip()`
abbrev pub strip : Text → Text
strip t = reverse (strip_left (reverse (strip_left t)))

abbrev pub is_safe : Text → Bool
is_safe m = m == text "GET" || m == text "HEAD" || m == text "OPTIONS"

-- the parts of the settings and of a request that the guard reads
pub record Request : Type 0 where
  pub authorization : Option Text
  pub method : Text

abbrev pub needed_for : Text → Text
needed_for m = if is_safe m then text "reader" else text "operator"

abbrev pub header_of : Option Text → Text
header_of none = []
header_of (some t) = t

unfoldable pub is_bearer : Text × Text → Bool
unfolding lower strip_left
is_bearer (scheme, token) = lower scheme == text "bearer" && not (strip token == [])

unfoldable pub get_principal :
    (Text → Text) → Bool → Store → ℕ → Request → Result (Option Principal)
unfolding partition is_bearer authenticate strip_left
get_principal hash false store now request = ok none
get_principal hash true store now request =
    let header = partition (header_of request.authorization) in
    if not (is_bearer header) then raise authentication_error else do
      p ← or_raise authentication_error (authenticate hash store (strip header.1) now)
      have ← or_raise key_error (rank_of p.role)
      need ← or_raise key_error (rank_of (needed_for request.method))
      if ltb have need then raise authorization_error else ok (some p)
