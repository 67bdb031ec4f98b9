-- ===== src/Service/Tenants.antt =====
-- backend/app/tenancy: the ids of tenants, their directories, their registry, and the scope of a request.
-- A path is the list of its components.
pub mod Ids
pub mod Scopes
use netscope_x.Prelude.{
  ℕ, suc, Bool, true, false, not, Option, none, some, List, [], ◌∷◌, ◌++◌, ◌&&◌, ◌||◌, Text, text,
  ◌==◌, nat_ord, list_ord, option_ord, if◌then◌else◌, leb, length, all, Dict, keys, contains,
  insert, Result, ok, raise, or_raise, check, ◌>>=◌, ◌>>◌, value_error, tenant_access_error,
}
use netscope_x.Service.Credentials.{Principal, save, find_last}

-- `[a-z0-9]` and `[a-z0-9_-]`
abbrev pub is_alnum : ℕ → Bool
is_alnum c = (leb 97 c && leb c 122) || (leb 48 c && leb c 57)

abbrev pub is_id_char : ℕ → Bool
is_id_char c = is_alnum c || c == 95 || c == 45

-- `_TENANT_ID.fullmatch(tenant_id)`
unfoldable pub is_tenant_id : Text → Bool
is_tenant_id [] = false
is_tenant_id (c ∷ t) = is_alnum c && all is_id_char t && leb 1 (length t) && leb (length t) 62

abbrev pub validate_tenant_id : Text → Result Text
validate_tenant_id t = if is_tenant_id t then ok t else raise value_error

abbrev pub FilePath : Type 0
FilePath = List Text

-- `p / name`
abbrev pub join : FilePath → Text → FilePath
join p name = p ++ name ∷ []

-- `p.parent`
unfoldable pub parent : FilePath → FilePath
parent [] = []
parent (c ∷ []) = []
parent (c ∷ d ∷ p) = c ∷ parent (d ∷ p)

module _ (resolve : FilePath → FilePath) where
  unfoldable pub tenant_root : FilePath → Text → Result FilePath
  unfolding parent is_tenant_id
  tenant_root artifact_root tenant_id = do
    checked ← validate_tenant_id tenant_id
    let base = resolve (join artifact_root (text "tenants"))
    let root = resolve (join base tenant_id)
    if parent root == base then ok root else raise value_error

  unfoldable pub tenant_inbox : FilePath → Text → Result FilePath
  unfolding tenant_root
  tenant_inbox artifact_root tenant_id = do
    root ← tenant_root artifact_root tenant_id
    ok (join root (text "inbox"))

  -- `create_tenant` with the registry `tenants` and the new random key: the registry afterwards, and the
  -- key, with the directory that is made
  unfoldable pub create_tenant :
      (Text → Text)
      → FilePath
      → Dict Text Text
      → Text
      → Text
      → Dict Text Text × Result (FilePath × Text)
  unfolding tenant_inbox
  create_tenant hash artifact_root tenants tenant_id key =
      if not (is_tenant_id tenant_id)
      then (tenants, raise value_error)
      else if contains (keys tenants) tenant_id
      then (tenants, raise value_error)
      else (
        save (insert tenant_id (hash key) tenants),
        tenant_inbox artifact_root tenant_id >>= (λ inbox. ok (inbox, key)),
      )

abbrev pub key_found : Option (Text × Text) → Option Text
key_found none = none
key_found (some e) = some e.0

unfoldable pub resolve_key : (Text → Text) → Dict Text Text → Text → Option Text
unfolding find_last
resolve_key hash tenants key = key_found (find_last (λ d. d) (hash key) none tenants)

pub record TenantScope : Type 0 where
  pub tenant_id : Option Text
  pub root : FilePath
  pub inbox : FilePath

-- the settings that the scope depends on
pub record Settings : Type 0 where
  pub tenancy_enabled : Bool
  pub artifact_root : FilePath
  pub upload_staging_dir : FilePath

-- the tenant that a request names
unfoldable pub tenant_of :
    (Text → Text) → Dict Text Text → Option Text → Option Principal → Result Text
unfolding resolve_key
tenant_of hash tenants x_tenant_key (some p) = or_raise tenant_access_error p.tenant_id
tenant_of hash tenants none none = raise tenant_access_error
tenant_of hash tenants (some []) none = raise tenant_access_error
tenant_of hash tenants (some (c ∷ key)) none =
    or_raise tenant_access_error (resolve_key hash tenants (c ∷ key))

-- The attribute `request.state.scope_root`, which it also sets, is the root of the scope that it returns.
unfoldable pub get_tenant_scope :
    (FilePath → FilePath)
    → (Text → Text)
    → Settings
    → Dict Text Text
    → Option Text
    → Option Principal
    → Result TenantScope
unfolding tenant_of tenant_root tenant_inbox
get_tenant_scope resolve hash settings tenants x_tenant_key principal =
    if not settings.tenancy_enabled
    then ok (record {
      tenant_id = none;
      root = settings.artifact_root;
      inbox = settings.upload_staging_dir;
    })
    else do
      tenant_id ← tenant_of hash tenants x_tenant_key principal
      root ← tenant_root resolve settings.artifact_root tenant_id
      inbox ← tenant_inbox resolve settings.artifact_root tenant_id
      ok (record { tenant_id = some tenant_id; root = root; inbox = inbox })
