-- ===== src/Samples/Services.antt =====
-- A small store with two replicas, credentials and tenants, and the theorems on them applied.
use netscope_x.Prelude.{
  ℕ, true, false, Option, none, some, [], ◌∷◌, Text, text, nat_ord, list_ord, length, Dict, keys,
  AreDistinct, lookup, insert, contains, sort_by, place, ok, raise, ◌≡◌, ◌≢◌, refl, ap, arith,
}
use netscope_x.Service.Names.{starts_with, has_part, last_name}
use netscope_x.Service.Storage.Roots.{Hashing, File, Root, is_commit_marker, by_commit, files_of}
use netscope_x.Service.Storage.Commit.{
  status_of, is_stale, mirror_files, finish, mirror, commit, committed, sorted_files, verify,
}
use netscope_x.Service.Storage.Steps.{Matches}
use netscope_x.Service.Storage.Order.{mirror-data_first}
use netscope_x.Service.Storage.Hashes.{verify-committed}
use netscope_x.Service.Storage.Quorum.{Promise, commit-Promise}
use netscope_x.Service.Credentials.{
  Principal, Store, create, revoke, authenticate, Request, get_principal, partition, is_bearer,
  lower, strip_left, find_last, admit,
}
use netscope_x.Service.Credentials.Lifetime.{revoke-authenticate, create-authenticate}
use netscope_x.Service.Credentials.Guard.{Passes, get_principal-Grants}
use netscope_x.Service.Tenants.{
  FilePath, is_tenant_id, parent, join, TenantScope, Settings, validate_tenant_id, tenant_root,
  tenant_inbox, tenant_of, resolve_key, create_tenant, get_tenant_scope,
}
use netscope_x.Service.Tenants.Ids.{Bounded, validate_tenant_id-bounds}
use netscope_x.Service.Tenants.Scopes.{
  IsScopeOf, get_tenant_scope-IsScopeOf, get_tenant_scope-isolated, create_tenant-resolve_key,
}

-- contents are texts, and each is its own digest
abbrev pub plain : Hashing Text
plain = record { size = length; digest = λ c. c }

abbrev pub primary : Root Text
primary = record {
  files =
      (text "c/manifest.json", record { content = text "m2"; mtime = 5 })
      ∷ (text "c/flows.json", record { content = text "f2"; mtime = 5 })
      ∷ [];
  recorded = none;
}

abbrev pub replica : Root Text
replica = record {
  files =
      (text "c/manifest.json", record { content = text "m1"; mtime = 2 })
      ∷ (text "c/flows.json", record { content = text "f1"; mtime = 2 })
      ∷ [];
  recorded = none;
}

-- a process that is killed before it writes the hashes has copied the flows and the manifest
abbrev cut : Root Text
cut = (mirror plain primary [] (sorted_files plain primary none) 2 replica).0

mtime_of : Option (File Text) → ℕ
mtime_of none = 0
mtime_of (some f) = f.mtime

changed : lookup (text "c/manifest.json") cut.files ≢ lookup (text "c/manifest.json") replica.files
unfolding mtime_of mirror mirror_files finish status_of is_stale files_of is_commit_marker by_commit
    starts_with has_part last_name sort_by place lookup insert
changed e = absurd (omega (arith, ap (λ (o : Option (File Text)). mtime_of o) e))

is_marker : is_commit_marker (text "c/manifest.json") ≡ true
unfolding is_commit_marker has_part last_name starts_with
is_marker = refl

is_data : is_commit_marker (text "c/flows.json") ≡ false
unfolding is_commit_marker has_part last_name starts_with
is_data = refl

is_listed : contains (sorted_files plain primary none) (text "c/flows.json") ≡ true
unfolding files_of is_commit_marker by_commit starts_with has_part last_name sort_by place
is_listed = refl

mirror-data_first_example : Matches plain primary cut (text "c/flows.json")
mirror-data_first_example =
    mirror-data_first plain primary none [] 2 replica (text "c/manifest.json") (text "c/flows.json")
      is_marker is_data is_listed changed

verify-committed_example :
    verify plain (committed plain primary (sorted_files plain primary none)) ≡ []
verify-committed_example = verify-committed plain primary

commit-Promise_example :
    Promise plain 1 none primary
      ((1, replica) ∷ (9, replica) ∷ [])
      (commit plain true 1 none primary ((1, replica) ∷ (9, replica) ∷ []))
commit-Promise_example = commit-Promise plain 1 none primary ((1, replica) ∷ (9, replica) ∷ [])

-- the digest of a token: here the token itself
abbrev same : Text → Text
same t = t

abbrev registered : Store
registered =
    (
      text "ops",
      record {
        hash = text "t1";
        role = text "operator";
        tenant_id = some (text "acme");
        revoked = false;
        expires_at = some 100;
      },
    )
    ∷ (
      text "viewer",
      record {
        hash = text "t2";
        role = text "reader";
        tenant_id = none;
        revoked = false;
        expires_at = none;
      },
    )
    ∷ []

registered-AreDistinct : AreDistinct (keys registered)
registered-AreDistinct = (refl, (refl, tt))

abbrev after_revoke : Store
after_revoke = elim (revoke registered (text "ops")) [ ok d ↦ d | raise e ↦ [] ]

abbrev viewer : Principal
viewer = record { credential_id = text "viewer"; role = text "reader"; tenant_id = none }

revoked_ok : revoke registered (text "ops") ≡ ok after_revoke
unfolding revoke lookup insert sort_by place
revoked_ok = refl

viewer_ok : authenticate same after_revoke (text "t2") 7 ≡ some viewer
unfolding revoke lookup insert sort_by place authenticate find_last admit
viewer_ok = refl

revoke-authenticate_example : text "viewer" ≢ text "ops"
revoke-authenticate_example =
    revoke-authenticate same registered after_revoke (text "ops") (text "t2") 7 viewer
      registered-AreDistinct revoked_ok viewer_ok

abbrev after_create : Store
after_create =
    elim (create same registered (text "bot") (text "reader") none (some 50) (text "t3")) [
      | ok x ↦ x.0
      | raise e ↦ []
    ]

created_ok :
    create same registered (text "bot") (text "reader") none (some 50) (text "t3")
    ≡ ok (after_create, text "t3")
unfolding create insert sort_by place
created_ok = refl

create-authenticate_example :
    authenticate same after_create (text "t3") 20
    ≡ some (record { credential_id = text "bot"; role = text "reader"; tenant_id = none })
create-authenticate_example =
    create-authenticate same registered after_create (text "bot") (text "reader") none (some 50)
      (text "t3") (text "t3") 20 created_ok (refl, (refl, tt)) refl

abbrev post : Request
post = record { authorization = some (text "Bearer t1"); method = text "POST" }

abbrev ops : Principal
ops = record { credential_id = text "ops"; role = text "operator"; tenant_id = some (text "acme") }

post_ok : get_principal same true registered 7 post ≡ ok (some ops)
unfolding get_principal partition is_bearer lower strip_left authenticate find_last admit
post_ok = refl

get_principal-Grants_example : Passes same registered 7 post (some ops)
get_principal-Grants_example =
    get_principal-Grants same registered 7 post (some ops) registered-AreDistinct post_ok

acme_ok : validate_tenant_id (text "acme") ≡ ok (text "acme")
unfolding is_tenant_id
acme_ok = refl

validate_tenant_id-bounds_example : Bounded (text "acme")
validate_tenant_id-bounds_example = validate_tenant_id-bounds (text "acme") (text "acme") acme_ok

-- a file system without links
abbrev no_links : FilePath → FilePath
no_links p = p

abbrev shared : Settings
shared = record {
  tenancy_enabled = true;
  artifact_root = text "data" ∷ [];
  upload_staging_dir = text "staging" ∷ [];
}

abbrev keyed : Dict Text Text
keyed = (text "acme", text "k1") ∷ (text "zeta", text "k2") ∷ []

abbrev scope_for : Text → TenantScope
scope_for id =
    let root = text "data" ∷ text "tenants" ∷ id ∷ [] in
    record { tenant_id = some id; root = root; inbox = join root (text "inbox") }

zeta_ok :
    get_tenant_scope no_links same shared keyed (some (text "k2")) none
    ≡ ok (scope_for (text "zeta"))
unfolding get_tenant_scope tenant_of tenant_root tenant_inbox is_tenant_id parent resolve_key
    find_last
zeta_ok = refl

acme_scope_ok :
    get_tenant_scope no_links same shared keyed none (some ops) ≡ ok (scope_for (text "acme"))
unfolding get_tenant_scope tenant_of tenant_root tenant_inbox is_tenant_id parent
acme_scope_ok = refl

get_tenant_scope-IsScopeOf_example :
    (id : Text) × IsScopeOf no_links same shared keyed
      (some (text "k2"))
      none
      (scope_for (text "zeta"))
      id
get_tenant_scope-IsScopeOf_example =
    get_tenant_scope-IsScopeOf no_links same shared keyed (some (text "k2")) none
      (scope_for (text "zeta")) (refl, (refl, tt)) refl zeta_ok

acme_key_ok :
    get_tenant_scope no_links same shared keyed (some (text "k1")) none
    ≡ ok (scope_for (text "acme"))
unfolding get_tenant_scope tenant_of tenant_root tenant_inbox is_tenant_id parent resolve_key
    find_last
acme_key_ok = refl

get_tenant_scope-isolated_example : (scope_for (text "acme")).tenant_id ≡ some (text "acme")
get_tenant_scope-isolated_example =
    get_tenant_scope-isolated no_links same shared keyed none (some (text "k1")) (some ops) none
      (scope_for (text "acme")) (scope_for (text "acme")) (λ id h. refl) (refl, (refl, tt)) refl
      acme_scope_ok acme_key_ok refl

new_tenant_ok :
    (create_tenant no_links same (text "data" ∷ []) keyed (text "beta") (text "k3")).1
    ≡ ok (text "data" ∷ text "tenants" ∷ text "beta" ∷ text "inbox" ∷ [], text "k3")
unfolding create_tenant tenant_inbox tenant_root is_tenant_id parent
new_tenant_ok = refl

create_tenant-resolve_key_example :
    (text "k3" ≡ text "k3")
    × (resolve_key same
          (create_tenant no_links same (text "data" ∷ []) keyed (text "beta") (text "k3")).0
          (text "k3")
        ≡ some (text "beta"))
create_tenant-resolve_key_example =
    create_tenant-resolve_key no_links same (text "data" ∷ []) keyed (text "beta") (text "k3")
      (text "data" ∷ text "tenants" ∷ text "beta" ∷ text "inbox" ∷ [], text "k3") new_tenant_ok
      (refl, (refl, tt))
