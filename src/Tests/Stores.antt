-- ===== src/Tests/Stores.antt =====
-- A store with one repo and one token, and the operations on it.
use gitrdone.Common.{
  ℕ, ◌≡◌, ◌≢◌, refl, ◌↔◌, ◌⊎◌, ◌∷◌, ◌++◌, suc, [], true, false, none, some, equal, list_eq, nat_eq,
  pair_eq, ◌==◌, if◌then◌else◌, arith,
}
use gitrdone.Common.Dict.{lookup, insert}
use gitrdone.Common.Int.{pos, ◌<ℤ◌, ◌+ℤ◌, wrap64}
use gitrdone.Idempotency.{
  IdempotencyResult, IdempotencyRecord, lookup_key, do_once, new_memory_idempotency_store,
}
use gitrdone.Idempotency.Replay.{Call, call, run, call-once}
use gitrdone.Memory.{
  MemoryRepoStore, World, new_memory_repo_store, name_key, add_repo, put_repo, add_token, put_token,
  stored_token, repo_or_zero, token_record, create_repo, create_repo_token, archive_repo,
  revoke_repo_token, authorize_git_access,
}
use gitrdone.Memory.Access.{readwrite_read, Grants, used, authorize_git_access_iff}
use gitrdone.Memory.Creation.{
  Creates, create_repo-cases, create_repo-again, Mints, create_repo_token-cases,
}
use gitrdone.Memory.History.{creates, here, next, Steps-new-Inv}
use gitrdone.Memory.Invariant.{Inv, new_memory_repo_store-Inv, add_repo-Inv, add_token-Inv}
use gitrdone.Memory.Minting.{create_repo_token-authorize}
use gitrdone.Memory.Revocation.{revoke-forever, archive-forever}
use gitrdone.Repository.{
  CreateRepoInput, CreateRepoTokenInput, RevokeRepoTokenInput, AuthorizeGitAccessInput,
  GitAccessGrant, RepoRecord, RepoTokenRecord, GitStorage,
}
use gitrdone.Result.{repo_archived, idempotency_conflict, ok, err}
use gitrdone.Secrets.{hash_repo_token, hex_encode, token_of, uuid_of}
use gitrdone.Text.{Bytes, codes}
use gitrdone.Time.{Time, zero_time, seconds, before}

-- a disk that has every repo
abbrev pub disk : GitStorage (Unit {0})
disk = record {
  init_bare_repo = λ files id branch. (files, none);
  delete_bare_repo = λ files id. (files, none);
  bare_repo_path = λ files id. ok (codes "/git/" ++ id);
}

-- a hash that keeps texts apart
abbrev pub hash : Bytes → Bytes
hash text = text

abbrev pub repo_uuid : Bytes
repo_uuid = codes "0b5c9d8e-1f2a-4c3b-9d4e-5f60718293a4"

abbrev pub demo_repo : RepoRecord
demo_repo = record {
  id = repo_uuid;
  namespace = codes "team";
  name = codes "demo";
  default_branch = codes "main";
  archived_at = zero_time;
}

abbrev pub demo_token : RepoTokenRecord
demo_token = record {
  id = codes "t1";
  repo_id = repo_uuid;
  repo_namespace = codes "team";
  repo_name = codes "demo";
  token = codes "t";
  token_hash = codes "74";
  scope = codes "readwrite";
  subject = codes "ci";
  expires_at = pos 100;
  created_at = pos 1;
  revoked_at = zero_time;
  last_used_at = zero_time;
}

abbrev pub repo_store : MemoryRepoStore
repo_store = add_repo demo_repo new_memory_repo_store

abbrev pub token_store : MemoryRepoStore
token_store = add_token demo_token repo_store

pub repo_store-Inv : Inv repo_store
unfolding lookup
repo_store-Inv = add_repo-Inv new_memory_repo_store-Inv demo_repo refl refl

pub token_store-Inv : Inv token_store
unfolding lookup insert equal
token_store-Inv = add_token-Inv repo_store-Inv demo_token refl refl (demo_repo, refl)

abbrev access : AuthorizeGitAccessInput
access = record { repo_id = repo_uuid; token = codes "t"; operation = codes "read" }

abbrev grant : GitAccessGrant
grant = record { repo_id = repo_uuid; repo_path = codes "/git/" ++ repo_uuid; subject = codes "ci" }

abbrev used_store : MemoryRepoStore
used_store = put_token (used (pos 5) (stored_token demo_token)) token_store

access-granted :
    authorize_git_access disk hash access (pos 5) tt token_store ≡ ok (grant, used_store)
unfolding authorize_git_access lookup insert equal gitrdone.Time.is_zero hash_repo_token hex_encode
    before gitrdone.Repository.scope_allows_git_operation
access-granted = refl

authorize_git_access_iff_example :
    (authorize_git_access disk hash access (pos 5) tt token_store ≡ ok (grant, used_store))
    ↔ Grants disk hash token_store access (pos 5) tt grant used_store
authorize_git_access_iff_example =
    authorize_git_access_iff disk hash token_store access (pos 5) tt grant used_store
      token_store-Inv

abbrev pub world_of : MemoryRepoStore → World (Unit {0})
world_of store = record {
  store = store;
  files = tt;
  reads = some (codes "first") ∷ some (codes "second") ∷ [];
}

abbrev revoked_token : RepoTokenRecord
revoked_token = record (stored_token demo_token) { revoked_at = pos 7 }

abbrev revoked_world : World (Unit {0})
revoked_world = world_of (put_token revoked_token token_store)

abbrev revocation : RevokeRepoTokenInput
revocation = record { repo_id = repo_uuid; token_id = codes "t1" }

token-revoked :
    revoke_repo_token revocation (pos 7) token_store ≡ ok (revoked_token, revoked_world.store)
unfolding revoke_repo_token lookup insert equal gitrdone.Time.is_zero
token-revoked = refl

hash-same : hash_repo_token hash (access.token) ≡ revoked_token.token_hash
unfolding hash_repo_token hex_encode
hash-same = refl

pub seven-nonzero : pos 7 ≢ zero_time
seven-nonzero e = cc

revoke-forever_example :
    authorize_git_access disk hash access (pos 9) tt revoked_world.store ≢ ok (grant, used_store)
revoke-forever_example =
    revoke-forever disk hash token_store revoked_world revoked_world revocation (pos 7)
      revoked_token access (pos 9) tt (grant, used_store) token_store-Inv seven-nonzero
      token-revoked here hash-same

abbrev archived_repo : RepoRecord
archived_repo = record demo_repo { archived_at = pos 7 }

abbrev archived_world : World (Unit {0})
archived_world = world_of (put_repo archived_repo token_store)

repo-archived :
    archive_repo repo_uuid (pos 7) token_store ≡ ok (archived_repo, archived_world.store)
unfolding archive_repo lookup insert equal gitrdone.Time.is_zero
repo-archived = refl

archive-forever_example :
    authorize_git_access disk hash access (pos 9) tt archived_world.store ≡ err repo_archived
archive-forever_example =
    archive-forever disk hash token_store archived_world archived_world repo_uuid (pos 7)
      archived_repo access (pos 9) tt token_store-Inv seven-nonzero repo-archived here refl

abbrev demo_input : CreateRepoInput
demo_input = record { namespace = codes "team"; name = codes "demo"; default_branch = codes "main" }

abbrev new_world : World (Unit {0})
new_world = world_of new_memory_repo_store

none-stored : (r : RepoRecord) → lookup r.id new_world.store.repos ≡ none
unfolding lookup
none-stored r = refl

Steps-new-Inv_example : Inv ((create_repo disk demo_input new_world).1).store
Steps-new-Inv_example =
    Steps-new-Inv disk hash new_world (create_repo disk demo_input new_world).1 refl
      (next here (creates demo_input (λ r a. none-stored r) refl))

create_repo-cases_example :
    ((id : Bytes) × (lookup (name_key (codes "team") (codes "demo")) new_world.store.by_name
        ≡ some id)
      × (create_repo disk demo_input new_world
          ≡ (ok (repo_or_zero (lookup id new_world.store.repos)), new_world)))
    ⊎ Creates disk demo_input new_world (create_repo disk demo_input new_world)
create_repo-cases_example = create_repo-cases disk demo_input new_world

abbrev again_input : CreateRepoInput
again_input = record demo_input { default_branch = codes "other" }

demo-found : (create_repo disk demo_input (world_of repo_store)).0 ≡ ok demo_repo
unfolding create_repo lookup insert equal
demo-found = refl

create_repo-again_example :
    create_repo disk again_input (create_repo disk demo_input (world_of repo_store)).1
    ≡ (ok demo_repo, (create_repo disk demo_input (world_of repo_store)).1)
create_repo-again_example =
    create_repo-again disk demo_input again_input (world_of repo_store) demo_repo repo_store-Inv
      demo-found refl refl

abbrev pub token_request : CreateRepoTokenInput
token_request = record {
  repo_id = repo_uuid;
  scope = codes "readwrite";
  subject = codes "ci";
  ttl_seconds = pos 60;
}

create_repo_token-cases_example :
    Mints hash token_request
      (pos 3)
      (world_of repo_store)
      (create_repo_token hash token_request (pos 3) (world_of repo_store))
create_repo_token-cases_example =
    create_repo_token-cases hash token_request (pos 3) (world_of repo_store)

abbrev pub minted : RepoTokenRecord
minted =
    token_record hash token_request demo_repo (pos 3) (token_of (codes "first"))
      (uuid_of (codes "second"))

minted-made : (create_repo_token hash token_request (pos 3) (world_of repo_store)).0 ≡ ok minted
unfolding create_repo_token lookup insert equal gitrdone.Memory.draw_token
    gitrdone.Secrets.generate_repo_token gitrdone.Secrets.new_uuid gitrdone.Secrets.draw
minted-made = refl

minted-early : pos 9 <ℤ minted.expires_at
unfolding seconds wrap64 ◌+ℤ◌
minted-early = omega arith

no_tokens : lookup minted.id repo_store.tokens ≡ none
unfolding lookup
no_tokens = refl

demo-stored : lookup repo_uuid repo_store.repos ≡ some demo_repo
unfolding lookup insert equal
demo-stored = refl

create_repo_token-authorize_example :
    let s = (create_repo_token hash token_request (pos 3) (world_of repo_store)).1.store in
    authorize_git_access disk hash
      (record { repo_id = repo_uuid; token = minted.token; operation = codes "read" })
      (pos 9)
      tt
      s
    ≡ ok (grant, put_token (used (pos 9) (stored_token minted)) s)
create_repo_token-authorize_example =
    create_repo_token-authorize disk hash token_request (pos 3) (pos 9) (world_of repo_store)
      demo_repo minted (codes "read") (codes "/git/" ++ repo_uuid) tt repo_store-Inv minted-made
      no_tokens demo-stored refl minted-early (readwrite_read refl refl) refl

-- a call that counts how often it creates
abbrev counted : Time → Call Bytes ℕ
counted now = record {
  context = none;
  input = record { scope = codes "POST"; key = codes "k1"; request_hash = codes "h" };
  now = now;
  create = λ n. (ok (codes "made"), suc n);
}

counted-made :
    (call (counted (pos 1)) [] 0).0 ≡ ok (record { response = codes "made"; replayed = false })
unfolding do_once lookup equal
counted-made = refl

counted-live : before (pos 2) (pos 1 +ℤ gitrdone.Idempotency.default_idempotency_record_ttl) ≡ true
unfolding before ◌+ℤ◌
counted-live = ground arith

call-once_example :
    let first = call (counted (pos 1)) [] 0 in
    let middle = run [] first.1 first.2 in
    call (counted (pos 2)) middle.0 middle.1 ≡ (
      if codes "h" == codes "h"
          then ok (record { response = codes "made"; replayed = true })
          else err idempotency_conflict,
      middle.0,
      middle.1,
    )
call-once_example =
    call-once (counted (pos 1)) (counted (pos 2)) [] [] 0
      (record { response = codes "made"; replayed = false }) (λ e. cc) counted-made refl tt
      (record { alive = refl; same_scope = refl; same_key = refl }) counted-live
