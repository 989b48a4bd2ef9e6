-- ===== src/Control/Repos/Showing.antt =====
-- What GET /v1/repos/{repoID} says of a repo that was archived (internal/http/repos.go), over the
-- in-memory store.
use gitrdone.Common.{ℕ, ◌≡◌, ◌≢◌, refl, sym, ap, ◌∙◌, true, false, nat_eq, list_eq}
use gitrdone.Common.Dict.{lookup}
use gitrdone.Control.{Check, accept, reject, repo_id_from_path}
use gitrdone.Control.Repos.{
  GetRepoResponse, ArchiveRepoResponse, get_repo_handler, get_checked, write_got,
  archive_repo_handler, archive_checked, write_archived,
}
use gitrdone.Http.{Response, json, write_json, write_error}
use gitrdone.Memory.{MemoryRepoStore, get_repo, archive_repo}
use gitrdone.Memory.Invariant.{Inv}
use gitrdone.Memory.Revocation.{archive-stored}
use gitrdone.Repository.{RepoRecord}
use gitrdone.Result.{Result, ok, err}
use gitrdone.Text.{Bytes}
use gitrdone.Time.{Time, zero_time}

error_not_json :
    {A : Type 0} (status : ℕ) (message : Bytes) (a : A)
    → (write_error {A = A} status message).body ≢ json a
unfolding write_error write_json
error_not_json status message a h = cc

json-injective : {A : Type 0} {a b : A} → json a ≡ json b → a ≡ b
json-injective h = cc

module _ (base_url : Bytes) (format_time : Time → Bytes) (now : Time) where
  abbrev archive : Bytes → MemoryRepoStore → Result (RepoRecord × MemoryRepoStore)
  archive id s = archive_repo id now s

  -- What the two routes answer one after the other: the same repo, archived and then not.
  pub record ShownActive (archived : ArchiveRepoResponse) (shown : Response GetRepoResponse)
      : Type 0 where
    pub body : GetRepoResponse
    pub found : shown.body ≡ json body
    pub same_id : body.id ≡ archived.id
    pub same_name : body.repo ≡ archived.repo
    pub was_archived : archived.archived ≡ true
    pub shown_active : body.archived ≡ false

  found-ShownActive :
      (s s' : MemoryRepoStore) (id : Bytes) (r : RepoRecord) (archived : ArchiveRepoResponse)
      → Inv s
      → now ≢ zero_time
      → archive_repo id now s ≡ ok (r, s')
      → (write_archived format_time s (ok (r, s'))).0.body ≡ json archived
      → ShownActive archived (write_got base_url (get_repo id s'))
  unfolding write_archived write_got get_repo write_json
  found-ShownActive s s' id r archived v nz e h =
      let (is_id, found, _) = archive-stored s s' id now r v nz e in
      rw (ap (λ i. lookup i s'.repos) (sym is_id) ∙ found) (record {
        body = _;
        found = refl;
        same_id = ap (λ (a : ArchiveRepoResponse). a.id) (json-injective h);
        same_name = ap (λ (a : ArchiveRepoResponse). a.repo) (json-injective h);
        was_archived = ap (λ (a : ArchiveRepoResponse). a.archived) (sym (json-injective h));
        shown_active = refl;
      })

  checked-ShownActive :
      (s : MemoryRepoStore) (archived : ArchiveRepoResponse) (c : Check Bytes)
      → Inv s
      → now ≢ zero_time
      → (archive_checked format_time archive s c).0.body ≡ json archived
      → ShownActive archived
          (get_checked base_url get_repo (archive_checked format_time archive s c).1 c)
  unfolding archive_checked get_checked
  checked-ShownActive s archived (reject status message) v nz h =
      absurd (error_not_json status message archived h)
  checked-ShownActive s archived (accept id) v nz h = go (archive_repo id now s) refl h
    where
      go :
          (o : Result (RepoRecord × MemoryRepoStore))
          → archive_repo id now s ≡ o
          → (write_archived format_time s o).0.body ≡ json archived
          → ShownActive archived
              (write_got base_url (get_repo id (write_archived format_time s o).1))
      go (err e) same k = unfold write_archived in absurd (error_not_json 500 _ archived k)
      go (ok (r, s')) same k =
          unfold write_archived in found-ShownActive s s' id r archived v nz same k

  -- On a well-formed store, a repo that the archive route has just answered as archived, at a clock
  -- reading that is not the zero time, is shown by the get route, under the same id and name, as not
  -- archived.
  pub get_repo_handler-ShownActive :
      (s : MemoryRepoStore) (path : Bytes) (archived : ArchiveRepoResponse)
      → Inv s
      → now ≢ zero_time
      → (archive_repo_handler format_time archive path s).0.body ≡ json archived
      → ShownActive archived (
          get_repo_handler base_url get_repo path
            (archive_repo_handler format_time archive path s).1)
  unfolding archive_repo_handler get_repo_handler
  get_repo_handler-ShownActive s path archived v nz h =
      checked-ShownActive s archived (repo_id_from_path path) v nz h
