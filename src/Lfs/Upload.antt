-- ===== src/Lfs/Upload.antt =====
-- Uploads through `serveLFSUpload` of internal/http/git_lfs.go into the store of
-- internal/http/git_lfs_storage.go.
use gitrdone.Common.{
  ℕ, suc, ◌+◌, ◌^◌, ◌<◌, ◌≤◌, ◌≡◌, refl, sym, ap, ◌∙◌, subst, Option, none, some, List, ltb, arith,
  Bool-cases, inl, inr, length,
}
use gitrdone.Common.Int.{ℤ, pos, pos_part, ltb_ℤ}
use gitrdone.Lfs.Handler.{
  lfs_access_input, serve_lfs_upload, upload_at, put_answer, granted, max_bytes_reader,
  write_put_error,
}
use gitrdone.Lfs.Protocol.{LfsRequest, parse_lfs_oid, write_lfs_json}
use gitrdone.Lfs.Refusal.{access_error-status}
use gitrdone.Lfs.Store.{
  LfsError, lfs_object_not_found, lfs_object_invalid, lfs_object_too_large, max_bytes, other_error,
  LfsResult, done, failed, Reader, LfsObjectStore, FileSystem, filesystem_lfs_object_store,
  object_path, put, normalize_max_lfs_object_bytes,
}
use gitrdone.Lfs.Stored.{Stored, put-Stored}
use gitrdone.Repository.{AuthorizeGitAccessInput, GitAccessGrant, git_operation_write}
use gitrdone.Result.{Result, ok, err}
use gitrdone.Text.{Bytes}

put_error-status : (e : LfsError) → 400 ≤ (write_put_error e).status
unfolding write_put_error write_lfs_json
put_error-status max_bytes = omega arith
put_error-status lfs_object_too_large = omega arith
put_error-status lfs_object_invalid = omega arith
put_error-status lfs_object_not_found = omega arith
put_error-status (other_error e) = omega arith

not-200 : (n : ℕ) → 400 ≤ n → n ≡ 200 → ⊥
not-200 n h e = omega arith

-- a body that was read to its end was not cut
max_bytes_reader-whole :
    (n : ℤ) (r : Reader) → (max_bytes_reader n r).failure ≡ none → max_bytes_reader n r ≡ r
unfolding max_bytes_reader
max_bytes_reader-whole n r h = elim (Bool-cases (ltb (pos_part n) (length r.bytes))) [
  | inl long ↦ absurd (let cut = rw long at h in cc)
  | inr short ↦ rw short refl
]

normalize-pos : (n : ℕ) → normalize_max_lfs_object_bytes (pos (suc n)) ≡ pos (suc n)
unfolding normalize_max_lfs_object_bytes
normalize-pos n = ground arith

module _ {S Files : Type 0} (authorize : AuthorizeGitAccessInput → S → Result (GitAccessGrant × S))
    (fs : FileSystem Files) (join : List Bytes → Bytes) (dir : Bytes → Bytes)
    (sha256 : Bytes → Bytes) (root : Bytes) where
  -- an upload that was granted and stored
  pub record Uploaded (r : LfsRequest) (repo_id : Bytes) (limit : ℕ) (s s' : S) (files' : Files)
      : Type 0 where
    pub grant : GitAccessGrant
    pub is_granted :
        authorize
          (lfs_access_input authorize
            (filesystem_lfs_object_store fs join dir sha256 root)
            r
            repo_id
            git_operation_write)
          s
        ≡ ok (grant, s')
    pub oid : Bytes
    pub is_oid : parse_lfs_oid r.oid ≡ some oid
    pub stored :
        Stored fs sha256
          (object_path fs join dir sha256 root grant.repo_id oid)
          (dir (object_path fs join dir sha256 root grant.repo_id oid))
          oid
          r.content_length
          limit
          r.body
          files'

  put_answer-done :
      (out : LfsResult (Unit {0}) × Files)
      → (put_answer authorize (filesystem_lfs_object_store fs join dir sha256 root) out).0.status
        ≡ 200
      → out ≡ (
        done tt,
        (put_answer authorize (filesystem_lfs_object_store fs join dir sha256 root) out).1,
      )
  put_answer-done (failed e, files) h = absurd (not-200 _ (put_error-status e) h)
  put_answer-done (done u, files) h = refl

  abbrev store : LfsObjectStore Files
  store = filesystem_lfs_object_store fs join dir sha256 root

  upload_at-put :
      (r : LfsRequest) (limit : ℤ) (files : Files) (grant : GitAccessGrant) (oid : Bytes)
      → (upload_at authorize store r limit files grant (some oid)).0.status ≡ 200
      → upload_at authorize store r limit files grant (some oid)
        ≡ put_answer authorize store (
            put fs join dir sha256 root none grant.repo_id oid r.content_length limit
              (max_bytes_reader limit r.body)
              files)
  unfolding upload_at write_lfs_json
  upload_at-put r limit files grant oid h = elim (Bool-cases (ltb_ℤ r.content_length (pos 0))) [
    | inl negative ↦ absurd (not-200 411 (omega arith) (rw negative at h))
    | inr counted ↦ elim (Bool-cases (ltb_ℤ limit r.content_length)) [
      | inl large ↦ absurd (not-200 413 (omega arith) (rw (counted, large) at h))
      | inr small ↦ rw (counted, small) refl
    ]
  ]

  upload_at-Stored :
      (r : LfsRequest) (n : ℕ) (files : Files) (grant : GitAccessGrant) (oid : Bytes)
      → suc n + 1 < 2 ^ 63
      → (upload_at authorize store r (pos (suc n)) files grant (some oid)).0.status ≡ 200
      → Stored fs sha256
          (object_path fs join dir sha256 root grant.repo_id oid)
          (dir (object_path fs join dir sha256 root grant.repo_id oid))
          oid
          r.content_length
          (suc n)
          r.body
          (upload_at authorize store r (pos (suc n)) files grant (some oid)).1
  upload_at-Stored r n files grant oid fits h =
      let out =
        put fs join dir sha256 root none grant.repo_id oid r.content_length (pos (suc n))
          (max_bytes_reader (pos (suc n)) r.body) files in
      let same = upload_at-put r (pos (suc n)) files grant oid h in
      let is_done = put_answer-done out (sym (ap (λ a. a.0.status) same) ∙ h) in
      let s =
        put-Stored fs join dir sha256 root grant.repo_id oid r.content_length (pos (suc n)) (suc n)
          _ files _ (normalize-pos n) fits (is_done ∙ ap (λ a. (done tt, a.1)) (sym same)) in
      let path = object_path fs join dir sha256 root grant.repo_id oid in
      subst
        (λ body.
          Stored fs sha256 path (dir path) oid r.content_length (suc n) body
            (upload_at authorize store r (pos (suc n)) files grant (some oid)).1)
        (max_bytes_reader-whole (pos (suc n)) r.body s.complete) s

  bad :
      (r : LfsRequest) (limit : ℤ) (files : Files) (grant : GitAccessGrant)
      → (upload_at authorize store r limit files grant none).0.status ≡ 200
      → ⊥
  unfolding upload_at write_lfs_json
  bad r limit files grant h = not-200 400 (omega arith) h

  upload_at-Uploaded :
      (r : LfsRequest) (repo_id : Bytes) (n : ℕ) (s s' : S) (files : Files) (grant : GitAccessGrant)
      (oid : Option Bytes)
      → suc n + 1 < 2 ^ 63
      → authorize (lfs_access_input authorize store r repo_id git_operation_write) s
        ≡ ok (grant, s')
      → parse_lfs_oid r.oid ≡ oid
      → (upload_at authorize store r (pos (suc n)) files grant oid).0.status ≡ 200
      → Uploaded r repo_id
          (suc n)
          s
          s'
          (upload_at authorize store r (pos (suc n)) files grant oid).1
  upload_at-Uploaded r repo_id n s s' files grant (some oid) fits is_granted is_oid h = record {
    grant = grant;
    is_granted = is_granted;
    oid = oid;
    is_oid = is_oid;
    stored = upload_at-Stored r n files grant oid fits h;
  }
  upload_at-Uploaded r repo_id n s s' files grant none fits is_granted is_oid h =
      absurd (bad r _ files grant h)

  granted-Uploaded :
      (r : LfsRequest) (repo_id : Bytes) (n : ℕ) (s : S) (files : Files)
      (access : Result (GitAccessGrant × S))
      → suc n + 1 < 2 ^ 63
      → authorize (lfs_access_input authorize store r repo_id git_operation_write) s ≡ access
      → (granted authorize store s files
          (λ grant. upload_at authorize store r (pos (suc n)) files grant (parse_lfs_oid r.oid))
          access).0.status
        ≡ 200
      → Uploaded r repo_id
          (suc n)
          s
          (granted authorize store s files
            (λ grant. upload_at authorize store r (pos (suc n)) files grant (parse_lfs_oid r.oid))
            access).1
          (granted authorize store s files
            (λ grant. upload_at authorize store r (pos (suc n)) files grant (parse_lfs_oid r.oid))
            access).2
  granted-Uploaded r repo_id n s files (err e) fits is_granted h =
      absurd (not-200 _ (access_error-status e) h)
  granted-Uploaded r repo_id n s files (ok (grant, s')) fits is_granted h =
      upload_at-Uploaded r repo_id n s s' files grant (parse_lfs_oid r.oid) fits is_granted refl h

  -- An upload that is answered with 200 was granted to write to the repo, and has stored the body of
  -- the request as a whole: its length is the announced one and within the limit, its SHA-256 is the
  -- object id of the path, and it was written in full before it was renamed to the path of the object.
  -- The limit is positive and below 2 ^ 63 - 1.
  pub serve_lfs_upload-Uploaded :
      (r : LfsRequest) (repo_id : Bytes) (n : ℕ) (s : S) (files : Files)
      → suc n + 1 < 2 ^ 63
      → (serve_lfs_upload authorize store r repo_id (pos (suc n)) s files).0.status ≡ 200
      → Uploaded r repo_id
          (suc n)
          s
          (serve_lfs_upload authorize store r repo_id (pos (suc n)) s files).1
          (serve_lfs_upload authorize store r repo_id (pos (suc n)) s files).2
  unfolding serve_lfs_upload
  serve_lfs_upload-Uploaded r repo_id n s files fits h =
      granted-Uploaded r repo_id n s files _ fits refl h
