-- ===== src/Lfs/Stored.antt =====
-- What `Put` of internal/http/git_lfs_storage.go stores, and what `Open` and `Exists` find of it.
use gitrdone.Common.{
  ℕ, ◌+◌, ◌^◌, ◌<◌, ◌≤◌, ◌≡◌, refl, sym, ap, subst, Bool, true, false, not, Option, none, some,
  List, ltb, ◌==◌, nat_eq, list_eq, length, arith, Bool-cases, inl, inr, ==_iff, length-take,
}
use gitrdone.Common.Int.{ℤ, pos, ltb_ℤ, eqb_ℤ, eqb_ℤ_iff, wrap64}
use gitrdone.Lfs.Store.{
  LfsError, lfs_object_too_large, lfs_object_invalid, LfsResult, done, failed, Reader, Io, bound,
  ◌>>=◌, ◌>>◌, check, unless_failed, FileSystem, found, file, limited_reader,
  normalize_max_lfs_object_bytes, object_path, exists, put_temp, put_limited, copy_error, removed,
  put, open_object,
}
use gitrdone.Result.{ok}
use gitrdone.Secrets.{hex_encode}
use gitrdone.Text.{Bytes}

module _ {Files : Type 0} where
  bound-done :
      {A B : Type 0} (next : A → Io Files B) (r : LfsResult A × Files) {b : B} {files' : Files}
      → bound next r ≡ (done b, files')
      → (a : A) × (after : Files) × (r ≡ (done a, after)) × (next a after ≡ (done b, files'))
  bound-done next (failed e, files) h = absurd cc
  bound-done next (done a, files) h = (a, files, refl, h)

  check-done :
      {B : Type 0} (b : Bool) (e : LfsError) (next : Io Files B) {files files' : Files} {out : B}
      → (check b e >> next) files ≡ (done out, files')
      → (b ≡ true) × (next files ≡ (done out, files'))
  check-done false e next h = absurd cc
  check-done true e next h = (refl, h)

  unless_failed-done :
      {B : Type 0} (failure : Option LfsError) (next : Io Files B) {files files' : Files} {out : B}
      → (unless_failed failure >> next) files ≡ (done out, files')
      → (failure ≡ none) × (next files ≡ (done out, files'))
  unless_failed-done (some e) next h = absurd cc
  unless_failed-done none next h = (refl, h)

wrap64-small : (n : ℕ) → n < 2 ^ 63 → wrap64 n ≡ pos n
unfolding wrap64
wrap64-small n h = ground arith

-- what is read in full is what the reader gives
limited_reader-whole :
    (n : ℕ) (r : Reader)
    → length (limited_reader (pos (n + 1)) r).bytes ≤ n
    → limited_reader (pos (n + 1)) r ≡ r
unfolding limited_reader
limited_reader-whole n r h = elim (Bool-cases (ltb (length r.bytes) (n + 1))) [
  | inl short ↦ rw short refl
  | inr long ↦ absurd (let size = length-take (n + 1) r.bytes in ground arith)
]

-- documented behaviour of package os: a file that was created, written, closed and renamed is found at
-- its new path, regular and with what was written
pub record FileSystemLaws {Files : Type 0} (fs : FileSystem Files) : Type 0 where
  pub stat :
      (folder temp path content : Bytes) (f₀ f₁ f₂ f₃ f₄ : Files)
      → fs.create_temp folder f₀ ≡ (done temp, f₁)
      → fs.write temp content f₁ ≡ (none, f₂)
      → fs.close temp f₂ ≡ (none, f₃)
      → fs.rename temp path f₃ ≡ (done tt, f₄)
      → fs.stat path f₄ ≡ found true (length content)
  pub open_file :
      (folder temp path content : Bytes) (f₀ f₁ f₂ f₃ f₄ : Files)
      → fs.create_temp folder f₀ ≡ (done temp, f₁)
      → fs.write temp content f₁ ≡ (none, f₂)
      → fs.close temp f₂ ≡ (none, f₃)
      → fs.rename temp path f₃ ≡ (done tt, f₄)
      → fs.open_file path f₄ ≡ file (ok (true, length content)) content

-- what an upload that succeeds has stored
pub record Stored {Files : Type 0} (fs : FileSystem Files) (sha256 : Bytes → Bytes)
    (path folder oid : Bytes) (size : ℤ) (limit : ℕ) (body : Reader) (files' : Files) : Type 0 where
  pub is_size : size ≡ pos (length body.bytes)
  pub bounded : length body.bytes ≤ limit
  pub complete : body.failure ≡ none
  pub is_oid : hex_encode (sha256 body.bytes) ≡ oid
  pub before : Files
  pub created : Files
  pub written : Files
  pub closed : Files
  pub temp : Bytes
  pub is_created : fs.create_temp folder before ≡ (done temp, created)
  pub is_written : fs.write temp body.bytes created ≡ (none, written)
  pub is_closed : fs.close temp written ≡ (none, closed)
  pub is_renamed : fs.rename temp path closed ≡ (done tt, files')

module _ {Files : Type 0} (fs : FileSystem Files) (join : List Bytes → Bytes) (dir : Bytes → Bytes)
    (sha256 : Bytes → Bytes) (root : Bytes) where
  steps-done :
      (copied closed : Option LfsError) (small same hash : Bool) (e₁ e₂ e₃ : LfsError)
      (last : Io Files (Unit {0})) {files files' : Files}
      → (unless_failed copied
            >> (unless_failed closed
                >> (check small e₁ >> (check same e₂ >> (check hash e₃ >> last)))))
          files
        ≡ (done tt, files')
      → (copied ≡ none)
        × (closed ≡ none)
        × (small ≡ true)
        × (same ≡ true)
        × (hash ≡ true)
        × (last files ≡ (done tt, files'))
  steps-done copied closed small same hash e₁ e₂ e₃ last h =
      let s₁ = unless_failed-done copied _ h in
      let s₂ = unless_failed-done closed _ s₁.1 in
      let s₃ = check-done small e₁ _ s₂.1 in
      let s₄ = check-done same e₂ _ s₃.1 in
      let s₅ = check-done hash e₃ last s₄.1 in (s₁.0, s₂.0, s₃.0, s₄.0, s₅.0, s₅.1)

  copy_error-none :
      (failure : Option LfsError) (r : Reader)
      → copy_error fs join dir sha256 root failure r ≡ none
      → (failure ≡ none) × (r.failure ≡ none)
  copy_error-none none r h = (refl, h)
  copy_error-none (some e) r h = absurd cc

  not_above :
      (n : ℕ) (r : Reader) → not (ltb_ℤ (pos n) (pos (length r.bytes))) ≡ true → length r.bytes ≤ n
  not_above n r h = ground arith

  put_limited-Stored :
      (path folder oid : Bytes) (size : ℤ) (n : ℕ) (limited : Reader) (temp : Bytes)
      (before created files' : Files)
      → fs.create_temp folder before ≡ (done temp, created)
      → put_limited fs join dir sha256 root path oid size (pos n) temp limited created
        ≡ (done tt, files')
      → Stored fs sha256 path folder oid size n limited files'
  put_limited-Stored path folder oid size n limited temp before created files' is_created h =
      let writing = fs.write temp limited.bytes created in
      let closing = fs.close temp writing.1 in
      let s =
        steps-done (copy_error fs join dir sha256 root writing.0 limited) closing.0
          (not (ltb_ℤ (pos n) (pos (length limited.bytes))))
          (eqb_ℤ (pos (length limited.bytes)) size) (hex_encode (sha256 limited.bytes) == oid)
          lfs_object_too_large lfs_object_invalid lfs_object_invalid (fs.rename temp path)
          {files = closing.1} {files' = files'} h in
      let copied = copy_error-none writing.0 limited s.0 in
      record {
        is_size = sym ((eqb_ℤ_iff _ size).0 s.3);
        bounded = not_above n limited s.2;
        complete = copied.1;
        is_oid = (==_iff _ oid).0 s.4;
        before = before;
        created = created;
        written = writing.1;
        closed = closing.1;
        temp = temp;
        is_created = is_created;
        is_written = ap (λ failure. (failure, writing.1)) copied.0;
        is_closed = ap (λ failure. (failure, closing.1)) s.1;
        is_renamed = s.5;
      }

  put_temp-Stored :
      (path folder oid : Bytes) (size : ℤ) (n : ℕ) (body : Reader) (temp : Bytes)
      (before created files' : Files)
      → n + 1 < 2 ^ 63
      → fs.create_temp folder before ≡ (done temp, created)
      → put_temp fs join dir sha256 root path oid size (pos n) body temp created ≡ (done tt, files')
      → Stored fs sha256 path folder oid size n body files'
  unfolding put_temp
  put_temp-Stored path folder oid size n body temp before created files' fits is_created h =
      let exact = ap (λ limit. limited_reader limit body) (wrap64-small (n + 1) fits) in
      let s = put_limited-Stored path folder oid size n _ temp before created files' is_created (
        subst
          (λ r.
            put_limited fs join dir sha256 root path oid size (pos n) temp r created
            ≡ (done tt, files'))
          exact h) in
      subst (λ r. Stored fs sha256 path folder oid size n r files')
        (limited_reader-whole n body s.bounded) s

  removed-done :
      (temp : Bytes) (r : LfsResult (Unit {0}) × Files) {files' : Files}
      → removed fs join dir sha256 root temp r ≡ (done tt, files')
      → r ≡ (done tt, files')
  removed-done temp (done u, files) h = h
  removed-done temp (failed e, files) h = absurd cc

  -- An upload succeeds only with a whole object: the body was read to its end without an error, it has
  -- exactly the announced size, which is within the limit, and its SHA-256 is the object id; it was
  -- written in full to a temporary file, which was closed and then renamed to the path of the object.
  -- The limit, 5 GiB where none is configured, is below 2 ^ 63 - 1.
  pub put-Stored :
      (repo_id oid : Bytes) (size max_size : ℤ) (n : ℕ) (body : Reader) (files files' : Files)
      → normalize_max_lfs_object_bytes max_size ≡ pos n
      → n + 1 < 2 ^ 63
      → put fs join dir sha256 root none repo_id oid size max_size body files ≡ (done tt, files')
      → Stored fs sha256
          (object_path fs join dir sha256 root repo_id oid)
          (dir (object_path fs join dir sha256 root repo_id oid))
          oid
          size
          n
          body
          files'
  unfolding put
  put-Stored repo_id oid size max_size n body files files' is_limit fits h =
      let path = object_path fs join dir sha256 root repo_id oid in
      let write_to : ℤ → Bytes → Io Files (Unit {0}) = λ limit temp after.
        removed fs join dir sha256 root temp
          (put_temp fs join dir sha256 root path oid size limit body temp after) in
      let after_checks : ℤ → Io Files (Unit {0}) =
        λ limit. fs.mkdir_all (dir path) >> (fs.create_temp (dir path) >>= write_to limit) in
      let limited : (check (not (ltb_ℤ (pos n) size)) lfs_object_too_large >> after_checks (pos n))
            files
          ≡ (done tt, files') =
        subst
          (λ limit.
            (check (not (ltb_ℤ limit size)) lfs_object_too_large >> after_checks limit) files
            ≡ (done tt, files'))
          is_limit h in
      let s₁ = check-done _ lfs_object_too_large (after_checks (pos n)) limited in
      let s₂ =
        bound-done (λ _. fs.create_temp (dir path) >>= write_to (pos n))
          (fs.mkdir_all (dir path) files) s₁.1 in
      let s₃ = bound-done (write_to (pos n)) (fs.create_temp (dir path) s₂.1) s₂.3 in
      put_temp-Stored path (dir path) oid size n body s₃.0 s₂.1 s₃.1 files' fits s₃.2
        (removed-done s₃.0 _ s₃.3)

  -- What was uploaded is downloaded: behind an upload that succeeds, opening the object gives its size
  -- and its bytes, and the store has it at that size and at no other. The file system finds
  -- a file that was created, written, closed and renamed at its new path, regular and with what was
  -- written; the limit is below 2 ^ 63 - 1.
  pub open_object-put :
      (repo_id oid : Bytes) (size max_size : ℤ) (n : ℕ) (body : Reader) (files files' : Files)
      → FileSystemLaws fs
      → normalize_max_lfs_object_bytes max_size ≡ pos n
      → n + 1 < 2 ^ 63
      → put fs join dir sha256 root none repo_id oid size max_size body files ≡ (done tt, files')
      → (open_object fs join dir sha256 root none repo_id oid files'
          ≡ done (record { size = size; body = body.bytes }))
        × ((asked : ℤ)
            → exists fs join dir sha256 root none repo_id oid asked files'
              ≡ done (eqb_ℤ size asked))
  unfolding open_object exists
  open_object-put repo_id oid size max_size n body files files' laws is_limit fits h =
      let s = put-Stored repo_id oid size max_size n body files files' is_limit fits h in
      let path = object_path fs join dir sha256 root repo_id oid in
      let opens =
        laws.open_file (dir path) s.temp path body.bytes s.before s.created s.written s.closed
          files' s.is_created s.is_written s.is_closed s.is_renamed in
      let stats =
        laws.stat (dir path) s.temp path body.bytes s.before s.created s.written s.closed files'
          s.is_created s.is_written s.is_closed s.is_renamed in
      (rw (opens, s.is_size) refl, λ asked. rw (stats, s.is_size) refl)
