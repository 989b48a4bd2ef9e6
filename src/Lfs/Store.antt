-- ===== src/Lfs/Store.antt =====
-- internal/http/git_lfs_storage.go: the interface of the object store, and `filesystemLFSObjectStore`.
-- The file system, the functions of path/filepath and SHA-256 are parameters.
use gitrdone.Common.{
  ℕ, ◌+◌, ◌*◌, Bool, true, false, not, Option, none, some, List, [], ◌∷◌, ltb, ◌==◌, nat_eq,
  list_eq, if◌then◌else◌, length, take,
}
use gitrdone.Common.Int.{ℤ, pos, pos_part, ltb_ℤ, eqb_ℤ, wrap64}
use gitrdone.Result.{Error, Result, ok, err}
use gitrdone.Secrets.{hex_encode, slice}
use gitrdone.Text.{Bytes, codes}

-- `errLFSObjectNotFound`, `errLFSObjectInvalid`, `errLFSObjectTooLarge`, and the other errors
pub data LfsError : Type 0 where
  lfs_object_not_found lfs_object_invalid lfs_object_too_large : LfsError
  -- `http.MaxBytesError`
  max_bytes : LfsError
  other_error : Error → LfsError

pub data LfsResult (A : Type 0) : Type 0 where
  done : A → LfsResult A
  failed : LfsError → LfsResult A

pub record LfsStoredObject : Type 0 where
  pub size : ℤ
  pub body : Bytes

-- a reader: the bytes that it gives, and its error behind them, or the end
pub record Reader : Type 0 where
  pub bytes : Bytes
  pub failure : Option LfsError

-- a step on the files
abbrev pub Io : Type 0 → Type 0 → Type 0
Io Files A = Files → LfsResult A × Files

module _ {Files : Type 0} where
  abbrev pub bound : {A B : Type 0} → (A → Io Files B) → LfsResult A × Files → LfsResult B × Files
  bound next (failed e, files) = (failed e, files)
  bound next (done a, files) = next a files

  infixl 5 ◌>>=◌ ◌>>◌
  abbrev pub ◌>>=◌ : {A B : Type 0} → Io Files A → (A → Io Files B) → Io Files B
  (m >>= next) files = bound next (m files)

  abbrev pub ◌>>◌ : {B : Type 0} → Io Files (Unit {0}) → Io Files B → Io Files B
  m >> next = m >>= λ _. next

  abbrev pub check : Bool → LfsError → Io Files (Unit {0})
  check false e files = (failed e, files)
  check true e files = (done tt, files)

  abbrev pub unless_failed : Option LfsError → Io Files (Unit {0})
  unless_failed none files = (done tt, files)
  unless_failed (some e) files = (failed e, files)

-- the interface `lfsObjectStore`, over the state of the disk
pub record LfsObjectStore (Files : Type 0) : Type 0 where
  pub exists : Bytes → Bytes → ℤ → Files → LfsResult Bool
  pub put : Bytes → Bytes → ℤ → ℤ → Reader → Io Files (Unit {0})
  pub open_object : Bytes → Bytes → Files → LfsResult LfsStoredObject

-- 5 GiB
abbrev pub default_max_lfs_object_bytes : ℤ
default_max_lfs_object_bytes = pos (5 * 1024 * 1024 * 1024)

-- `normalizeMaxLFSObjectBytes`
unfoldable pub normalize_max_lfs_object_bytes : ℤ → ℤ
normalize_max_lfs_object_bytes value =
    if ltb_ℤ (pos 0) value then value else default_max_lfs_object_bytes

-- `io.LimitedReader`: the end behind `n` bytes
unfoldable pub limited_reader : ℤ → Reader → Reader
limited_reader n r =
    if ltb (length r.bytes) (pos_part n)
    then r
    else record { bytes = take (pos_part n) r.bytes; failure = none }

-- what `os.Stat` and `os.Open` find at a path
pub data Stat : Type 0 where
  absent : Stat
  refused : Error → Stat
  -- whether the file is regular, and its size
  found : Bool → ℕ → Stat

pub data Opened : Type 0 where
  absent : Opened
  refused : Error → Opened
  -- what `Stat` gives on the open file, and the bytes in it
  file : Result (Bool × ℕ) → Bytes → Opened

-- what the store calls of package os
pub record FileSystem (Files : Type 0) : Type 0 where
  pub mkdir_all : Bytes → Io Files (Unit {0})
  pub create_temp : Bytes → Io Files Bytes
  -- the writes of `io.Copy` to the file at a path, with the error that stops them
  pub write : Bytes → Bytes → Files → Option LfsError × Files
  pub close : Bytes → Files → Option LfsError × Files
  pub remove : Bytes → Files → Files
  pub rename : Bytes → Bytes → Io Files (Unit {0})
  pub stat : Bytes → Files → Stat
  pub open_file : Bytes → Files → Opened

module _ {Files : Type 0} (fs : FileSystem Files) (join : List Bytes → Bytes) (dir : Bytes → Bytes)
    (sha256 : Bytes → Bytes) (root : Bytes) where
  unfoldable pub object_path : Bytes → Bytes → Bytes
  object_path repo_id oid =
      join
        (root ∷ codes "lfs" ∷ repo_id ∷ codes "objects" ∷ slice 0 2 oid ∷ slice 2 4 oid ∷ oid ∷ [])

  abbrev exists_at : ℤ → Stat → LfsResult Bool
  exists_at size absent = done false
  exists_at size (refused e) = failed (other_error e)
  exists_at size (found regular actual) =
      if not regular then done false else done (eqb_ℤ (pos actual) size)

  -- `Exists`; the context's error comes first
  unfoldable pub exists : Option Error → Bytes → Bytes → ℤ → Files → LfsResult Bool
  unfolding object_path
  exists (some e) repo_id oid size files = failed (other_error e)
  exists none repo_id oid size files = exists_at size (fs.stat (object_path repo_id oid) files)

  -- the first of the two errors of `io.Copy`: a write's, or the reader's behind the last byte
  abbrev pub copy_error : Option LfsError → Reader → Option LfsError
  copy_error (some e) r = some e
  copy_error none r = r.failure

  abbrev pub io_copy : Bytes → Reader → Io Files (Option LfsError)
  io_copy temp r files = let out = fs.write temp r.bytes files in (done (copy_error out.0 r), out.1)

  abbrev pub close_file : Bytes → Io Files (Option LfsError)
  close_file temp files = let out = fs.close temp files in (done out.0, out.1)

  -- behind `io.Copy` and `Close`, by their errors
  abbrev pub put_closed :
      Bytes
      → Bytes
      → ℤ
      → ℤ
      → Bytes
      → Reader
      → Option LfsError
      → Option LfsError
      → Io Files (Unit {0})
  put_closed path oid size max_size temp limited copy_err close_err = do
    unless_failed copy_err
    unless_failed close_err
    check (not (ltb_ℤ max_size (pos (length limited.bytes)))) lfs_object_too_large
    check (eqb_ℤ (pos (length limited.bytes)) size) lfs_object_invalid
    check (hex_encode (sha256 limited.bytes) == oid) lfs_object_invalid
    fs.rename temp path

  -- behind `io.LimitedReader`
  abbrev pub put_limited : Bytes → Bytes → ℤ → ℤ → Bytes → Reader → Io Files (Unit {0})
  put_limited path oid size max_size temp limited = do
    copy_err ← io_copy temp limited
    close_err ← close_file temp
    put_closed path oid size max_size temp limited copy_err close_err

  -- behind `CreateTemp`
  unfoldable pub put_temp : Bytes → Bytes → ℤ → ℤ → Reader → Bytes → Io Files (Unit {0})
  unfolding limited_reader
  put_temp path oid size max_size body temp =
      put_limited path oid size max_size temp (limited_reader (wrap64 (pos_part max_size + 1)) body)

  -- the deferred `os.Remove`, unless `keepTemp`
  abbrev pub removed : Bytes → LfsResult (Unit {0}) × Files → LfsResult (Unit {0}) × Files
  removed temp (done u, files) = (done u, files)
  removed temp (failed e, files) = (failed e, fs.remove temp files)

  -- `Put`; the context's error comes first
  unfoldable pub put : Option Error → Bytes → Bytes → ℤ → ℤ → Reader → Io Files (Unit {0})
  unfolding object_path put_temp normalize_max_lfs_object_bytes
  put (some e) repo_id oid size max_size body files = (failed (other_error e), files)
  put none repo_id oid size max_size body files =
      let limit = normalize_max_lfs_object_bytes max_size in
      let path = object_path repo_id oid in
      (check (not (ltb_ℤ limit size)) lfs_object_too_large
          >> (fs.mkdir_all (dir path)
              >> (fs.create_temp (dir path) >>= λ temp after.
                  removed temp (put_temp path oid size limit body temp after))))
        files

  abbrev opened : Opened → LfsResult LfsStoredObject
  opened absent = failed lfs_object_not_found
  opened (refused e) = failed (other_error e)
  opened (file (err e) bytes) = failed (other_error e)
  opened (file (ok (regular, size)) bytes) =
      if not regular
      then failed lfs_object_not_found
      else done (record { size = pos size; body = bytes })

  -- `Open`; the context's error comes first
  unfoldable pub open_object : Option Error → Bytes → Bytes → Files → LfsResult LfsStoredObject
  unfolding object_path
  open_object (some e) repo_id oid files = failed (other_error e)
  open_object none repo_id oid files = opened (fs.open_file (object_path repo_id oid) files)

  -- the store as the handlers use it, under a context that is not cancelled
  abbrev pub filesystem_lfs_object_store : LfsObjectStore Files
  filesystem_lfs_object_store = record {
    exists = exists none;
    put = put none;
    open_object = open_object none;
  }
