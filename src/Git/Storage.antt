-- ===== src/Git/Storage.antt =====
-- `filesystemGitStorage` of internal/http/git_storage.go. What it calls of package os, the git command
-- and the functions of path/filepath are parameters.
use gitrdone.Common.{
  Bool, Option, none, some, List, [], ◌∷◌, ◌++◌, ◌==◌, nat_eq, list_eq, if◌then◌else◌,
}
use gitrdone.Repository.{GitStorage}
use gitrdone.Result.{Error, repo_storage_not_found, Result, ok, err}
use gitrdone.Text.{Bytes, codes, trim_space}

pub record GitDisk (Files : Type 0) : Type 0 where
  pub mkdir_all : Bytes → Files → Option Error × Files
  pub remove_all : Bytes → Files → Option Error × Files
  -- `os.Stat`: an error, or whether the path is a directory
  pub is_dir : Bytes → Files → Result Bool
  -- `runGit`
  pub run_git : List Bytes → Files → Option Error × Files

abbrev pub default_git_storage_root : Bytes
default_git_storage_root = codes ".storage"

-- the root of `newFilesystemGitStorage` and of `newFilesystemLFSObjectStore`
unfoldable pub trimmed_root : Bytes → Bytes
trimmed_root root = if trim_space root == [] then default_git_storage_root else trim_space root

-- the next step, unless there was an error
abbrev if_done :
    {Files : Type 0} → (Files → Option Error × Files) → Option Error × Files → Option Error × Files
if_done step (some e, files) = (some e, files)
if_done step (none, files) = step files

module _ {Files : Type 0} (disk : GitDisk Files) (join : List Bytes → Bytes) (dir : Bytes → Bytes)
    (root : Bytes) where
  -- `repoPath`
  unfoldable pub repo_path : Bytes → Bytes
  repo_path repo_id = join (root ∷ codes "repos" ∷ (repo_id ++ codes ".git") ∷ [])

  -- `InitBareRepo`
  unfoldable pub init_bare_repo : Files → Bytes → Bytes → Option Error × Files
  unfolding repo_path
  init_bare_repo files repo_id default_branch =
      let path = repo_path repo_id in
      if_done
        (disk.run_git (
          codes "--git-dir"
          ∷ path
          ∷ codes "symbolic-ref"
          ∷ codes "HEAD"
          ∷ (codes "refs/heads/" ++ default_branch)
          ∷ []))
        (if_done (disk.run_git (codes "init" ∷ codes "--bare" ∷ path ∷ []))
          (disk.mkdir_all (dir path) files))

  -- `DeleteBareRepo`; the context's error comes first
  unfoldable pub delete_bare_repo : Option Error → Files → Bytes → Option Error × Files
  unfolding repo_path
  delete_bare_repo (some e) files repo_id = (some e, files)
  delete_bare_repo none files repo_id = disk.remove_all (repo_path repo_id) files

  abbrev path_of_dir : Bytes → Result Bool → Result Bytes
  path_of_dir path (err e) = err repo_storage_not_found
  path_of_dir path (ok is_dir) = if is_dir then ok path else err repo_storage_not_found

  -- `BareRepoPath`
  unfoldable pub bare_repo_path : Files → Bytes → Result Bytes
  unfolding repo_path
  bare_repo_path files repo_id =
      path_of_dir (repo_path repo_id) (disk.is_dir (repo_path repo_id) files)

  -- the storage as the stores use it, under a context that is not cancelled
  abbrev pub filesystem_git_storage : GitStorage Files
  filesystem_git_storage = record {
    init_bare_repo = λ files id branch. let out = init_bare_repo files id branch in (out.1, out.0);
    delete_bare_repo = λ files id. let out = delete_bare_repo none files id in (out.1, out.0);
    bare_repo_path = bare_repo_path;
  }
