-- ===== src/Git/Routes.antt =====
-- Which Git operation a request of the smart protocol asks for.
use gitrdone.Common.{
  ◌≡◌, refl, ◌↔◌, inl, inr, some, ◌==◌, ==_iff, nat_eq, list_eq, equal, Bool-cases, arith,
}
use gitrdone.Git.{GitRequest, git_operation_from_service, git_operation_from_request}
use gitrdone.Repository.{GitOperation, git_operation_read, git_operation_write}
use gitrdone.Text.{codes}

-- The four requests of the protocol: a fetch and a push, each with its advertisement.
pub data Route (r : GitRequest) (o : GitOperation) : Type 0 where
  advertise_fetch :
      r.git_path ≡ codes "info/refs"
      → r.method ≡ codes "GET"
      → r.service ≡ codes "git-upload-pack"
      → o ≡ git_operation_read
      → Route r o
  advertise_push :
      r.git_path ≡ codes "info/refs"
      → r.method ≡ codes "GET"
      → r.service ≡ codes "git-receive-pack"
      → o ≡ git_operation_write
      → Route r o
  fetch :
      r.git_path ≡ codes "git-upload-pack"
      → r.method ≡ codes "POST"
      → o ≡ git_operation_read
      → Route r o
  push :
      r.git_path ≡ codes "git-receive-pack"
      → r.method ≡ codes "POST"
      → o ≡ git_operation_write
      → Route r o

git_operation-Route :
    (r : GitRequest) (o : GitOperation) → git_operation_from_request r ≡ some o → Route r o
unfolding git_operation_from_request git_operation_from_service
git_operation-Route r o h = elim (Bool-cases (r.git_path == codes "info/refs")) [
  | inl refs ↦ elim (Bool-cases (r.service == codes "git-upload-pack")) [
    | inl upload ↦
        advertise_fetch ((==_iff r.git_path _).0 refs)
          ((==_iff r.method (codes "GET")).0 (ground arith)) ((==_iff r.service _).0 upload)
          (ground arith)
    | inr other ↦
        advertise_push ((==_iff r.git_path _).0 refs)
          ((==_iff r.method (codes "GET")).0 (ground arith))
          ((==_iff r.service (codes "git-receive-pack")).0 (ground arith)) (ground arith)
  ]
  | inr not_refs ↦ elim (Bool-cases (r.git_path == codes "git-upload-pack")) [
    | inl upload ↦
        fetch ((==_iff r.git_path _).0 upload) ((==_iff r.method (codes "POST")).0 (ground arith))
          (ground arith)
    | inr other ↦
        push ((==_iff r.git_path (codes "git-receive-pack")).0 (ground arith))
          ((==_iff r.method (codes "POST")).0 (ground arith)) (ground arith)
  ]
]

git_operation-of_Route :
    (r : GitRequest) (o : GitOperation) → Route r o → git_operation_from_request r ≡ some o
unfolding git_operation_from_request git_operation_from_service
git_operation-of_Route r o (advertise_fetch p m s e) = rw (p, m, s, e) (unfold equal in refl)
git_operation-of_Route r o (advertise_push p m s e) = rw (p, m, s, e) (unfold equal in refl)
git_operation-of_Route r o (fetch p m e) = rw (p, m, e) (unfold equal in refl)
git_operation-of_Route r o (push p m e) = rw (p, m, e) (unfold equal in refl)

-- A request is taken for reading exactly if it is a GET of `info/refs` for `git-upload-pack` or a
-- POST to `git-upload-pack`, for writing exactly if it is the same with `git-receive-pack`, and for
-- nothing else.
pub git_operation_from_request_iff :
    (r : GitRequest) (o : GitOperation) → (git_operation_from_request r ≡ some o) ↔ Route r o
git_operation_from_request_iff r o = (git_operation-Route r o, git_operation-of_Route r o)
