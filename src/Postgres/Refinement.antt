-- ===== src/Postgres/Refinement.antt =====
-- Calls of `repoStore` in internal/http/repository.go and internal/http/postgres.go, one behind the
-- other. Each carries the clock that it reads.
use gitrdone.Common.{◌≡◌, refl, ap, false, List, [], ◌∷◌, All}
use gitrdone.Memory
use gitrdone.Memory.{MemoryRepoStore}
use gitrdone.Postgres.Agree.{ready, kept, Agree, get_repo-Agree, archive_repo-Agree}
use gitrdone.Postgres.AgreeAccess.{authorize_git_access-Agree}
use gitrdone.Postgres.AgreeTokens.{revoke_repo_token-Agree}
use gitrdone.Postgres.Represents.{Represents}
use gitrdone.Postgres.Session.{World}
use gitrdone.Postgres.Store
use gitrdone.Postgres.Tables.{Tables}
use gitrdone.Repository.{
  AuthorizeGitAccessInput, RevokeRepoTokenInput, GitAccessGrant, GitStorage, RepoRecord,
  RepoTokenRecord,
}
use gitrdone.Result.{Result, ok}
use gitrdone.Secrets.{Reads}
use gitrdone.Text.{Bytes}
use gitrdone.Time.{Time, is_zero}

pub data Call : Type 0 where
  get : Bytes → Call
  archive : Bytes → Time → Call
  revoke : RevokeRepoTokenInput → Time → Call
  authorize : AuthorizeGitAccessInput → Time → Call

pub data Answer : Type 0 where
  repo_answer : Result RepoRecord → Answer
  token_answer : Result RepoTokenRecord → Answer
  grant_answer : Result GitAccessGrant → Answer

abbrev pub with_answer : {A S : Type 0} → (Result A → Answer) → Result A × S → Answer × S
with_answer answer (result, state) = (answer result, state)

unfoldable pub run_calls : {S : Type 0} → (Call → S → Answer × S) → List Call → S → List Answer × S
run_calls step [] state = ([], state)
run_calls step (call ∷ calls) state =
    let first = step call state in
    let rest = run_calls step calls first.1 in (first.0 ∷ rest.0, rest.1)

module _ {Files : Type 0} (cast : Bytes → Result Bytes) (stamp : Time → Time)
    (storage : GitStorage Files) (sha256 : Bytes → Bytes) where
  -- ids as the database prints them, and instants that a timestamptz column keeps
  abbrev pub WellFormed : Call → Type 0
  WellFormed (get id) = cast id ≡ ok id
  WellFormed (archive id now) = (cast id ≡ ok id) × (stamp now ≡ now) × (is_zero now ≡ false)
  WellFormed (revoke input now) =
      (cast input.token_id ≡ ok input.token_id)
      × (cast input.repo_id ≡ ok input.repo_id)
      × (stamp now ≡ now)
      × (is_zero now ≡ false)
  WellFormed (authorize input now) = (cast input.repo_id ≡ ok input.repo_id) × (stamp now ≡ now)

  unfoldable pub call_memory : Files → Call → MemoryRepoStore → Answer × MemoryRepoStore
  call_memory files (get id) s = with_answer repo_answer (Memory.get_repo id s, s)
  call_memory files (archive id now) s =
      with_answer repo_answer (kept s (Memory.archive_repo id now s))
  call_memory files (revoke input now) s =
      with_answer token_answer (kept s (Memory.revoke_repo_token input now s))
  call_memory files (authorize input now) s =
      with_answer grant_answer
        (kept s (Memory.authorize_git_access storage sha256 input now files s))

  unfoldable pub call_postgres : Call → World Files → Answer × World Files
  call_postgres (get id) w = with_answer repo_answer (Store.get_repo cast stamp id w)
  call_postgres (archive id now) w =
      with_answer repo_answer (Store.archive_repo cast stamp id now w)
  call_postgres (revoke input now) w =
      with_answer token_answer (Store.revoke_repo_token cast stamp input now w)
  call_postgres (authorize input now) w =
      with_answer grant_answer (Store.authorize_git_access cast stamp storage sha256 input now w)

  with_answer-Agree :
      {A : Type 0} (answer : Result A → Answer) (files : Files) (reads : Reads)
      (postgres : Result A × World Files) (memory : Result A × MemoryRepoStore)
      → Agree cast files reads postgres memory
      → (t : Tables) × (with_answer answer postgres
          ≡ ((with_answer answer memory).0, ready t files reads))
        × Represents cast t (with_answer answer memory).1
  with_answer-Agree answer files reads postgres memory (t, same, rep) =
      (t, ap (with_answer answer) same, rep)

  call-refines :
      (call : Call) (files : Files) (reads : Reads) (t : Tables) (s : MemoryRepoStore)
      → Represents cast t s
      → WellFormed call
      → (t' : Tables) × (call_postgres call (ready t files reads)
          ≡ ((call_memory files call s).0, ready t' files reads))
        × Represents cast t' (call_memory files call s).1
  unfolding call_postgres call_memory
  call-refines (get id) files reads t s rep c =
      with_answer-Agree repo_answer files reads _ _
        (get_repo-Agree cast files reads stamp t s rep id c)
  call-refines (archive id now) files reads t s rep (c, st, n) =
      with_answer-Agree repo_answer files reads _ _
        (archive_repo-Agree cast files reads stamp t s rep id now c st n)
  call-refines (revoke input now) files reads t s rep (ct, cr, st, n) =
      with_answer-Agree token_answer files reads _ _
        (revoke_repo_token-Agree cast files reads stamp t s rep input now ct cr st n)
  call-refines (authorize input now) files reads t s rep (c, st) =
      with_answer-Agree grant_answer files reads _ _
        (authorize_git_access-Agree cast files reads stamp storage sha256 t s rep input now c st)

  -- On tables that stand for the maps of the in-memory store, with a connection on which every
  -- statement is done, any sequence of lookups, archivings, revocations and authorisations gives the
  -- answers of the in-memory store, errors included, and leaves tables that stand for the maps it
  -- leaves, outside a transaction and with the disk as it was. The ids of the calls are in the form that the database prints, and
  -- their clocks not zero, where they are written, and kept by a timestamptz column.
  pub run_calls-refines :
      (calls : List Call) (files : Files) (reads : Reads) (t : Tables) (s : MemoryRepoStore)
      → Represents cast t s
      → All WellFormed calls
      → (t' : Tables) × (run_calls call_postgres calls (ready t files reads)
          ≡ ((run_calls (call_memory files) calls s).0, ready t' files reads))
        × Represents cast t' (run_calls (call_memory files) calls s).1
  unfolding run_calls
  run_calls-refines [] files reads t s rep good = (t, refl, rep)
  run_calls-refines (call ∷ calls) files reads t s rep (good, later) =
      let step = call-refines call files reads t s rep good in
      let rest = run_calls-refines calls files reads step.0 _ step.2 later in
      (rest.0, rw (step.1, rest.1) refl, rest.2)
