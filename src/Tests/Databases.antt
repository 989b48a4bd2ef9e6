-- ===== src/Tests/Databases.antt =====
-- Tables with one repo and one token, and the calls of internal/http/postgres.go on them.
use mathlib.Core.Option
use gitrdone.Common.{
  ◌≡◌, refl, ap, ◌∷◌, [], Bool, true, false, none, some, Option, ==_self, equal, list_eq, nat_eq,
  pair_eq, ◌==◌, if◌then◌else◌, List,
}
use gitrdone.Common.Dict.{lookup, insert}
use gitrdone.Common.Int.{pos}
use gitrdone.Idempotency.{IdempotencyInput}
use gitrdone.Postgres.Agree.{ready}
use gitrdone.Postgres.Atomic.{statement-Keeps}
use gitrdone.Postgres.Collision.{Fails, Taken, insert_rounds-Taken_inside}
use gitrdone.Postgres.Idempotency.{do_once}
use gitrdone.Postgres.Refinement.{
  Call, archive, revoke, authorize, call_memory, call_postgres, run_calls, run_calls-refines,
}
use gitrdone.Postgres.Represents.{Represents}
use gitrdone.Postgres.Rollback.{create_repo-Atomic, do_once-Atomic}
use gitrdone.Postgres.Minted.{Ends}
use gitrdone.Postgres.Minting.{create_repo_token-Ends}
use gitrdone.Postgres.Session.{World, Query, Outcome, done, failed, lost, statement}
use gitrdone.Postgres.Store
use gitrdone.Postgres.Store.{insert_rounds}
use gitrdone.Postgres.Tables.{
  Tables, RepoRow, TokenRow, is_postgres_unique_violation, find_row, scan_repo, join_repo,
  scan_repo_token,
}
use gitrdone.Repository.{CreateRepoInput, CreateRepoTokenInput, RepoTokenRecord}
use gitrdone.Memory.{token_record}
use gitrdone.Result.{Result, Error, other, ok, err}
use gitrdone.Secrets.{hex_encode, hash_repo_token, token_of, uuid_of, generate_repo_token, new_uuid}
use gitrdone.Text.{Bytes, codes}
use gitrdone.Tests.Stores.{disk, hash, repo_uuid, token_store}
use gitrdone.Time.{Time, is_zero}

-- a database that takes every id, and keeps every instant
abbrev any_uuid : Bytes → Result Bytes
any_uuid id = ok id

abbrev same_time : Time → Time
same_time t = t

abbrev demo_row : RepoRow
demo_row = record {
  id = repo_uuid;
  namespace = codes "team";
  name = codes "demo";
  default_branch = codes "main";
  archived_at = none;
  created_at = pos 1;
}

abbrev token_row : TokenRow
token_row = record {
  id = codes "t1";
  repo_id = repo_uuid;
  token_hash = codes "74";
  scope = codes "readwrite";
  subject = codes "ci";
  expires_at = pos 100;
  created_at = pos 1;
  revoked_at = none;
  last_used_at = none;
}

abbrev tables : Tables
tables = record { repos = demo_row ∷ []; repo_tokens = token_row ∷ []; idempotency_records = [] }

repo_if :
    (b : Bool)
    → (if b then some (scan_repo demo_row) else none)
      ≡ Option.map scan_repo (if b then some demo_row else none)
repo_if true = refl
repo_if false = refl

token_if :
    (b : Bool)
    → (if b then some (scan_repo_token demo_row token_row) else none)
      ≡ join_repo (demo_row ∷ []) (if b then some token_row else none)
unfolding find_row equal
token_if true = refl
token_if false = refl

hash_if :
    (b : Bool)
    → (if b then some (codes "t1") else none)
      ≡ Option.map (λ row. row.id) (if b then some token_row else none)
hash_if true = refl
hash_if false = refl

tables-Represents : Represents any_uuid tables token_store
unfolding lookup insert find_row equal
tables-Represents = record {
  repos = λ id. repo_if (repo_uuid == id);
  tokens = λ id. token_if (codes "t1" == id);
  hashes = λ text. hash_if (codes "74" == text);
  keys = (refl, tt);
  sound_repos = (refl, tt);
  sound_tokens = (record { canonical = refl; owned = refl; revoked_set = refl }, tt);
}

abbrev demo_calls : List Call
demo_calls =
    authorize (record { repo_id = repo_uuid; token = codes "t"; operation = codes "read" }) (pos 5)
    ∷ revoke (record { repo_id = repo_uuid; token_id = codes "t1" }) (pos 6)
    ∷ authorize (record { repo_id = repo_uuid; token = codes "t"; operation = codes "read" })
        (pos 7)
    ∷ archive repo_uuid (pos 8)
    ∷ []

run_calls-refines_example :
    (t' : Tables) × (run_calls
        (call_postgres any_uuid same_time disk hash)
        demo_calls
        (ready tables tt [])
      ≡ (
        (run_calls (call_memory any_uuid same_time disk hash tt) demo_calls token_store).0,
        ready t' tt [],
      ))
    × Represents any_uuid t'
        (run_calls (call_memory any_uuid same_time disk hash tt) demo_calls token_store).1
unfolding is_zero
run_calls-refines_example =
    run_calls-refines any_uuid same_time disk hash demo_calls tt [] tables token_store
      tables-Represents
      ((refl, refl), ((refl, refl, refl, refl), ((refl, refl), ((refl, refl, refl), tt))))

-- a connection on which the next statements have the given outcomes, with random bytes
abbrev at_start : List Outcome → World (Unit {0})
at_start outcomes = record {
  tables = tables;
  saved = none;
  aborted = false;
  outcomes = outcomes;
  files = tt;
  reads = some (1 ∷ []) ∷ some (2 ∷ []) ∷ some (3 ∷ []) ∷ some (4 ∷ []) ∷ [];
}

abbrev cut_off : Error
cut_off = other (codes "connection reset")

-- the commit is the fourth statement
abbrev no_commit : List Outcome
no_commit = done ∷ done ∷ done ∷ failed cut_off ∷ []

abbrev lib_input : CreateRepoInput
lib_input = record { namespace = codes "team"; name = codes "lib"; default_branch = codes "main" }

failed_creation :
    (Store.create_repo any_uuid same_time disk lib_input (pos 9) (at_start no_commit)).0
    ≡ err cut_off
unfolding Store.create_repo statement gitrdone.Postgres.Tables.select_repo_by_name find_row equal
    new_uuid gitrdone.Secrets.draw gitrdone.Postgres.Tables.insert_repo
failed_creation = refl

create_repo-Atomic_example :
    (Store.create_repo any_uuid same_time disk lib_input (pos 9) (at_start no_commit)).1.tables
    ≡ tables
create_repo-Atomic_example =
    create_repo-Atomic any_uuid same_time disk lib_input (pos 9) (at_start no_commit)
      (tt, (tt, (tt, (tt, tt))))
      (ap
        (λ result. (
          result,
          (Store.create_repo any_uuid same_time disk lib_input (pos 9) (at_start no_commit)).1,
        ))
        failed_creation)

abbrev plain : Bytes → Result Bytes
plain text = ok text

abbrev no_json : Bytes → Result Bytes
no_json text = err cut_off

abbrev keyed_input : IdempotencyInput
keyed_input = record { scope = codes "POST /tokens"; key = codes "k"; request_hash = codes "h" }

-- a creation that removes the tokens
abbrev wipe : Query (Unit {0}) Bytes
wipe = statement (λ t. ok (codes "gone", record t { repo_tokens = [] }))

failed_response :
    (do_once same_time no_json plain plain none keyed_input (pos 9) wipe (at_start [])).0
    ≡ err cut_off
unfolding do_once equal statement gitrdone.Postgres.Tables.select_idempotency lookup
failed_response = refl

do_once-Atomic_example :
    (do_once same_time no_json plain plain none keyed_input (pos 9) wipe (at_start [])).1.tables
    ≡ tables
unfolding equal
do_once-Atomic_example =
    do_once-Atomic same_time no_json plain plain keyed_input (pos 9) wipe (at_start []) refl
      (statement-Keeps tables _) tt
      (ap
        (λ result. (
          result,
          (do_once same_time no_json plain plain none keyed_input (pos 9) wipe (at_start [])).1,
        ))
        failed_response)

abbrev drawn : Bytes
drawn = token_of (1 ∷ [])

abbrev colliding : Tables
colliding = record tables {
  repo_tokens = record token_row { token_hash = hash_repo_token hash drawn } ∷ [];
}

abbrev minting : Option Tables → World (Unit {0})
minting saved = record (at_start []) { tables = colliding; saved = saved }

abbrev token_input : CreateRepoTokenInput
token_input = record {
  repo_id = repo_uuid;
  scope = codes "read";
  subject = codes "ci";
  ttl_seconds = pos 60;
}

drawn-Taken :
    (saved : Option Tables)
    → Taken any_uuid same_time hash token_input
        (scan_repo demo_row)
        (λ rounds. pos 9)
        (minting saved)
        (1 ∷ [])
        (2 ∷ [])
        (some (3 ∷ []) ∷ some (4 ∷ []) ∷ [])
unfolding generate_repo_token new_uuid find_row
drawn-Taken saved = record {
  reads = refl;
  generated = drawn;
  is_generated = refl;
  id = uuid_of (2 ∷ []);
  is_id = refl;
  cast_id = refl;
  cast_repo_id = refl;
  taken = rw (==_self (hash_repo_token hash drawn)) refl;
}

insert_rounds-Taken_inside_example :
    Fails
      (insert_rounds any_uuid same_time hash token_input
        (scan_repo demo_row)
        (λ rounds. pos 9)
        2
        (minting (some tables))).0
insert_rounds-Taken_inside_example =
    insert_rounds-Taken_inside any_uuid same_time hash token_input (scan_repo demo_row)
      (λ rounds. pos 9) 1 (minting (some tables)) _ _ _ refl refl (drawn-Taken (some tables))

-- the first token that is drawn collides, and the second is stored
abbrev second_token : RepoTokenRecord
second_token =
    token_record hash token_input (scan_repo demo_row) (pos 9) (token_of (3 ∷ []))
      (uuid_of (4 ∷ []))

drawn_again :
    (Store.create_repo_token any_uuid same_time hash token_input (λ rounds. pos 9) (minting none)).0
    ≡ ok second_token
unfolding Store.create_repo_token statement gitrdone.Postgres.Tables.select_repo find_row equal
    generate_repo_token gitrdone.Secrets.draw new_uuid gitrdone.Postgres.Tables.insert_token_row
    hash_repo_token is_postgres_unique_violation
drawn_again = refl

-- the answer of the second `INSERT` is lost
abbrev cut_short : List Outcome
cut_short = done ∷ done ∷ lost cut_off ∷ []

stored_unheard :
    (Store.create_repo_token any_uuid same_time hash token_input
      (λ rounds. pos 9)
      (record (minting none) { outcomes = cut_short })).0
    ≡ err cut_off
unfolding Store.create_repo_token statement gitrdone.Postgres.Tables.select_repo find_row equal
    generate_repo_token gitrdone.Secrets.draw new_uuid gitrdone.Postgres.Tables.insert_token_row
    hash_repo_token is_postgres_unique_violation
stored_unheard = refl

create_repo_token-Ends_example : Ends any_uuid same_time hash token_input colliding cut_short (
    Store.create_repo_token any_uuid same_time hash token_input
      (λ rounds. pos 9)
      (record (minting none) { outcomes = cut_short }))
unfolding is_postgres_unique_violation equal
create_repo_token-Ends_example =
    create_repo_token-Ends any_uuid same_time hash token_input (λ rounds. pos 9)
      (record (minting none) { outcomes = cut_short }) (tt, (tt, (refl, tt)))
