-- ===== src/Postgres/Represents.antt =====
-- The maps of the in-memory store that the tables of internal/http/postgres.go stand for.
use mathlib.Core.Option
use gitrdone.Common.{
  ◌≡◌, refl, sym, ap, ◌∙◌, inl, inr, Bool, true, false, not, Option, none, some, List, [], ◌∷◌, All,
  arith, ◌==◌, nat_eq, list_eq, ==_iff, Bool-cases, if◌then◌else◌,
}
use gitrdone.Common.Dict.{Dict, lookup, insert, lookup-insert}
use gitrdone.Memory.{MemoryRepoStore}
use gitrdone.Postgres.Rows.{
  find_row-update_rows, find_row-update_key, update_rows-All, DistinctIds, field-change, change,
  update_rows-DistinctIds,
}
use gitrdone.Postgres.Tables.{
  RepoRow, TokenRow, Tables, find_row, update_rows, scan_repo, join_found, join_repo, repo_has_id,
  token_has_id, token_has_hash, coalesce, time_from_postgres,
}
use gitrdone.Repository.{RepoRecord, RepoTokenRecord}
use gitrdone.Result.{Result, ok}
use gitrdone.Text.{Bytes, is_some}
use gitrdone.Time.{Time, is_zero}

-- a timestamp column holds no zero time
abbrev pub is_set : Option Time → Bool
is_set none = true
is_set (some t) = not (is_zero t)

abbrev pub RepoSound : RepoRow → Type 0
RepoSound row = is_set row.archived_at ≡ true

-- the id is in the form that the database prints, and the repo exists
pub record TokenSound (cast : Bytes → Result Bytes) (repos : List RepoRow) (row : TokenRow)
    : Type 0 where
  pub canonical : cast row.id ≡ ok row.id
  pub owned : is_some (find_row (repo_has_id row.repo_id) repos) ≡ true
  pub revoked_set : is_set row.revoked_at ≡ true

pub record Represents (cast : Bytes → Result Bytes) (t : Tables) (s : MemoryRepoStore)
    : Type 0 where
  pub repos :
      (id : Bytes) → lookup id s.repos ≡ Option.map scan_repo (find_row (repo_has_id id) t.repos)
  pub tokens :
      (id : Bytes)
      → lookup id s.tokens ≡ join_repo t.repos (find_row (token_has_id id) t.repo_tokens)
  pub hashes :
      (hash : Bytes)
      → lookup hash s.token_ids_by_hash
        ≡ Option.map (λ row. row.id) (find_row (token_has_hash hash) t.repo_tokens)
  pub keys : DistinctIds t.repo_tokens
  pub sound_repos : All RepoSound t.repos
  pub sound_tokens : All (TokenSound cast t.repos) t.repo_tokens

-- `archived_at` or `revoked_at` behind a step of either store
pub time-coalesce :
    (column : Option Time) (now : Time)
    → is_set column ≡ true
    → time_from_postgres (coalesce column now)
      ≡ (if is_zero (time_from_postgres column) then now else time_from_postgres column)
unfolding is_zero
time-coalesce none now h = refl
time-coalesce (some t) now h = ground arith

pub coalesce-is_set :
    (column : Option Time) (now : Time)
    → is_set column ≡ true
    → is_zero now ≡ false
    → is_set (coalesce column now) ≡ true
coalesce-is_set none now h n = ap not n
coalesce-is_set (some t) now h n = h

-- an update of `repos` that keeps the columns a join reads
pub record KeepsNames (set : RepoRow → RepoRow) : Type 0 where
  pub id : (row : RepoRow) → (set row).id ≡ row.id
  pub namespace : (row : RepoRow) → (set row).namespace ≡ row.namespace
  pub name : (row : RepoRow) → (set row).name ≡ row.name

join_found-change :
    (where_ : RepoRow → Bool) (set : RepoRow → RepoRow) (row : TokenRow) (found : Option RepoRow)
    → KeepsNames set
    → join_found row (Option.map (change where_ set) found) ≡ join_found row found
join_found-change where_ set row none keeps = refl
join_found-change where_ set row (some repo) keeps =
    rw
      (
        field-change (λ r. r.namespace) where_ set keeps.namespace repo,
        field-change (λ r. r.name) where_ set keeps.name repo,
      )
      refl

pub join_repo-update_rows :
    (k : Bytes) (set : RepoRow → RepoRow) (repos : List RepoRow) (row : Option TokenRow)
    → KeepsNames set
    → join_repo (update_rows (repo_has_id k) set repos) row ≡ join_repo repos row
join_repo-update_rows k set repos none keeps = refl
join_repo-update_rows k set repos (some row) keeps =
    ap (join_found row) (
      find_row-update_rows (repo_has_id row.repo_id) (repo_has_id k) set repos (λ r.
        ap (λ id. id == row.repo_id) (field-change (λ r. r.id) (repo_has_id k) set keeps.id r)))
    ∙ join_found-change (repo_has_id k) set row _ keeps

is_some-map {ℓ} : {A : Type ℓ} (f : A → A) (o : Option A) → is_some (Option.map f o) ≡ is_some o
is_some-map f none = refl
is_some-map f (some a) = refl

All-map {ℓ} :
    {A : Type ℓ} {P Q : A → Type 0} (rows : List A)
    → ((row : A) → P row → Q row)
    → All P rows
    → All Q rows
All-map [] step all = tt
All-map (row ∷ rows) step (first, all) = (step row first, All-map rows step all)

id-map :
    (where_ : TokenRow → Bool) (set : TokenRow → TokenRow) (found : Option TokenRow)
    → ((row : TokenRow) → (set row).id ≡ row.id)
    → Option.map (λ row. row.id) (Option.map (change where_ set) found)
      ≡ Option.map (λ row. row.id) found
id-map where_ set none same = refl
id-map where_ set (some row) same = ap some (field-change (λ r. r.id) where_ set same row)

module _ (cast : Bytes → Result Bytes) (t : Tables) (s : MemoryRepoStore)
    (rep : Represents cast t s) where
  -- a token's row changes, and its entry with it
  pub Represents-token :
      (id : Bytes) (set : TokenRow → TokenRow) (row : TokenRow) (token : RepoTokenRecord)
      (entries : Dict Bytes RepoTokenRecord)
      → find_row (token_has_id id) t.repo_tokens ≡ some row
      → ((r : TokenRow) → (set r).id ≡ r.id)
      → ((r : TokenRow) → (set r).token_hash ≡ r.token_hash)
      → ((r : TokenRow) → TokenSound cast t.repos r → TokenSound cast t.repos (set r))
      → join_repo t.repos (some (set row)) ≡ some token
      → ((j : Bytes) → lookup j entries ≡ (if id == j then some token else lookup j s.tokens))
      → Represents cast
          (record t { repo_tokens = update_rows (token_has_id id) set t.repo_tokens })
          (record s { tokens = entries })
  Represents-token id set row token entries found ids hs sound joined entry = record {
    repos = rep.repos;
    tokens = λ j.
        entry j
        ∙ sym (
            ap (join_repo t.repos) (find_row-update_key (λ r. r.id) set id j t.repo_tokens ids)
            ∙ elim (Bool-cases (id == j)) [
              | inl hit ↦ rw hit (ap (λ o. join_repo t.repos (Option.map set o)) found ∙ joined)
              | inr miss ↦ rw miss (sym (rep.tokens j))
            ]);
    hashes = λ h.
        rep.hashes h
        ∙ sym (
            ap (Option.map (λ r. r.id)) (
              find_row-update_rows (token_has_hash h) (token_has_id id) set t.repo_tokens (λ r.
                ap (λ hash. hash == h)
                  (field-change (λ r. r.token_hash) (token_has_id id) set hs r)))
            ∙ id-map (token_has_id id) set _ ids);
    keys = update_rows-DistinctIds _ set t.repo_tokens ids rep.keys;
    sound_repos = rep.sound_repos;
    sound_tokens = update_rows-All _ _ set t.repo_tokens sound rep.sound_tokens;
  }

  pub Represents-repo :
      (id : Bytes) (set : RepoRow → RepoRow) (row : RepoRow) (entries : Dict Bytes RepoRecord)
      → find_row (repo_has_id id) t.repos ≡ some row
      → KeepsNames set
      → ((r : RepoRow) → RepoSound r → RepoSound (set r))
      → ((j : Bytes)
          → lookup j entries ≡ (if id == j then some (scan_repo (set row)) else lookup j s.repos))
      → Represents cast
          (record t { repos = update_rows (repo_has_id id) set t.repos })
          (record s { repos = entries })
  Represents-repo id set row entries found keeps sound entry = record {
    repos = λ j.
        entry j
        ∙ sym (
            ap (Option.map scan_repo) (find_row-update_key (λ r. r.id) set id j t.repos keeps.id)
            ∙ elim (Bool-cases (id == j)) [
              | inl hit ↦ rw hit (ap (λ o. Option.map scan_repo (Option.map set o)) found)
              | inr miss ↦ rw miss (sym (rep.repos j))
            ]);
    tokens = λ j. rep.tokens j ∙ sym (join_repo-update_rows id set t.repos _ keeps);
    hashes = rep.hashes;
    keys = rep.keys;
    sound_repos = update_rows-All _ _ set t.repos sound rep.sound_repos;
    sound_tokens =
        All-map t.repo_tokens
          (λ r k. record {
            canonical = k.canonical;
            owned =
                ap is_some (
                  find_row-update_rows (repo_has_id r.repo_id) (repo_has_id id) set t.repos (λ q.
                    ap (λ i. i == r.repo_id)
                      (field-change (λ r. r.id) (repo_has_id id) set keeps.id q)))
                ∙ is_some-map _ _
                ∙ k.owned;
            revoked_set = k.revoked_set;
          })
          rep.sound_tokens;
  }

-- What a write of `v` at `k` shows, where the key that is written is `k`, or where `v` is there already.
pub lookup-written :
    {V : Type 0} (k i : Bytes) (v w : V) (m : Dict Bytes V)
    → i ≡ k
    → v ≡ w
    → (j : Bytes) → lookup j (insert i v m) ≡ (if k == j then some w else lookup j m)
lookup-written k i v w m same_key same_value j =
    lookup-insert i j v m
    ∙ ap (λ key. if key == j then some v else lookup j m) same_key
    ∙ ap (λ value. if k == j then some value else lookup j m) same_value

pub lookup-there :
    {V : Type 0} (k : Bytes) (v w : V) (m : Dict Bytes V)
    → lookup k m ≡ some v
    → v ≡ w
    → (j : Bytes) → lookup j m ≡ (if k == j then some w else lookup j m)
lookup-there k v w m there same j = elim (Bool-cases (k == j)) [
  | inl hit ↦ rw hit (ap (λ key. lookup key m) (sym ((==_iff k j).0 hit)) ∙ there ∙ ap some same)
  | inr miss ↦ rw miss refl
]
