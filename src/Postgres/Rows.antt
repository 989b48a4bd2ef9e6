-- ===== src/Postgres/Rows.antt =====
-- What selects and updates of internal/http/postgres.go find in a table, and its keys.
use mathlib.Core.Option
use gitrdone.Common.{
  ◌≡◌, refl, Bool, true, Option, none, some, sym, ap, ◌∙◌, subst, inl, inr, ◌⊎◌, Bool-cases, List,
  [], ◌∷◌, All, arith, ◌==◌, nat_eq, list_eq, ==_iff, ==_self, if◌then◌else◌,
}
use gitrdone.Postgres.Tables.{TokenRow, find_row, update_rows, token_has_id, token_of_repo}
use gitrdone.Text.{Bytes}

module _ {ℓ} {A : Type ℓ} where
  -- the row behind an update
  abbrev pub change : (A → Bool) → (A → A) → A → A
  change where_ set row = if where_ row then set row else row

  pub find_row-true :
      (p : A → Bool) (rows : List A) {row : A} → find_row p rows ≡ some row → p row ≡ true
  unfolding find_row
  find_row-true p [] h = absurd cc
  find_row-true p (r ∷ rows) {row = row} h =
      let later = find_row-true p rows {row = row} in ground (arith, later)

  pub find_row-update_rows :
      (p where_ : A → Bool) (set : A → A) (rows : List A)
      → ((row : A) → p (change where_ set row) ≡ p row)
      → find_row p (update_rows where_ set rows) ≡ Option.map (change where_ set) (find_row p rows)
  unfolding find_row update_rows
  find_row-update_rows p where_ set [] same = refl
  find_row-update_rows p where_ set (r ∷ rows) same =
      ground (arith, find_row-update_rows p where_ set rows same, same r)

  pub find_row-All :
      (P : A → Type 0) (p : A → Bool) (rows : List A) {row : A}
      → All P rows
      → find_row p rows ≡ some row
      → P row
  unfolding find_row
  find_row-All P p [] all h = absurd cc
  find_row-All P p (r ∷ rows) {row = row} (first, all) h = elim (Bool-cases (p r)) [
    | inl hit ↦
        let same : some r ≡ some row =
          sym (ap (λ b. if b then some r else find_row p rows) hit) ∙ h in
        let same_row : r ≡ row = cc in subst P same_row first
    | inr miss ↦
        find_row-All P p rows all (sym (ap (λ b. if b then some r else find_row p rows) miss) ∙ h)
  ]

  pub update_rows-All :
      (P : A → Type 0) (where_ : A → Bool) (set : A → A) (rows : List A)
      → ((row : A) → P row → P (set row))
      → All P rows
      → All P (update_rows where_ set rows)
  unfolding update_rows
  update_rows-All P where_ set [] step all = tt
  update_rows-All P where_ set (r ∷ rows) step (first, all) = (
    elim (Bool-cases (where_ r)) [ inl hit ↦ rw hit (step r first) | inr miss ↦ rw miss first ],
    update_rows-All P where_ set rows step all,
  )

abbrev pub DistinctIds : List TokenRow → Type 0
DistinctIds [] = Unit
DistinctIds (row ∷ rows) = (find_row (token_has_id row.id) rows ≡ none) × DistinctIds rows

pub find_row-id :
    (p : TokenRow → Bool) (rows : List TokenRow) {row : TokenRow}
    → DistinctIds rows
    → find_row p rows ≡ some row
    → find_row (token_has_id row.id) rows ≡ some row
unfolding find_row
find_row-id p [] d h = absurd cc
find_row-id p (r ∷ rows) {row = row} (fresh, d) h =
    let later = find_row-id p rows {row = row} d in
    ground (arith, later, ==_self r.id, ==_iff r.id row.id)

pub find_row-token_of_repo-none :
    (id owner : Bytes) (rows : List TokenRow)
    → find_row (token_has_id id) rows ≡ none
    → find_row (token_of_repo id owner) rows ≡ none
unfolding find_row
find_row-token_of_repo-none id owner [] h = refl
find_row-token_of_repo-none id owner (r ∷ rows) h =
    ground (arith, find_row-token_of_repo-none id owner rows)

pub find_row-token_of_repo :
    (id owner : Bytes) (rows : List TokenRow) {row : TokenRow}
    → DistinctIds rows
    → find_row (token_has_id id) rows ≡ some row
    → find_row (token_of_repo id owner) rows ≡ (if row.repo_id == owner then some row else none)
unfolding find_row
find_row-token_of_repo id owner [] d h = absurd cc
find_row-token_of_repo id owner (r ∷ rows) {row = row} (fresh, d) h =
    let later = find_row-token_of_repo id owner rows {row = row} d in
    let none_later = find_row-token_of_repo-none id owner rows in
    ground (arith, later, none_later, ==_iff r.id id, ==_iff r.repo_id owner)

-- A field that an update keeps.
pub field-change {ℓ κ} :
    {A : Type ℓ} {B : Type κ} (field : A → B) (where_ : A → Bool) (set : A → A)
    → ((row : A) → field (set row) ≡ field row)
    → (row : A) → field (change where_ set row) ≡ field row
field-change field where_ set same row = elim (Bool-cases (where_ row)) [
  | inl hit ↦ rw hit (same row)
  | inr miss ↦ rw miss refl
]

pub update_rows-DistinctIds :
    (where_ : TokenRow → Bool) (set : TokenRow → TokenRow) (rows : List TokenRow)
    → ((row : TokenRow) → (set row).id ≡ row.id)
    → DistinctIds rows
    → DistinctIds (update_rows where_ set rows)
unfolding update_rows
update_rows-DistinctIds where_ set [] same d = tt
update_rows-DistinctIds where_ set (r ∷ rows) same (fresh, d) = (
  ap (λ id. find_row (token_has_id id) (update_rows where_ set rows))
        (field-change (λ row. row.id) where_ set same r)
      ∙ find_row-update_rows (token_has_id r.id) where_ set rows
          (λ row. ap (λ id. id == r.id) (field-change (λ row. row.id) where_ set same row))
      ∙ ap (Option.map (change where_ set)) fresh,
  update_rows-DistinctIds where_ set rows same d,
)

module _ {ℓ} {A : Type ℓ} (key : A → Bytes) where
  abbrev pub has_key : Bytes → A → Bool
  has_key k row = key row == k

  pub find_row-update_key :
      (set : A → A) (k j : Bytes) (rows : List A)
      → ((row : A) → key (set row) ≡ key row)
      → find_row (has_key j) (update_rows (has_key k) set rows)
        ≡ (if k == j then Option.map set (find_row (has_key k) rows) else find_row (has_key j) rows)
  unfolding find_row update_rows
  find_row-update_key set k j [] same = ground arith
  find_row-update_key set k j (r ∷ rows) same =
      let later = find_row-update_key set k j rows same in
      ground (arith, later, same r, ==_iff k j, ==_iff (key r) k, ==_iff (key r) j)

pub update_rows-none {ℓ} :
    {A : Type ℓ} (p : A → Bool) (set : A → A) (rows : List A)
    → find_row p rows ≡ none
    → update_rows p set rows ≡ rows
unfolding find_row update_rows
update_rows-none p set [] h = refl
update_rows-none p set (r ∷ rows) h =
    let later = update_rows-none p set rows in ground (arith, later)

pub update_rows-token_of_repo :
    (id owner : Bytes) (set : TokenRow → TokenRow) (rows : List TokenRow) {row : TokenRow}
    → DistinctIds rows
    → find_row (token_has_id id) rows ≡ some row
    → row.repo_id == owner ≡ true
    → update_rows (token_of_repo id owner) set rows ≡ update_rows (token_has_id id) set rows
unfolding find_row update_rows
update_rows-token_of_repo id owner set [] d h o = refl
update_rows-token_of_repo id owner set (r ∷ rows) {row = row} (fresh, d) h o =
    let later = update_rows-token_of_repo id owner set rows {row = row} d in
    let unchanged = update_rows-none (token_has_id id) set rows in
    let not_owned = find_row-token_of_repo-none id owner rows in
    let unchanged_owned = update_rows-none (token_of_repo id owner) set rows in
    ground
      (arith, later, unchanged, not_owned, unchanged_owned, ==_iff r.id id, ==_iff r.repo_id owner)

-- What is found before an update is found behind it.
pub find_row-update_self {ℓ} :
    {A : Type ℓ} (key : A → Bytes) (set : A → A) (k : Bytes) (rows : List A)
    → ((row : A) → key (set row) ≡ key row)
    → find_row (has_key key k) (update_rows (has_key key k) set rows)
      ≡ Option.map set (find_row (has_key key k) rows)
find_row-update_self key set k rows same =
    find_row-update_key key set k k rows same
    ∙ ap
        (λ b.
          if b
          then Option.map set (find_row (has_key key k) rows)
          else find_row (has_key key k) rows)
        (==_self k)

pub Option-cases {ℓ} : {A : Type ℓ} (o : Option A) → (o ≡ none) ⊎ ((a : A) × (o ≡ some a))
Option-cases none = inl refl
Option-cases (some a) = inr (a, refl)
