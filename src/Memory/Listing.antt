-- ===== src/Memory/Listing.antt =====
-- `ListRepoTokens` of `memoryRepoStore` in internal/http/repository.go. `sort.Slice` is modelled by
-- insertion: the order it is given tells any two tokens of different ids apart.
use gitrdone.Common.{
  ◌≡◌, ◌↔◌, ◌⊎◌, ◌<◌, refl, sym, ap, subst, inl, inr, Bool, true, false, not, List, [], ◌∷◌, arith,
  nat_eq, list_eq, ◌==◌, ==_iff, Bool-cases, if◌then◌else◌,
}
use gitrdone.Common.Dict.{Dict, lookup}
use gitrdone.Common.Int.{◌<ℤ◌, eqb_ℤ, eqb_ℤ_iff}
use gitrdone.Common.Lists.{Among}
use gitrdone.Memory.{MemoryRepoStore, stored_token}
use gitrdone.Repository.{RepoTokenRecord}
use gitrdone.Result.{repo_not_found, Result, ok, ◌>>=◌, or_fail, >>=-eq-ok, ok-injective}
use gitrdone.Text.{Bytes, str_ltb}
use gitrdone.Time.{before}

-- the order of `sortRepoTokenRecords`
unfoldable pub token_before : RepoTokenRecord → RepoTokenRecord → Bool
token_before t u =
    if eqb_ℤ t.created_at u.created_at then str_ltb t.id u.id else before t.created_at u.created_at

insert_token : RepoTokenRecord → List RepoTokenRecord → List RepoTokenRecord
insert_token t [] = t ∷ []
insert_token t (u ∷ tokens) =
    let rest = insert_token t tokens in if token_before t u then t ∷ u ∷ tokens else u ∷ rest

unfoldable pub sort_repo_token_records : List RepoTokenRecord → List RepoTokenRecord
unfolding insert_token
sort_repo_token_records [] = []
sort_repo_token_records (t ∷ tokens) = insert_token t (sort_repo_token_records tokens)

-- the loop over `store.tokens`
tokens_of : Bytes → Dict Bytes RepoTokenRecord → List RepoTokenRecord
tokens_of repo_id [] = []
tokens_of repo_id ((id, t) ∷ tokens) =
    let rest = tokens_of repo_id tokens in
    if not (t.repo_id == repo_id) then rest else stored_token t ∷ rest

unfoldable pub list_repo_tokens : Bytes → MemoryRepoStore → Result (List RepoTokenRecord)
unfolding tokens_of sort_repo_token_records
list_repo_tokens repo_id store = do
  repo ← or_fail (lookup repo_id store.repos) repo_not_found
  ok (sort_repo_token_records (tokens_of repo_id store.tokens))

-- The order of texts by their bytes: the first byte that differs decides, and a text stands before
-- the ones that it begins.
abbrev pub LexLe : Bytes → Bytes → Type 0
LexLe [] b = Unit
LexLe (x ∷ a) [] = ⊥
LexLe (x ∷ a) (y ∷ b) = (x < y) ⊎ ((x ≡ y) × LexLe a b)

-- `t` is the older token, or as old as `u` with an id that is not above that of `u`.
abbrev pub InOrder : RepoTokenRecord → RepoTokenRecord → Type 0
InOrder t u = (t.created_at <ℤ u.created_at) ⊎ ((t.created_at ≡ u.created_at) × LexLe t.id u.id)

pub data Sorted : List RepoTokenRecord → Type 0 where
  empty : Sorted []
  single : (t : RepoTokenRecord) → Sorted (t ∷ [])
  more :
      (t u : RepoTokenRecord) (tokens : List RepoTokenRecord)
      → InOrder t u
      → Sorted (u ∷ tokens)
      → Sorted (t ∷ u ∷ tokens)

LexLe-above : (a b : Bytes) → str_ltb b a ≡ false → LexLe a b
unfolding str_ltb
LexLe-above [] b h = tt
LexLe-above (x ∷ a) [] h = absurd cc
LexLe-above (x ∷ a) (y ∷ b) h = ground (arith, LexLe-above a b, ==_iff x y, ==_iff y x)

LexLe-below : (a b : Bytes) → str_ltb a b ≡ true → LexLe a b
unfolding str_ltb
LexLe-below [] b h = tt
LexLe-below (x ∷ a) [] h = absurd cc
LexLe-below (x ∷ a) (y ∷ b) h = ground (arith, LexLe-below a b, ==_iff x y)

token_before-InOrder : (t u : RepoTokenRecord) → token_before t u ≡ true → InOrder t u
unfolding token_before before
token_before-InOrder t u h =
    ground (arith, LexLe-below t.id u.id, eqb_ℤ_iff t.created_at u.created_at)

token_after-InOrder : (t u : RepoTokenRecord) → token_before u t ≡ false → InOrder t u
unfolding token_before before
token_after-InOrder t u h =
    ground (arith, LexLe-above t.id u.id, eqb_ℤ_iff u.created_at t.created_at)

insert_token-Sorted :
    (t : RepoTokenRecord) (tokens : List RepoTokenRecord)
    → Sorted tokens
    → Sorted (insert_token t tokens)
unfolding insert_token
insert_token-Sorted t [] s = single t
insert_token-Sorted t (u ∷ []) s = elim (Bool-cases (token_before t u)) [
  | inl first ↦ rw first (more t u [] (token_before-InOrder t u first) s)
  | inr later ↦ rw later (more u t [] (token_after-InOrder u t later) (single t))
]
insert_token-Sorted t (u ∷ v ∷ tokens) (more _ _ _ next s) = elim (Bool-cases (token_before t u)) [
  | inl first ↦
      rw first (more t u (v ∷ tokens) (token_before-InOrder t u first) (more u v tokens next s))
  | inr later ↦
      let u_first = token_after-InOrder u t later in
      elim (Bool-cases (token_before t v)) [
        | inl second ↦
            rw (later, second)
              (more u t (v ∷ tokens) u_first (more t v tokens (token_before-InOrder t v second) s))
        | inr third ↦
            (let rest = insert_token-Sorted t (v ∷ tokens) s in
              rw (later, third)
                (more u v (insert_token t tokens) next (rw (third, insert_token) at rest)))
      ]
]

sort-Sorted : (tokens : List RepoTokenRecord) → Sorted (sort_repo_token_records tokens)
unfolding sort_repo_token_records
sort-Sorted [] = empty
sort-Sorted (t ∷ tokens) =
    insert_token-Sorted t (sort_repo_token_records tokens) (sort-Sorted tokens)

insert_token-Among :
    (v t : RepoTokenRecord) (tokens : List RepoTokenRecord)
    → Among v (insert_token t tokens) ↔ Among v (t ∷ tokens)
unfolding insert_token
insert_token-Among v t [] = (λ m. m, λ m. m)
insert_token-Among v t (u ∷ tokens) =
    let rest = insert_token-Among v t tokens in
    elim (Bool-cases (token_before t u)) [
      | inl first ↦ rw first (λ m. m, λ m. m)
      | inr later ↦ rw later (λ m. ground (arith, rest), λ m. ground (arith, rest))
    ]

sort-Among :
    (v : RepoTokenRecord) (tokens : List RepoTokenRecord)
    → Among v (sort_repo_token_records tokens) ↔ Among v tokens
unfolding sort_repo_token_records
sort-Among v [] = (λ m. m, λ m. m)
sort-Among v (t ∷ tokens) =
    let step = insert_token-Among v t (sort_repo_token_records tokens) in
    let rest = sort-Among v tokens in
    (λ m. ground (arith, step, rest), λ m. ground (arith, step, rest))

-- A token that the map holds for the repo, without its text.
abbrev pub ListedFor : Bytes → Dict Bytes RepoTokenRecord → RepoTokenRecord → Type 0
ListedFor repo_id stored v =
    (id : Bytes) × (t : RepoTokenRecord) × Among (id, t) stored
    × (t.repo_id ≡ repo_id)
    × (v ≡ stored_token t)

ListedFor-later :
    (repo_id : Bytes) (first : Bytes × RepoTokenRecord) (stored : Dict Bytes RepoTokenRecord)
    (v : RepoTokenRecord)
    → ListedFor repo_id stored v
    → ListedFor repo_id (first ∷ stored) v
ListedFor-later repo_id first stored v (id, t, among, own, is_v) = (id, t, inr among, own, is_v)

tokens_of-ListedFor :
    (repo_id : Bytes) (stored : Dict Bytes RepoTokenRecord) (v : RepoTokenRecord)
    → Among v (tokens_of repo_id stored)
    → ListedFor repo_id stored v
unfolding tokens_of
tokens_of-ListedFor repo_id [] v m = absurd m
tokens_of-ListedFor repo_id ((id, t) ∷ stored) v m =
    let rest = tokens_of-ListedFor repo_id stored v in
    elim (Bool-cases (t.repo_id == repo_id)) [
      | inl own ↦ elim (rw own at m) [
        | inl first ↦ (id, t, inl refl, (==_iff t.repo_id repo_id).0 own, sym first)
        | inr later ↦ ListedFor-later repo_id (id, t) stored v (rest later)
      ]
      | inr other ↦ ListedFor-later repo_id (id, t) stored v (rest (rw other at m))
    ]

ListedFor-tokens_of :
    (repo_id : Bytes) (stored : Dict Bytes RepoTokenRecord) (id : Bytes) (t : RepoTokenRecord)
    → Among (id, t) stored
    → t.repo_id ≡ repo_id
    → Among (stored_token t) (tokens_of repo_id stored)
unfolding tokens_of
ListedFor-tokens_of repo_id [] id t m own = absurd m
ListedFor-tokens_of repo_id ((i, u) ∷ stored) id t m own =
    let rest = ListedFor-tokens_of repo_id stored id t in
    elim m [
      | inl first ↦
          let same = ap (λ p. p.1) first in rw (same, (==_iff t.repo_id repo_id).1 own) (inl refl)
      | inr later ↦ elim (Bool-cases (u.repo_id == repo_id)) [
        | inl shown ↦ rw shown (inr (rest later own))
        | inr other ↦ rw other (rest later own)
      ]
    ]

tokens_of-Among :
    (repo_id : Bytes) (stored : Dict Bytes RepoTokenRecord) (v : RepoTokenRecord)
    → Among v (tokens_of repo_id stored) ↔ ListedFor repo_id stored v
tokens_of-Among repo_id stored v = (
  tokens_of-ListedFor repo_id stored v,
  λ (id, t, among, own, is_v).
      subst (λ u. Among u (tokens_of repo_id stored)) (sym is_v)
        (ListedFor-tokens_of repo_id stored id t among own),
)

-- A listing shows exactly the tokens that the store holds for the repo asked for, each without its
-- text, the older ones first and, where creation times agree, in the order of the bytes of the ids.
pub list_repo_tokens-Sorted :
    (repo_id : Bytes) (store : MemoryRepoStore) (tokens : List RepoTokenRecord)
    → list_repo_tokens repo_id store ≡ ok tokens
    → Sorted tokens × ((v : RepoTokenRecord) → Among v tokens ↔ ListedFor repo_id store.tokens v)
unfolding list_repo_tokens
list_repo_tokens-Sorted repo_id store tokens h =
    let (_, _, made) = >>=-eq-ok (or_fail (lookup repo_id store.repos) repo_not_found) _ h in
    let listed = tokens_of repo_id store.tokens in
    subst
      (λ ts. Sorted ts × ((v : RepoTokenRecord) → Among v ts ↔ ListedFor repo_id store.tokens v))
      (ok-injective made)
      (
        sort-Sorted listed,
        λ v. (
          λ m. (tokens_of-Among repo_id store.tokens v).0 ((sort-Among v listed).0 m),
          λ m. (sort-Among v listed).1 ((tokens_of-Among repo_id store.tokens v).1 m),
        ),
      )
