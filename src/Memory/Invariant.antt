-- ===== src/Memory/Invariant.antt =====
-- What holds of the four maps of the store between operations, and that each write keeps it.
use gitrdone.Common.{
  ◌≡◌, refl, sym, ap, ◌∙◌, ◌≢◌, ◌⊎◌, inl, inr, none, some, [], arith, nat_eq, list_eq, Bool-cases,
  ==_iff, ◌==◌,
}
use gitrdone.Common.Dict.{lookup, lookup-insert_self, lookup-insert_ne, lookup-insert-cases}
use gitrdone.Repository.{RepoRecord, RepoTokenRecord}
use gitrdone.Text.{Bytes}
use gitrdone.Memory.{
  MemoryRepoStore, new_memory_repo_store, name_key, add_repo, put_repo, put_token, add_token,
  stored_token,
}

pub record Inv (s : MemoryRepoStore) : Type 0 where
  -- a repo stands under its id, and its name leads to it
  pub repo_id : (id : Bytes) (r : RepoRecord) → lookup id s.repos ≡ some r → r.id ≡ id
  pub repo_named :
      (id : Bytes) (r : RepoRecord)
      → lookup id s.repos ≡ some r
      → lookup (name_key r.namespace r.name) s.by_name ≡ some id
  -- a name leads to a repo that has it
  pub name_repo :
      (key id : Bytes)
      → lookup key s.by_name ≡ some id
      → (r : RepoRecord) × (lookup id s.repos ≡ some r) × (name_key r.namespace r.name ≡ key)
  -- a token stands under its id without its secret, its hash leads to it, and its repo exists
  pub token_id : (id : Bytes) (t : RepoTokenRecord) → lookup id s.tokens ≡ some t → t.id ≡ id
  pub token_secret : (id : Bytes) (t : RepoTokenRecord) → lookup id s.tokens ≡ some t → t.token ≡ []
  pub token_hashed :
      (id : Bytes) (t : RepoTokenRecord)
      → lookup id s.tokens ≡ some t
      → lookup t.token_hash s.token_ids_by_hash ≡ some id
  pub token_repo :
      (id : Bytes) (t : RepoTokenRecord)
      → lookup id s.tokens ≡ some t
      → (r : RepoRecord) × (lookup t.repo_id s.repos ≡ some r)
  -- a hash leads to a token that has it
  pub hash_token :
      (hash id : Bytes)
      → lookup hash s.token_ids_by_hash ≡ some id
      → (t : RepoTokenRecord) × (lookup id s.tokens ≡ some t) × (t.token_hash ≡ hash)

pub new_memory_repo_store-Inv : Inv new_memory_repo_store
unfolding lookup
new_memory_repo_store-Inv = record {
  repo_id = λ id r e. cc;
  repo_named = λ id r e. cc;
  name_repo = λ key id e. absurd (cc e);
  token_id = λ id t e. cc;
  token_secret = λ id t e. cc;
  token_hashed = λ id t e. cc;
  token_repo = λ id t e. absurd (cc e);
  hash_token = λ hash id e. absurd (cc e);
}

Bytes-cases : (a b : Bytes) → (a ≡ b) ⊎ (a ≢ b)
Bytes-cases a b = elim (Bool-cases (a == b)) [
  | inl same ↦ inl ((==_iff a b).0 same)
  | inr other ↦ inr λ e. ground (arith, ==_iff a b)
]

-- the fields of `Inv` that the maps of repos and names carry, and those of the tokens
module _ {s : MemoryRepoStore} (v : Inv s) where
  module _ (r : RepoRecord) (fresh : lookup r.id s.repos ≡ none)
      (unnamed : lookup (name_key r.namespace r.name) s.by_name ≡ none) where
    add_repo-named :
        (id : Bytes) (q : RepoRecord)
        → lookup id (add_repo r s).repos ≡ some q
        → lookup (name_key q.namespace q.name) (add_repo r s).by_name ≡ some id
    add_repo-named id q e = elim (lookup-insert-cases r.id id r q s.repos e) [
      | inl (k, same) ↦
          ground (arith, lookup-insert_self (name_key r.namespace r.name) r.id s.by_name)
      | inr (k, old) ↦
          let named = v.repo_named id q old in
          lookup-insert_ne (name_key r.namespace r.name) (name_key q.namespace q.name) r.id
            s.by_name (λ c. cc (ap (λ n. lookup n s.by_name) c))
          ∙ named
    ]

    add_repo-keeps :
        (id : Bytes) (q : RepoRecord)
        → lookup id s.repos ≡ some q
        → lookup id (add_repo r s).repos ≡ some q
    add_repo-keeps id q e =
        lookup-insert_ne r.id id r s.repos (λ c. cc (ap (λ n. lookup n s.repos) c)) ∙ e

    add_repo-name :
        (key id : Bytes)
        → lookup key (add_repo r s).by_name ≡ some id
        → (q : RepoRecord) × (lookup id (add_repo r s).repos ≡ some q)
          × (name_key q.namespace q.name ≡ key)
    add_repo-name key id e =
        elim (lookup-insert-cases (name_key r.namespace r.name) key r.id id s.by_name e) [
          | inl (k, same) ↦ (r, rw (← same) (lookup-insert_self r.id r s.repos), k)
          | inr (k, old) ↦
              let (q, found, named) = v.name_repo key id old in
              (q, add_repo-keeps id q found, named)
        ]

    pub add_repo-Inv : Inv (add_repo r s)
    add_repo-Inv = record {
      repo_id = λ id q e. elim (lookup-insert-cases r.id id r q s.repos e) [
        | inl (k, same) ↦ sym (ap (λ (x : RepoRecord). x.id) same) ∙ k
        | inr (k, old) ↦ v.repo_id id q old
      ];
      repo_named = add_repo-named;
      name_repo = add_repo-name;
      token_id = v.token_id;
      token_secret = v.token_secret;
      token_hashed = v.token_hashed;
      token_repo =
          λ id t e. let (q, found) = v.token_repo id t e in (q, add_repo-keeps t.repo_id q found);
      hash_token = v.hash_token;
    }

  -- A repo is written over by one of the same id and name.
  module _ (r q : RepoRecord) (found : lookup r.id s.repos ≡ some r) (same_id : q.id ≡ r.id)
      (same_namespace : q.namespace ≡ r.namespace) (same_name : q.name ≡ r.name) where
    put_repo-cases :
        (id : Bytes) (x : RepoRecord)
        → lookup id (put_repo q s).repos ≡ some x
        → (y : RepoRecord) × (lookup id s.repos ≡ some y)
          × (y.id ≡ x.id)
          × (y.namespace ≡ x.namespace)
          × (y.name ≡ x.name)
    put_repo-cases id x e = elim (lookup-insert-cases q.id id q x s.repos e) [
      | inl (k, same) ↦ (
        r,
        ap (λ n. lookup n s.repos) (sym k ∙ same_id) ∙ found,
        sym same_id ∙ ap (λ (z : RepoRecord). z.id) same,
        sym same_namespace ∙ ap (λ (z : RepoRecord). z.namespace) same,
        sym same_name ∙ ap (λ (z : RepoRecord). z.name) same,
      )
      | inr (k, old) ↦ (x, old, refl, refl, refl)
    ]

    pub put_repo-keeps :
        (id : Bytes) (x : RepoRecord)
        → lookup id s.repos ≡ some x
        → (y : RepoRecord) × (lookup id (put_repo q s).repos ≡ some y)
          × (name_key y.namespace y.name ≡ name_key x.namespace x.name)
    put_repo-keeps id x e = elim (Bytes-cases q.id id) [
      | inl k ↦ (
        q,
        rw (← k) (lookup-insert_self q.id q s.repos),
        ground (arith, ap (λ n. lookup n s.repos) k, same_id),
      )
      | inr k ↦ (x, lookup-insert_ne q.id id q s.repos k ∙ e, refl)
    ]

    pub put_repo-Inv : Inv (put_repo q s)
    put_repo-Inv = record {
      repo_id =
          λ id x e. let (y, old, i, _, _) = put_repo-cases id x e in sym i ∙ v.repo_id id y old;
      repo_named = λ id x e.
          let (y, old, _, a, b) = put_repo-cases id x e in rw (← a, ← b) (v.repo_named id y old);
      name_repo = λ key id e.
          let (x, old, k) = v.name_repo key id e in
          let (y, found', named) = put_repo-keeps id x old in (y, found', named ∙ k);
      token_id = v.token_id;
      token_secret = v.token_secret;
      token_hashed = v.token_hashed;
      token_repo = λ id t e.
          let (x, old) = v.token_repo id t e in
          let (y, found', _) = put_repo-keeps t.repo_id x old in (y, found');
      hash_token = v.hash_token;
    }

  -- A token is added under a new id and a new hash.
  module _ (t : RepoTokenRecord) (fresh : lookup t.id s.tokens ≡ none)
      (new_hash : lookup t.token_hash s.token_ids_by_hash ≡ none)
      (of_repo : (r : RepoRecord) × (lookup t.repo_id s.repos ≡ some r)) where
    pub add_token-cases :
        (id : Bytes) (x : RepoTokenRecord)
        → lookup id (add_token t s).tokens ≡ some x
        → ((t.id ≡ id) × ((stored_token t) ≡ x)) ⊎ ((t.id ≢ id) × (lookup id s.tokens ≡ some x))
    add_token-cases id x e = lookup-insert-cases t.id id (stored_token t) x s.tokens e

    pub add_token-Inv : Inv (add_token t s)
    add_token-Inv = record {
      repo_id = v.repo_id;
      repo_named = v.repo_named;
      name_repo = v.name_repo;
      token_id = λ id x e. elim (add_token-cases id x e) [
        | inl (k, same) ↦ sym (ap (λ (z : RepoTokenRecord). z.id) same) ∙ k
        | inr (k, old) ↦ v.token_id id x old
      ];
      token_secret = λ id x e. elim (add_token-cases id x e) [
        | inl (k, same) ↦ sym (ap (λ (z : RepoTokenRecord). z.token) same)
        | inr (k, old) ↦ v.token_secret id x old
      ];
      token_hashed = λ id x e. elim (add_token-cases id x e) [
        | inl (k, same) ↦
            rw (← ap (λ (z : RepoTokenRecord). z.token_hash) same)
              (lookup-insert_self t.token_hash t.id s.token_ids_by_hash ∙ ap some k)
        | inr (k, old) ↦
            lookup-insert_ne t.token_hash x.token_hash t.id s.token_ids_by_hash
              (λ c. cc (ap (λ n. lookup n s.token_ids_by_hash) c, v.token_hashed id x old))
            ∙ v.token_hashed id x old
      ];
      token_repo = λ id x e. elim (add_token-cases id x e) [
        | inl (k, same) ↦ rw (← ap (λ (z : RepoTokenRecord). z.repo_id) same) of_repo
        | inr (k, old) ↦ v.token_repo id x old
      ];
      hash_token = λ hash id e.
          elim (lookup-insert-cases t.token_hash hash t.id id s.token_ids_by_hash e) [
            | inl (k, same) ↦ (
              (stored_token t),
              rw (← same) (lookup-insert_self t.id (stored_token t) s.tokens),
              k,
            )
            | inr (k, old) ↦
                let (x, found, h) = v.hash_token hash id old in
                (
                  x,
                  lookup-insert_ne t.id id (stored_token t) s.tokens
                        (λ c. cc (ap (λ n. lookup n s.tokens) c))
                      ∙ found,
                  h,
                )
          ];
    }

  -- A token is written over by one that differs in its times alone.
  module _ (t q : RepoTokenRecord) (found : lookup t.id s.tokens ≡ some t) (same_id : q.id ≡ t.id)
      (same_hash : q.token_hash ≡ t.token_hash) (same_repo : q.repo_id ≡ t.repo_id)
      (same_secret : q.token ≡ t.token) where
    put_token-cases :
        (id : Bytes) (x : RepoTokenRecord)
        → lookup id (put_token q s).tokens ≡ some x
        → (y : RepoTokenRecord) × (lookup id s.tokens ≡ some y)
          × (y.id ≡ x.id)
          × (y.token_hash ≡ x.token_hash)
          × (y.repo_id ≡ x.repo_id)
          × (y.token ≡ x.token)
    put_token-cases id x e = elim (lookup-insert-cases q.id id q x s.tokens e) [
      | inl (k, same) ↦ (
        t,
        ap (λ n. lookup n s.tokens) (sym k ∙ same_id) ∙ found,
        sym same_id ∙ ap (λ (z : RepoTokenRecord). z.id) same,
        sym same_hash ∙ ap (λ (z : RepoTokenRecord). z.token_hash) same,
        sym same_repo ∙ ap (λ (z : RepoTokenRecord). z.repo_id) same,
        sym same_secret ∙ ap (λ (z : RepoTokenRecord). z.token) same,
      )
      | inr (k, old) ↦ (x, old, refl, refl, refl, refl)
    ]

    put_token-keeps :
        (id : Bytes) (x : RepoTokenRecord)
        → lookup id s.tokens ≡ some x
        → (y : RepoTokenRecord) × (lookup id (put_token q s).tokens ≡ some y)
          × (y.token_hash ≡ x.token_hash)
    put_token-keeps id x e = elim (Bytes-cases q.id id) [
      | inl k ↦ (
        q,
        rw (← k) (lookup-insert_self q.id q s.tokens),
        ground (arith, ap (λ n. lookup n s.tokens) k, same_id),
      )
      | inr k ↦ (x, lookup-insert_ne q.id id q s.tokens k ∙ e, refl)
    ]

    pub put_token-Inv : Inv (put_token q s)
    put_token-Inv = record {
      repo_id = v.repo_id;
      repo_named = v.repo_named;
      name_repo = v.name_repo;
      token_id = λ id x e.
          let (y, old, i, _, _, _) = put_token-cases id x e in sym i ∙ v.token_id id y old;
      token_secret = λ id x e.
          let (y, old, _, _, _, i) = put_token-cases id x e in sym i ∙ v.token_secret id y old;
      token_hashed = λ id x e.
          let (y, old, _, h, _, _) = put_token-cases id x e in rw (← h) (v.token_hashed id y old);
      token_repo = λ id x e.
          let (y, old, _, _, r, _) = put_token-cases id x e in rw (← r) (v.token_repo id y old);
      hash_token = λ hash id e.
          let (x, old, h) = v.hash_token hash id e in
          let (y, new, k) = put_token-keeps id x old in (y, new, k ∙ h);
    }
