-- ===== src/Memory/Creation.antt =====
-- `CreateRepo` and `CreateRepoToken` of internal/http/repository.go: what they do to the store.
use gitrdone.Common.{
  ◌≡◌, refl, sym, ap, ◌∙◌, ◌⊎◌, inl, inr, true, Option, none, some, [], ◌∷◌, arith, nat_eq, list_eq,
  Option-cases, length, all,
}
use gitrdone.Common.Dict.{Dict, lookup, lookup-insert_self}
use gitrdone.Common.Int.{◌+ℤ◌}
use gitrdone.Ids.{is_canonical_uuid}
use gitrdone.Memory.{
  World, name_key, add_repo, add_token, repo_or_zero, create_repo, create_new, create_under,
  create_initialised, draw_round, draw_token, token_record, create_token_under, create_token_for,
  create_repo_token,
}
use gitrdone.Memory.Invariant.{Inv}
use gitrdone.Repository.{
  CreateRepoInput, CreateRepoTokenInput, RepoRecord, RepoTokenRecord, GitStorage,
}
use gitrdone.Result.{Error, repo_not_found, Result, ok, err, ok-injective}
use gitrdone.Secrets.{Reads, draw, new_uuid, generate_repo_token, hash_repo_token}
use gitrdone.Secrets.Token.{generate_repo_token-chars}
use gitrdone.Secrets.Encoding.{is_token_char}
use gitrdone.Secrets.Uuid.{new_uuid-IsVersion4}
use gitrdone.Text.{Bytes}
use gitrdone.Time.{Time, zero_time, seconds}

-- A repo of this name and branch was made and added.
pub record AddsRepo {Files : Type 0} (input : CreateRepoInput) (w : World Files) (r : RepoRecord)
    (w' : World Files) : Type 0 where
  pub canonical : is_canonical_uuid r.id ≡ true
  pub namespace_is : r.namespace ≡ input.namespace
  pub name_is : r.name ≡ input.name
  pub branch_is : r.default_branch ≡ input.default_branch
  pub active : r.archived_at ≡ zero_time
  pub unnamed : lookup (name_key input.namespace input.name) w.store.by_name ≡ none
  pub store_is : w'.store ≡ add_repo r w.store

module _ {Files : Type 0} (storage : GitStorage Files) where
  -- either an error and the store as it was, or a repo that was added
  abbrev pub Creates : CreateRepoInput → World Files → Result RepoRecord × World Files → Type 0
  Creates input w out =
      (((e : Error) × (out.0 ≡ err e)) × (out.1.store ≡ w.store))
      ⊎ ((r : RepoRecord) × (out.0 ≡ ok r) × AddsRepo input w r out.1)

  create_initialised-cases :
      (input : CreateRepoInput) (id : Bytes) (w : World Files) (o : Files × Option Error)
      → lookup (name_key input.namespace input.name) w.store.by_name ≡ none
      → is_canonical_uuid id ≡ true
      → Creates input w (create_initialised storage input id w o)
  unfolding create_initialised
  create_initialised-cases input id w (files, some e) u c = inl ((e, refl), refl)
  create_initialised-cases input id w (files, none) u c = inr (
    record {
      id = id;
      namespace = input.namespace;
      name = input.name;
      default_branch = input.default_branch;
      archived_at = zero_time;
    },
    refl,
    record {
      canonical = c;
      namespace_is = refl;
      name_is = refl;
      branch_is = refl;
      active = refl;
      unnamed = u;
      store_is = refl;
    },
  )

  create_under-cases :
      (input : CreateRepoInput) (w : World Files) (made : Result Bytes)
      → lookup (name_key input.namespace input.name) w.store.by_name ≡ none
      → ((uuid : Bytes) → made ≡ ok uuid → is_canonical_uuid uuid ≡ true)
      → Creates input w (create_under storage input w made)
  unfolding create_under
  create_under-cases input w (err e) u c = inl ((e, refl), refl)
  create_under-cases input w (ok id) u c = create_initialised-cases input id w _ u (c id refl)

  create_new-cases :
      (input : CreateRepoInput) (w : World Files)
      → lookup (name_key input.namespace input.name) w.store.by_name ≡ none
      → Creates input w (create_new storage input w)
  unfolding create_new
  create_new-cases input w u =
      elim (create_under-cases input (record w { reads = (draw w.reads).1 })
        (new_uuid (draw w.reads).0) u
        (λ uuid e. (new_uuid-IsVersion4 (draw w.reads).0 uuid e).canonical)) [
          | inl (e, same) ↦ inl (e, same)
          | inr (r, made, a) ↦ inr (
            r,
            made,
            record {
              canonical = a.canonical;
              namespace_is = a.namespace_is;
              name_is = a.name_is;
              branch_is = a.branch_is;
              active = a.active;
              unnamed = a.unnamed;
              store_is = a.store_is;
            },
          )
        ]

  -- The three outcomes of `create_repo`: the repo that has the name already, an error, or a new
  -- repo; in the first two the store is as it was.
  pub create_repo-cases :
      (input : CreateRepoInput) (w : World Files)
      → ((id : Bytes) × (lookup (name_key input.namespace input.name) w.store.by_name ≡ some id)
          × (create_repo storage input w ≡ (ok (repo_or_zero (lookup id w.store.repos)), w)))
        ⊎ Creates input w (create_repo storage input w)
  unfolding create_repo
  create_repo-cases input w =
      elim (Option-cases (lookup (name_key input.namespace input.name) w.store.by_name)) [
        | inl unnamed ↦ inr (rw (unnamed, create_repo) (create_new-cases input w unnamed))
        | inr (id, named) ↦ inl (id, named, rw (named, create_repo) refl)
      ]

  AddsRepo-named :
      (input : CreateRepoInput) (w : World Files) (r : RepoRecord) (w' : World Files)
      → AddsRepo input w r w'
      → (lookup (name_key input.namespace input.name) w'.store.by_name ≡ some r.id)
        × (lookup r.id w'.store.repos ≡ some r)
  AddsRepo-named input w r w' a = rw a.store_is (
    rw (a.namespace_is, a.name_is)
        (lookup-insert_self (name_key input.namespace input.name) r.id w.store.by_name),
    lookup-insert_self r.id r w.store.repos,
  )

  create_repo-named :
      (input : CreateRepoInput) (w : World Files) (id : Bytes) (r : RepoRecord)
      → lookup (name_key input.namespace input.name) w.store.by_name ≡ some id
      → lookup id w.store.repos ≡ some r
      → create_repo storage input w ≡ (ok r, w)
  unfolding create_repo
  create_repo-named input w id r named found = rw (named, create_repo, found) refl

  create_repo-known :
      (input : CreateRepoInput) (w : World Files) (r : RepoRecord)
      → Inv w.store
      → (create_repo storage input w).0 ≡ ok r
      → let w' = (create_repo storage input w).1 in
        (lookup (name_key input.namespace input.name) w'.store.by_name ≡ some r.id)
        × (lookup r.id w'.store.repos ≡ some r)
  create_repo-known input w r v e = elim (create_repo-cases input w) [
    | inl (id, named, out) ↦
        let (q, found, _) = v.name_repo (name_key input.namespace input.name) id named in
        let is_r : q ≡ r = ok-injective (
          ap ok (ap repo_or_zero (sym found))
          ∙ ap (λ (o : Result RepoRecord × World Files). o.0) (sym out)
          ∙ e) in
        let is_id : id ≡ r.id = sym (v.repo_id id q found) ∙ ap (λ (x : RepoRecord). x.id) is_r in
        rw (ap (λ (o : Result RepoRecord × World Files). o.1) out) (
          named ∙ ap some is_id,
          ap (λ i. lookup i w.store.repos) (sym is_id) ∙ found ∙ ap some is_r,
        )
    | inr (inl ((x, failed), _)) ↦ cc
    | inr (inr (q, made, a)) ↦
        let is_r : q ≡ r = ok-injective (sym made ∙ e) in rw (← is_r) (AddsRepo-named input w q _ a)
  ]

  -- Creating a repo of the same namespace and name again, with any default branch, gives the same
  -- repo back and changes nothing, neither in the store nor on the disk; no identifier is drawn.
  pub create_repo-again :
      (input again : CreateRepoInput) (w : World Files) (r : RepoRecord)
      → Inv w.store
      → (create_repo storage input w).0 ≡ ok r
      → again.namespace ≡ input.namespace
      → again.name ≡ input.name
      → let w' = (create_repo storage input w).1 in create_repo storage again w' ≡ (ok r, w')
  create_repo-again input again w r v e same_namespace same_name =
      let (named, found) = create_repo-known input w r v e in
      create_repo-named again (create_repo storage input w).1 r.id r
        (rw (same_namespace, same_name) named) found

abbrev IsTokenText : Bytes → Type 0
IsTokenText token = (length token ≡ 47) × (all is_token_char token ≡ true)

-- A token was made for the repo `r` and added, under a hash that was new.
pub record AddsToken {Files : Type 0} (sha256 : Bytes → Bytes) (input : CreateRepoTokenInput)
    (now : Time) (w : World Files) (r : RepoRecord) (t : RepoTokenRecord) (w' : World Files)
    : Type 0 where
  pub repo : lookup input.repo_id w.store.repos ≡ some r
  pub canonical : is_canonical_uuid t.id ≡ true
  pub of_repo : t.repo_id ≡ r.id
  pub text_length : length t.token ≡ 47
  pub text_chars : all is_token_char t.token ≡ true
  pub hashed : t.token_hash ≡ hash_repo_token sha256 t.token
  pub new_hash : lookup t.token_hash w.store.token_ids_by_hash ≡ none
  pub scope_is : t.scope ≡ input.scope
  pub subject_is : t.subject ≡ input.subject
  pub created : t.created_at ≡ now
  pub expires : t.expires_at ≡ now +ℤ seconds input.ttl_seconds
  pub unrevoked : t.revoked_at ≡ zero_time
  pub store_is : w'.store ≡ add_token t w.store
  pub files_are : w'.files ≡ w.files

module _ (sha256 : Bytes → Bytes) where
  abbrev IsDrawn : Dict Bytes Bytes → Result Bytes × Reads → Type 0
  IsDrawn known o =
      (token : Bytes)
      → o.0 ≡ ok token
      → (lookup (hash_repo_token sha256 token) known ≡ none) × IsTokenText token

  draw_round-IsDrawn :
      (known : Dict Bytes Bytes) (made : Result Bytes) (rest : Reads) (again : Result Bytes × Reads)
      → ((token : Bytes) → made ≡ ok token → IsTokenText token)
      → IsDrawn known again
      → IsDrawn known (draw_round sha256 known made rest again)
  unfolding draw_round
  draw_round-IsDrawn known (err x) rest again m a token e = cc
  draw_round-IsDrawn known (ok made) rest again m a token e =
      elim (Option-cases (lookup (hash_repo_token sha256 made) known)) [
        | inl new ↦
            let same : made ≡ token = ground arith in
            (
              ap (λ x. lookup (hash_repo_token sha256 x) known) (sym same) ∙ new,
              rw (← same) (m made refl),
            )
        | inr (id, old) ↦ a token (ground arith)
      ]

  draw_token-IsDrawn :
      (known : Dict Bytes Bytes) (reads : Reads) → IsDrawn known (draw_token sha256 known reads)
  unfolding draw_token
  draw_token-IsDrawn known [] token e = cc
  draw_token-IsDrawn known (read ∷ reads) token e =
      draw_round-IsDrawn known (generate_repo_token read) reads _
        (λ made h. generate_repo_token-chars read made h) (draw_token-IsDrawn known reads) token e

  module _ {Files : Type 0} where
    -- either an error and the store as it was, or a token that was added
    abbrev pub Mints :
        CreateRepoTokenInput → Time → World Files → Result RepoTokenRecord × World Files → Type 0
    Mints input now w out =
        (((e : Error) × (out.0 ≡ err e)) × (out.1.store ≡ w.store))
        ⊎ ((r : RepoRecord) × (t : RepoTokenRecord) × (out.0 ≡ ok t)
            × AddsToken sha256 input now w r t out.1)

    create_token_under-cases :
        (input : CreateRepoTokenInput) (r : RepoRecord) (now : Time) (token : Bytes)
        (w : World Files) (reads : Reads) (made : Result Bytes)
        → lookup input.repo_id w.store.repos ≡ some r
        → lookup (hash_repo_token sha256 token) w.store.token_ids_by_hash ≡ none
        → IsTokenText token
        → ((uuid : Bytes) → made ≡ ok uuid → is_canonical_uuid uuid ≡ true)
        → Mints input now w
            (create_token_under sha256 input r now token (record w { reads = reads }) made)
    unfolding create_token_under
    create_token_under-cases input r now token w reads (err e) found new text c =
        inl ((e, refl), refl)
    create_token_under-cases input r now token w reads (ok id) found new text c = inr (
      r,
      token_record sha256 input r now token id,
      refl,
      record {
        repo = found;
        canonical = c id refl;
        of_repo = refl;
        text_length = text.0;
        text_chars = text.1;
        hashed = refl;
        new_hash = new;
        scope_is = refl;
        subject_is = refl;
        created = refl;
        expires = refl;
        unrevoked = refl;
        store_is = refl;
        files_are = refl;
      },
    )

    create_token_for-cases :
        (input : CreateRepoTokenInput) (r : RepoRecord) (now : Time) (w : World Files)
        (drawn : Result Bytes × Reads)
        → lookup input.repo_id w.store.repos ≡ some r
        → IsDrawn w.store.token_ids_by_hash drawn
        → Mints input now w (create_token_for sha256 input r now w drawn)
    unfolding create_token_for
    create_token_for-cases input r now w (err e, rest) found d = inl ((e, refl), refl)
    create_token_for-cases input r now w (ok token, rest) found d =
        let (new, text) = d token refl in
        create_token_under-cases input r now token w (draw rest).1 (new_uuid (draw rest).0) found
          new text (λ uuid e. (new_uuid-IsVersion4 (draw rest).0 uuid e).canonical)

    -- Creating a token either fails, and then the store is as it was, or adds for an existing repo a
    -- token of the scope and subject asked for, which expires the given number of seconds after its
    -- creation. Its text has 47 characters, each a letter, a digit, `-` or `_`, and a hash that no
    -- earlier token of the store has; its id is a canonical UUID; the store keeps it without its text.
    pub create_repo_token-cases :
        (input : CreateRepoTokenInput) (now : Time) (w : World Files)
        → Mints input now w (create_repo_token sha256 input now w)
    unfolding create_repo_token
    create_repo_token-cases input now w = elim (Option-cases (lookup input.repo_id w.store.repos)) [
      | inl missing ↦ rw (missing, create_repo_token) (inl ((repo_not_found, refl), refl))
      | inr (r, found) ↦
          rw (found, create_repo_token)
            (create_token_for-cases input r now w _ found
              (draw_token-IsDrawn w.store.token_ids_by_hash w.reads))
    ]
