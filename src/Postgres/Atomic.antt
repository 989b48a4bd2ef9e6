-- ===== src/Postgres/Atomic.antt =====
-- Transactions of internal/http/postgres.go: what stands in the tables behind a step inside one.
use gitrdone.Common.{
  ◌≡◌, refl, sym, ap, ◌∙◌, true, false, some, List, [], ◌∷◌, All, Bool-cases, inl, inr,
}
use gitrdone.Postgres.Session.{
  Outcome, done, failed, lost, World, Query, statement, commit, rolled_back, begin, rollback,
  in_transaction, ◌>>=◌, bound, next, later, settle,
}
use gitrdone.Postgres.Tables.{Tables}
use gitrdone.Result.{Error, Result, ok, err}

-- the server does what it is asked to, or says that it did not
abbrev pub Answered : Outcome → Type 0
Answered done = Unit
Answered (failed e) = Unit
Answered (lost e) = ⊥

-- inside a transaction that began on `t`
pub record Inside {Files : Type 0} (t : Tables) (w : World Files) : Type 0 where
  pub saved : w.saved ≡ some t
  pub answered : All Answered w.outcomes

module _ {Files : Type 0} {A : Type 0} where
  -- an error leaves what the rollback turns into `t`
  abbrev pub Safe : Tables → Result A × World Files → Type 0
  Safe t (err e, w) = (rollback w).tables ≡ t
  Safe t (ok a, w) = Unit

  -- a step that does not end the transaction
  pub record Keeps (t : Tables) (m : Query Files A) : Type 0 where
    pub keep : (w : World Files) → Inside t w → Inside t (m w).1

  -- a step that may end it
  pub record Atomic (t : Tables) (m : Query Files A) : Type 0 where
    pub safe : (w : World Files) → Inside t w → Safe t (m w)

All-later : (outcomes : List Outcome) → All Answered outcomes → All Answered (later outcomes)
All-later [] all = tt
All-later (outcome ∷ outcomes) (first, all) = all

rollback-Inside :
    {Files : Type 0} {t : Tables} (w : World Files) → Inside t w → (rollback w).tables ≡ t
unfolding rollback
rollback-Inside w inside = rw inside.saved refl

module _ {Files : Type 0} {A : Type 0} (t : Tables) where
  Keeps-Safe : (r : Result A × World Files) → Inside t r.1 → Safe t r
  Keeps-Safe (err e, w) inside = rollback-Inside w inside
  Keeps-Safe (ok a, w) inside = tt

  pub Keeps-Atomic : (m : Query Files A) → Keeps t m → Atomic t m
  Keeps-Atomic m keeps = record { safe = λ w inside. Keeps-Safe (m w) (keeps.keep w inside) }

  bound-Safe :
      {B : Type 0} (next : A → Query Files B) (r : Result A × World Files)
      → ((a : A) → Atomic t (next a))
      → Inside t r.1
      → Safe t (bound next r)
  bound-Safe next (err e, w) atomic inside = rollback-Inside w inside
  bound-Safe next (ok a, w) atomic inside = (atomic a).safe w inside

  pub >>=-Atomic :
      {B : Type 0} (m : Query Files A) (next : A → Query Files B)
      → Keeps t m
      → ((a : A) → Atomic t (next a))
      → Atomic t (m >>= next)
  >>=-Atomic m next keeps atomic = record {
    safe = λ w inside. bound-Safe next (m w) atomic (keeps.keep w inside);
  }

  settle-Inside :
      (outcome : Outcome) (result : Result (A × Tables)) (w : World Files)
      → Inside t w
      → Inside t (settle outcome result w).1
  settle-Inside outcome (err e) w inside = record {
    saved = inside.saved;
    answered = inside.answered;
  }
  settle-Inside done (ok (a, t')) w inside = record {
    saved = inside.saved;
    answered = inside.answered;
  }
  settle-Inside (failed e) (ok (a, t')) w inside = record {
    saved = inside.saved;
    answered = inside.answered;
  }
  settle-Inside (lost e) (ok (a, t')) w inside = record {
    saved = inside.saved;
    answered = inside.answered;
  }

  statement-Inside :
      (run : Tables → Result (A × Tables)) (w : World Files)
      → Inside t w
      → Inside t (statement run w).1
  unfolding statement
  statement-Inside run w inside = elim (Bool-cases w.aborted) [
    | inl aborted ↦ rw aborted (record { saved = inside.saved; answered = inside.answered })
    | inr open_ ↦ rw open_ (
        settle-Inside (next w.outcomes) (run w.tables)
          (record w { aborted = false; outcomes = later w.outcomes })
          (record { saved = inside.saved; answered = All-later w.outcomes inside.answered }))
  ]

module _ {Files : Type 0} {A : Type 0} (t : Tables) where
  pub statement-Keeps :
      (run : Tables → Result (A × Tables)) → Keeps {Files = Files} t (statement run)
  statement-Keeps run = record { keep = statement-Inside t run }

next-Answered : (outcomes : List Outcome) → All Answered outcomes → Answered (next outcomes)
next-Answered [] all = tt
next-Answered (outcome ∷ outcomes) (first, all) = first

-- a rollback behind one does nothing
twice-rollback :
    {Files : Type 0} (t : Tables) (w : World Files)
    → w.saved ≡ some t
    → (rollback (rollback w)).tables ≡ t
unfolding rollback
twice-rollback t w saved = rw saved refl

commit-at :
    {Files : Type 0} (t : Tables) (w : World Files) (outcome : Outcome)
    → w.saved ≡ some t
    → w.aborted ≡ false
    → next w.outcomes ≡ outcome
    → Answered outcome
    → Safe t (commit w)
unfolding commit
commit-at t w done saved open_ is_next answered = rw (open_, is_next) tt
commit-at t w (failed e) saved open_ is_next answered =
    rw (open_, is_next) (twice-rollback t (record w { outcomes = later w.outcomes }) saved)
commit-at t w (lost e) saved open_ is_next answered = absurd answered

commit-Safe : {Files : Type 0} (t : Tables) (w : World Files) → Inside t w → Safe t (commit w)
unfolding commit
commit-Safe t w inside = elim (Bool-cases w.aborted) [
  | inl aborted ↦ rw aborted (twice-rollback t (record w { aborted = true }) inside.saved)
  | inr open_ ↦
      commit-at t w (next w.outcomes) inside.saved open_ refl
        (next-Answered w.outcomes inside.answered)
]

pub commit-Atomic : {Files : Type 0} (t : Tables) → Atomic {Files = Files} t commit
commit-Atomic t = record { safe = commit-Safe t }

-- what `defer rollbackTx` does behind the body
rolled_back-Safe :
    {Files A : Type 0} (t : Tables) (r : Result A × World Files) {e : Error} {w : World Files}
    → Safe t r
    → rolled_back r ≡ (err e, w)
    → w.tables ≡ t
rolled_back-Safe t (err e, w') safe h = sym (ap (λ r. r.1.tables) h) ∙ safe
rolled_back-Safe t (ok a, w') safe h = absurd cc

-- by the outcome of `Begin`
abbrev begun : {Files A : Type 0} → Query Files A → World Files → Outcome → Result A × World Files
begun body w done =
    rolled_back
      (body (record w { saved = some w.tables; aborted = false; outcomes = later w.outcomes }))
begun body w (failed e) = (err e, record w { outcomes = later w.outcomes })
begun body w (lost e) = (err e, record w { outcomes = later w.outcomes })

begin_as : {Files : Type 0} → World Files → Outcome → Result (Unit {0}) × World Files
begin_as w done =
    (ok tt, record w { saved = some w.tables; aborted = false; outcomes = later w.outcomes })
begin_as w (failed e) = (err e, record w { outcomes = later w.outcomes })
begin_as w (lost e) = (err e, record w { outcomes = later w.outcomes })

begin-next :
    {Files : Type 0} (w : World Files) (outcome : Outcome)
    → next w.outcomes ≡ outcome
    → begin w ≡ begin_as w outcome
unfolding begin begin_as
begin-next w done is_next = rw (begin, is_next) refl
begin-next w (failed e) is_next = rw (begin, is_next) refl
begin-next w (lost e) is_next = rw (begin, is_next) refl

in_transaction-begun :
    {Files A : Type 0} (body : Query Files A) (w : World Files) (outcome : Outcome)
    → next w.outcomes ≡ outcome
    → in_transaction body w ≡ begun body w outcome
unfolding in_transaction begin_as
in_transaction-begun body w done is_next =
    ap (bound λ _ open_. rolled_back (body open_)) (begin-next w done is_next)
in_transaction-begun body w (failed e) is_next =
    ap (bound λ _ open_. rolled_back (body open_)) (begin-next w (failed e) is_next)
in_transaction-begun body w (lost e) is_next =
    ap (bound λ _ open_. rolled_back (body open_)) (begin-next w (lost e) is_next)

begun-tables :
    {Files A : Type 0} (body : Query Files A) (w : World Files) (outcome : Outcome) {e : Error}
    {w' : World Files}
    → Atomic w.tables body
    → All Answered w.outcomes
    → begun body w outcome ≡ (err e, w')
    → w'.tables ≡ w.tables
begun-tables body w done atomic all h =
    rolled_back-Safe w.tables _
      (atomic.safe _ (record { saved = refl; answered = All-later w.outcomes all })) h
begun-tables body w (failed why) atomic all h = sym (ap (λ r. r.1.tables) h)
begun-tables body w (lost why) atomic all h = sym (ap (λ r. r.1.tables) h)

pub in_transaction-Atomic :
    {Files A : Type 0} (body : Query Files A) (w : World Files) {e : Error} {w' : World Files}
    → Atomic w.tables body
    → All Answered w.outcomes
    → in_transaction body w ≡ (err e, w')
    → w'.tables ≡ w.tables
in_transaction-Atomic body w atomic all h =
    begun-tables body w (next w.outcomes) atomic all
      (sym (in_transaction-begun body w (next w.outcomes) refl) ∙ h)
