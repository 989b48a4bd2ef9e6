-- ===== src/Text/Cut.antt =====
-- Cutting a prefix or a suffix off, as equations of texts.
use mathlib.Core.List.{reverse, reverse-append, reverse-reverse}
use mathlib.Core.Option
use gitrdone.Common.{
  ℕ, ◌≡◌, refl, sym, ap, ◌∙◌, true, Bool-cases, Option, none, some, [], ◌∷◌, ◌++◌, ◌⊎◌, inl, inr,
  ◌≢◌, All, nat_eq, ==_iff, arith,
}
use gitrdone.Text.{
  is_some, cut, at_separator, cons_before, Bytes, cut_prefix, cut_suffix, has_prefix, has_suffix,
  contains,
}

pub cut_prefix-append : (p s : Bytes) → cut_prefix (p ++ s) p ≡ some s
unfolding cut_prefix
cut_prefix-append [] [] = refl
cut_prefix-append [] (c ∷ s) = refl
cut_prefix-append (c ∷ p) s = ground (arith, cut_prefix-append p s)

pub cut_prefix-eq-some : (s p : Bytes) {r : Bytes} → cut_prefix s p ≡ some r → s ≡ p ++ r
unfolding cut_prefix
cut_prefix-eq-some s [] h = ground arith
cut_prefix-eq-some [] (c ∷ p) h = cc
cut_prefix-eq-some (d ∷ s) (c ∷ p) {r} h = ground (arith, cut_prefix-eq-some s p {r = r})

pub cut_suffix-append : (s p : Bytes) → cut_suffix (s ++ p) p ≡ some s
unfolding cut_suffix
cut_suffix-append s p =
    rw (reverse-append s p, cut_prefix-append (reverse p) (reverse s)) (ap some (reverse-reverse s))

pub cut_suffix-eq-some : (s p : Bytes) {r : Bytes} → cut_suffix s p ≡ some r → s ≡ r ++ p
unfolding cut_suffix
cut_suffix-eq-some s p {r} h =
    let (a, cutting, back) = (Option.map-eq-some_iff reverse _).0 h in
    sym (reverse-reverse s)
    ∙ ap reverse (cut_prefix-eq-some (reverse s) (reverse p) cutting)
    ∙ reverse-append (reverse p) a
    ∙ rw (reverse-reverse, back) refl

pub cut_prefix-nil-ne : (c : ℕ) (s : Bytes) → cut_prefix [] (c ∷ s) ≡ none
unfolding cut_prefix
cut_prefix-nil-ne c s = refl

pub has_prefix-append : (p s : Bytes) → has_prefix (p ++ s) p ≡ true
unfolding has_prefix
has_prefix-append p s = rw (cut_prefix-append p s) refl

pub has_suffix-append : (s p : Bytes) → has_suffix (s ++ p) p ≡ true
unfolding has_suffix
has_suffix-append s p = rw (cut_suffix-append s p) refl

-- A text that holds `p` is found to.
pub contains-append : (a p b : Bytes) → contains (a ++ (p ++ b)) p ≡ true
unfolding contains
contains-append [] [] [] = unfold has_prefix cut_prefix in refl
contains-append [] [] (c ∷ b) = ground (arith, has_prefix-append [] (c ∷ b))
contains-append [] (c ∷ p) b = ground (arith, has_prefix-append (c ∷ p) b)
contains-append (c ∷ a) p b = ground (arith, contains-append a p b)

at_separator-eq-some :
    (o : Option Bytes) (later : Option (Bytes × Bytes)) {a b : Bytes}
    → at_separator o later ≡ some (a, b)
    → ((o ≡ some b) × ([] ≡ a)) ⊎ ((o ≡ none) × (later ≡ some (a, b)))
at_separator-eq-some none later h = inr (refl, h)
at_separator-eq-some (some rest) later h = inl (cc, cc)

cons_before-eq-some :
    (c : ℕ) (later : Option (Bytes × Bytes)) {a b : Bytes}
    → cons_before c later ≡ some (a, b)
    → (before : Bytes) × (later ≡ some (before, b)) × (c ∷ before ≡ a)
cons_before-eq-some c none h = absurd cc
cons_before-eq-some c (some (before, rest)) h = (before, cc, cc)

-- The two sides of a cut, with the separator between them, are the text.
pub cut-eq-some : (s sep : Bytes) {a b : Bytes} → cut s sep ≡ some (a, b) → s ≡ a ++ (sep ++ b)
unfolding cut
cut-eq-some [] sep {a} {b} h = elim (at_separator-eq-some (cut_prefix [] sep) none h) [
  | inl (found, empty) ↦ cut_prefix-eq-some [] sep found ∙ ap (λ front. front ++ (sep ++ b)) empty
  | inr (_, later) ↦ absurd cc
]
cut-eq-some (c ∷ s) sep {a} {b} h =
    elim (at_separator-eq-some (cut_prefix (c ∷ s) sep) (cons_before c (cut s sep)) h) [
      | inl (found, empty) ↦
          cut_prefix-eq-some (c ∷ s) sep found ∙ ap (λ front. front ++ (sep ++ b)) empty
      | inr (_, later) ↦
          (let (before, found, is_a) = cons_before-eq-some c (cut s sep) later in
            ap (◌∷◌ c) (cut-eq-some s sep found) ∙ ap (λ front. front ++ (sep ++ b)) is_a)
    ]

pub cut_prefix-cons-ne : (c d : ℕ) (s p : Bytes) → c ≢ d → cut_prefix (c ∷ s) (d ∷ p) ≡ none
unfolding cut_prefix
cut_prefix-cons-ne c d s p h = ground (arith, ==_iff c d)

-- A text is cut at its first separator: where the front has no byte that a separator begins with.
pub cut-append :
    (a : Bytes) (d : ℕ) (p b : Bytes)
    → All (λ c. c ≢ d) a
    → cut (a ++ ((d ∷ p) ++ b)) (d ∷ p) ≡ some (a, b)
unfolding cut
cut-append [] d p b h =
    ap (λ o. at_separator o (cons_before d (cut (p ++ b) (d ∷ p)))) (cut_prefix-append (d ∷ p) b)
cut-append (c ∷ a) d p b h =
    rw (cut_prefix-cons-ne c d (a ++ ((d ∷ p) ++ b)) p h.0, cut-append a d p b h.1) refl

pub is_some-true {ℓ} : {A : Type ℓ} (o : Option A) → is_some o ≡ true → (a : A) × (o ≡ some a)
is_some-true none h = absurd cc
is_some-true (some a) h = (a, refl)

pub has_prefix-true : (s p : Bytes) → has_prefix s p ≡ true → (r : Bytes) × (s ≡ p ++ r)
unfolding has_prefix
has_prefix-true s p h =
    let (r, found) = is_some-true (cut_prefix s p) h in (r, cut_prefix-eq-some s p found)

pub has_suffix-true : (s p : Bytes) → has_suffix s p ≡ true → (r : Bytes) × (s ≡ r ++ p)
unfolding has_suffix
has_suffix-true s p h =
    let (r, found) = is_some-true (cut_suffix s p) h in (r, cut_suffix-eq-some s p found)

pub contains-true :
    (s p : Bytes) → contains s p ≡ true → (a : Bytes) × (b : Bytes) × (s ≡ a ++ (p ++ b))
unfolding contains
contains-true [] p h = let (b, is_s) = has_prefix-true [] p h in ([], b, is_s)
contains-true (c ∷ s) p h = elim (Bool-cases (has_prefix (c ∷ s) p)) [
  | inl here ↦ (let (b, is_s) = has_prefix-true (c ∷ s) p here in ([], b, is_s))
  | inr later ↦
      (let (a, b, is_s) = contains-true s p (rw later at h) in (c ∷ a, b, ap (◌∷◌ c) is_s))
]
