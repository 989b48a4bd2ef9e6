-- ===== src/Text/Split.antt =====
-- `strings.Split` by one byte: its parts, and joining them.
use gitrdone.Common.{
  ℕ, ◌≡◌, refl, sym, ap, ◌∙◌, ◌≢◌, inl, inr, false, List, [], ◌∷◌, ◌++◌, All, nat_eq, ◌==◌, ==_iff,
  Bool-cases, arith,
}
use gitrdone.Text.{Bytes, split, grow_head}

-- `strings.Join`
unfoldable pub join : List Bytes → ℕ → Bytes
join [] sep = []
join (part ∷ []) sep = part
join (part ∷ next ∷ parts) sep = part ++ (sep ∷ join (next ∷ parts) sep)

abbrev pub Lacks : ℕ → Bytes → Type 0
Lacks sep s = All (λ c. c ≢ sep) s

split-ne-nil : (s : Bytes) (sep : ℕ) → split s sep ≢ []
unfolding split
split-ne-nil [] sep h = cc
split-ne-nil (c ∷ s) sep h = ground (arith, split-ne-nil s sep)

join-grow_head :
    (c : ℕ) (parts : List Bytes) (sep : ℕ) → join (grow_head c parts) sep ≡ c ∷ join parts sep
unfolding join
join-grow_head c [] sep = refl
join-grow_head c (part ∷ []) sep = refl
join-grow_head c (part ∷ next ∷ parts) sep = refl

join-cons-nil :
    (parts : List Bytes) (sep : ℕ) → parts ≢ [] → join ([] ∷ parts) sep ≡ sep ∷ join parts sep
unfolding join
join-cons-nil [] sep h = absurd (h refl)
join-cons-nil (part ∷ parts) sep h = refl

pub join-split : (s : Bytes) (sep : ℕ) → join (split s sep) sep ≡ s
unfolding split
join-split [] sep = unfold join in refl
join-split (c ∷ s) sep = elim (Bool-cases (c == sep)) [
  | inl same ↦ rw same (
      join-cons-nil (split s sep) sep (split-ne-nil s sep)
      ∙ ap (◌∷◌ sep) (join-split s sep)
      ∙ ap (λ (d : ℕ). d ∷ s) (sym ((==_iff c sep).0 same)))
  | inr other ↦ rw other (join-grow_head c (split s sep) sep ∙ ap (◌∷◌ c) (join-split s sep))
]

Lacks-grow_head :
    (c : ℕ) (parts : List Bytes) (sep : ℕ)
    → c ≢ sep
    → All (Lacks sep) parts
    → All (Lacks sep) (grow_head c parts)
Lacks-grow_head c [] sep h a = ((h, tt), tt)
Lacks-grow_head c (part ∷ parts) sep h a = ((h, a.0), a.1)

pub split-Lacks : (s : Bytes) (sep : ℕ) → All (Lacks sep) (split s sep)
unfolding split
split-Lacks [] sep = (tt, tt)
split-Lacks (c ∷ s) sep = elim (Bool-cases (c == sep)) [
  | inl same ↦ rw same (tt, split-Lacks s sep)
  | inr other ↦
      rw other (
        Lacks-grow_head c (split s sep) sep (λ e. ground (arith, ==_iff c sep)) (split-Lacks s sep))
]

grow_head-append :
    (c : ℕ) (xs ys : List Bytes) → xs ≢ [] → grow_head c (xs ++ ys) ≡ grow_head c xs ++ ys
grow_head-append c [] ys h = absurd (h refl)
grow_head-append c (x ∷ xs) ys h = refl

pub split-append : (s t : Bytes) (sep : ℕ) → split (s ++ (sep ∷ t)) sep ≡ split s sep ++ split t sep
unfolding split
split-append [] t sep = ground (arith, ==_iff sep sep)
split-append (c ∷ s) t sep = elim (Bool-cases (c == sep)) [
  | inl same ↦ rw same (ap (◌∷◌ []) (split-append s t sep))
  | inr other ↦ rw other (
      ap (grow_head c) (split-append s t sep)
      ∙ grow_head-append c (split s sep) (split t sep) (split-ne-nil s sep))
]

pub split-of-Lacks : (s : Bytes) (sep : ℕ) → Lacks sep s → split s sep ≡ s ∷ []
unfolding split
split-of-Lacks [] sep h = refl
split-of-Lacks (c ∷ s) sep h = ground (arith, ==_iff c sep, split-of-Lacks s sep h.1)

-- The last part of `s`, and the parts in front of it.
pub record SplitLast (s : Bytes) (sep : ℕ) : Type 0 where
  pub front : List Bytes
  pub last : Bytes
  pub splits : split s sep ≡ front ++ (last ∷ [])
  pub grows : (t : Bytes) → Lacks sep t → split (s ++ t) sep ≡ front ++ ((last ++ t) ∷ [])

extend_last :
    (c : ℕ) (s : Bytes) (sep : ℕ) (front : List Bytes) (last : Bytes)
    → (c == sep) ≡ false
    → split s sep ≡ front ++ (last ∷ [])
    → ((t : Bytes) → Lacks sep t → split (s ++ t) sep ≡ front ++ ((last ++ t) ∷ []))
    → SplitLast (c ∷ s) sep
unfolding split
extend_last c s sep [] last other e g = record {
  front = [];
  last = c ∷ last;
  splits = ground arith;
  grows = λ t h. ground (arith, g t h);
}
extend_last c s sep (part ∷ front) last other e g = record {
  front = (c ∷ part) ∷ front;
  last = last;
  splits = ground arith;
  grows = λ t h. ground (arith, g t h);
}

pub split_last : (s : Bytes) (sep : ℕ) → SplitLast s sep
unfolding split
split_last [] sep = record {
  front = [];
  last = [];
  splits = refl;
  grows = λ t h. split-of-Lacks t sep h;
}
split_last (c ∷ s) sep =
    let r = split_last s sep in
    elim (Bool-cases (c == sep)) [
      | inl same ↦ record {
        front = [] ∷ r.front;
        last = r.last;
        splits = rw same (ap (◌∷◌ []) r.splits);
        grows = λ t h. rw same (ap (◌∷◌ []) (r.grows t h));
      }
      | inr other ↦ extend_last c s sep r.front r.last other r.splits r.grows
    ]
