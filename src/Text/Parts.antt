-- ===== src/Text/Parts.antt =====
-- Where the parts that `strings.Split` gives stand in the text.
use gitrdone.Common.{
  ℕ, ◌≡◌, ◌⊎◌, inl, inr, refl, sym, ap, subst, List, [], ◌∷◌, ◌++◌, All, nat_eq, ◌==◌, ==_iff,
  Bool-cases,
}
use gitrdone.Text.{Bytes, split, grow_head}

-- the end of the text, or a separator
abbrev pub AtEnd : ℕ → Bytes → Type 0
AtEnd sep b = (b ≡ []) ⊎ ((t : Bytes) × (b ≡ sep ∷ t))

abbrev pub HeadAt : Bytes → ℕ → Bytes → Type 0
HeadAt s sep part = (b : Bytes) × (s ≡ part ++ b) × AtEnd sep b

abbrev pub TailAt : Bytes → ℕ → Bytes → Type 0
TailAt s sep part = (a : Bytes) × (b : Bytes) × (s ≡ a ++ (sep ∷ (part ++ b))) × AtEnd sep b

-- where the parts stand in the text
abbrev pub PartsAt : Bytes → ℕ → List Bytes → Type 0
PartsAt s sep [] = ⊥
PartsAt s sep (part ∷ parts) = HeadAt s sep part × All (TailAt s sep) parts

tails-cons :
    (c : ℕ) (s : Bytes) (sep : ℕ) (parts : List Bytes)
    → All (TailAt s sep) parts
    → All (TailAt (c ∷ s) sep) parts
tails-cons c s sep [] h = tt
tails-cons c s sep (part ∷ parts) ((a, b, is_s, end), h) =
    ((c ∷ a, b, ap (◌∷◌ c) is_s, end), tails-cons c s sep parts h)

parts-separator :
    (s : Bytes) (sep : ℕ) (parts : List Bytes)
    → PartsAt s sep parts
    → All (TailAt (sep ∷ s) sep) parts
parts-separator s sep [] h = tt
parts-separator s sep (part ∷ parts) ((b, is_s, end), h) =
    (([], b, ap (◌∷◌ sep) is_s, end), tails-cons sep s sep parts h)

parts-grow :
    (c : ℕ) (s : Bytes) (sep : ℕ) (parts : List Bytes)
    → PartsAt s sep parts
    → PartsAt (c ∷ s) sep (grow_head c parts)
parts-grow c s sep [] h = absurd h
parts-grow c s sep (part ∷ parts) ((b, is_s, end), h) =
    ((b, ap (◌∷◌ c) is_s, end), tails-cons c s sep parts h)

pub split-PartsAt : (s : Bytes) (sep : ℕ) → PartsAt s sep (split s sep)
unfolding split
split-PartsAt [] sep = (([], refl, inl refl), tt)
split-PartsAt (c ∷ s) sep = elim (Bool-cases (c == sep)) [
  | inl same ↦
      let is_sep = (==_iff c sep).0 same in
      rw same (
        (c ∷ s, refl, inr (s, ap (λ (d : ℕ). d ∷ s) is_sep)),
        subst (λ d. All (TailAt (d ∷ s) sep) (split s sep)) (sym is_sep)
            (parts-separator s sep (split s sep) (split-PartsAt s sep)),
      )
  | inr other ↦ rw other (parts-grow c s sep (split s sep) (split-PartsAt s sep))
]
