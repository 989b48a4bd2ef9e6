-- ===== src/Git/Buffer.antt =====
-- `cappedBuffer` of internal/http/git_diff.go: the output of a git process under a limit. The
-- limits are constants of the source and not negative.
use gitrdone.Common.{
  ℕ, zero, suc, ◌-◌, ◌≤◌, ◌≡◌, ◌≢◌, refl, sym, ap, ◌∙◌, inl, inr, Bool, true, false, List, [], ◌∷◌,
  ◌++◌, append_assoc, append-nil, length, length-append, length-take, take, All, arith, ltb, leb,
  Bool-cases, if◌then◌else◌,
}
use gitrdone.Text.{Bytes}

pub record CappedBuffer : Type 0 where
  pub buf : Bytes
  pub limit : ℕ
  pub truncated : Bool

-- `&cappedBuffer{limit: limit}`
abbrev pub new_capped_buffer : ℕ → CappedBuffer
new_capped_buffer limit = record { buf = []; limit = limit; truncated = false }

-- `Write`: the length it returns, and the buffer
unfoldable pub write_capped : Bytes → CappedBuffer → ℕ × CappedBuffer
write_capped p c =
    let remaining = c.limit - length c.buf in
    if leb remaining 0
    then (length p, record c { truncated = true })
    else if ltb remaining (length p)
    then (length p, record c { buf = c.buf ++ take remaining p; truncated = true })
    else (length p, record c { buf = c.buf ++ p })

-- the writes of a process, one by one
abbrev pub write_chunks : List Bytes → CappedBuffer → CappedBuffer
write_chunks [] c = c
write_chunks (p ∷ chunks) c = write_chunks chunks (write_capped p c).1

abbrev pub joined : List Bytes → Bytes
joined [] = []
joined (p ∷ chunks) = p ++ joined chunks

-- the buffer behind an output
abbrev pub capped : ℕ → Bytes → CappedBuffer
capped limit output = record {
  buf = take limit output;
  limit = limit;
  truncated = ltb limit (length output);
}

take-append_full :
    {A : Type 0} (n : ℕ) (xs ys : List A) → n ≤ length xs → take n (xs ++ ys) ≡ take n xs
take-append_full zero xs ys h = refl
take-append_full (suc n) [] ys h = absurd (omega arith)
take-append_full (suc n) (x ∷ xs) ys h = ap (◌∷◌ x) (take-append_full n xs ys (omega arith))

take-short : {A : Type 0} (n : ℕ) (xs : List A) → length xs ≤ n → take n xs ≡ xs
take-short zero [] h = refl
take-short zero (x ∷ xs) h = absurd (omega arith)
take-short (suc n) [] h = refl
take-short (suc n) (x ∷ xs) h = ap (◌∷◌ x) (take-short n xs (omega arith))

take-append_room :
    {A : Type 0} (n : ℕ) (xs ys : List A)
    → length xs ≤ n
    → take n (xs ++ ys) ≡ xs ++ take (n - length xs) ys
take-append_room n [] ys h = ap (λ m. take m ys) (omega arith)
take-append_room zero (x ∷ xs) ys h = absurd (omega arith)
take-append_room (suc n) (x ∷ xs) ys h =
    ap (◌∷◌ x) (take-append_room n xs ys (omega arith) ∙ ap (λ m. xs ++ take m ys) (omega arith))

length-pos : {A : Type 0} (xs : List A) → xs ≢ [] → 1 ≤ length xs
length-pos [] h = absurd (h refl)
length-pos (x ∷ xs) h = omega arith

write_capped-capped :
    (limit : ℕ) (output p : Bytes)
    → p ≢ []
    → (write_capped p (capped limit output)).1 ≡ capped limit (output ++ p)
unfolding write_capped
write_capped-capped limit output p h =
    let some_p = length-pos p h in
    let total = length-append output p in
    let taken = length-take limit output in
    elim (Bool-cases (leb limit (length output))) [
      | inl full ↦
          (let none_left : limit - length (take limit output) ≡ 0 = ground (arith, taken) in
            let over : ltb limit (length (output ++ p)) ≡ true = ground (arith, total) in
            rw (none_left, over, take-append_full limit output p (ground arith)) refl)
      | inr room ↦
          (let fits : length output ≤ limit = ground arith in
            let left : leb (limit - length output) 0 ≡ false = ground arith in
            elim (Bool-cases (ltb (limit - length output) (length p))) [
              | inl much ↦
                  (let over : ltb limit (length (output ++ p)) ≡ true = ground (arith, total) in
                    rw
                      (
                        take-short limit output fits,
                        left,
                        much,
                        over,
                        take-append_room limit output p fits,
                      )
                      refl)
              | inr little ↦
                  (let under : ltb limit (length output) ≡ false = ground arith in
                    let within : length (output ++ p) ≤ limit = ground (arith, total) in
                    let still : ltb limit (length (output ++ p)) ≡ false = ground arith in
                    rw
                      (
                        take-short limit output fits,
                        left,
                        little,
                        under,
                        still,
                        take-short limit (output ++ p) within,
                      )
                      refl)
            ])
    ]

write_chunks-capped :
    (limit : ℕ) (output : Bytes) (chunks : List Bytes)
    → All (λ p. p ≢ []) chunks
    → write_chunks chunks (capped limit output) ≡ capped limit (output ++ joined chunks)
write_chunks-capped limit output [] h = ap (capped limit) (sym (append-nil output))
write_chunks-capped limit output (p ∷ chunks) h =
    ap (write_chunks chunks) (write_capped-capped limit output p h.0)
    ∙ write_chunks-capped limit (output ++ p) chunks h.1
    ∙ ap (capped limit) (append_assoc output p (joined chunks))

new_buffer-capped : (limit : ℕ) → new_capped_buffer limit ≡ capped limit []
new_buffer-capped zero = refl
new_buffer-capped (suc limit) =
    let none_over : false ≡ ltb (suc limit) 0 = ground arith in
    ap (λ over. record { buf = []; limit = suc limit; truncated = over }) none_over

-- However a process splits its output into writes that are not empty, the buffer holds the first
-- `limit` bytes of it, and is marked as truncated exactly if there were more.
pub write_chunks_lem :
    (limit : ℕ) (chunks : List Bytes)
    → All (λ p. p ≢ []) chunks
    → let c = write_chunks chunks (new_capped_buffer limit) in
      (c.buf ≡ take limit (joined chunks)) × (c.truncated ≡ ltb limit (length (joined chunks)))
write_chunks_lem limit chunks h =
    let all_written =
      ap (write_chunks chunks) (new_buffer-capped limit) ∙ write_chunks-capped limit [] chunks h in
    (
      ap (λ (c : CappedBuffer). c.buf) all_written,
      ap (λ (c : CappedBuffer). c.truncated) all_written,
    )
