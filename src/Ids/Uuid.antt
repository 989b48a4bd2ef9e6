-- ===== src/Ids/Uuid.antt =====
-- The shape that `is_canonical_uuid` accepts: five groups of lower-case hex digits.
use native.Mathlib.Nat.{add-zero}
use gitrdone.Common.{
  ℕ, zero, suc, ◌+◌, ◌≤◌, ◌<◌, ◌≡◌, refl, ◌↔◌, true, false, [], ◌∷◌, ◌++◌, length, all, arith,
  nat_eq, ap, ◌∙◌, sym, length-append, subst, append-nil,
}
use gitrdone.Text.{Bytes}
use gitrdone.Ids.{is_lower_hex_digit, dash_index, uuid_chars, is_canonical_uuid}

-- `n` lower-case hex digits
pub record IsHexGroup (n : ℕ) (s : Bytes) : Type 0 where
  pub count : length s ≡ n
  pub digits : all is_lower_hex_digit s ≡ true

abbrev Plain : ℕ → ℕ → Type 0
Plain index n = (j : ℕ) → index ≤ j → j < index + n → dash_index j ≡ false

IsHexGroup-cons :
    {n c : ℕ} {s : Bytes}
    → is_lower_hex_digit c ≡ true
    → IsHexGroup n s
    → IsHexGroup (suc n) (c ∷ s)
IsHexGroup-cons h g = record { count = ap suc g.count; digits = ground (arith, g.digits) }

IsHexGroup-tail : {n c : ℕ} {s : Bytes} → IsHexGroup (suc n) (c ∷ s) → IsHexGroup n s
IsHexGroup-tail g = record { count = omega (arith, g.count); digits = ground (arith, g.digits) }

-- `s` begins with such a group, and the loop goes on behind it.
record HexRun (n index : ℕ) (s : Bytes) : Type 0 where
  group : Bytes
  behind : Bytes
  splits : s ≡ group ++ behind
  hex : IsHexGroup n group
  goes_on : uuid_chars (index + n) behind ≡ true
  rest_length : length s ≡ n + length behind

digit_step :
    (index c : ℕ) (s : Bytes)
    → dash_index index ≡ false
    → uuid_chars index (c ∷ s) ≡ true
    → (is_lower_hex_digit c ≡ true) × (uuid_chars (suc index) s ≡ true)
unfolding uuid_chars
digit_step index c s first e = ground arith

shift : (a b : ℕ) → suc a + b ≡ a + suc b
shift a b = omega arith

hex_run :
    (n index : ℕ) (s : Bytes)
    → Plain index n
    → n ≤ length s
    → uuid_chars index s ≡ true
    → HexRun n index s
hex_run zero index s plain h e = record {
  group = [];
  behind = s;
  splits = refl;
  hex = record { count = refl; digits = refl };
  goes_on = rw add-zero e;
  rest_length = omega arith;
}
hex_run (suc n) index [] plain h e = absurd (omega arith)
hex_run (suc n) index (c ∷ s) plain h e =
    let facts = digit_step index c s (plain index (omega arith) (omega arith)) e in
    let r =
      hex_run n (suc index) s (λ j a b. plain j (omega arith) (omega arith)) (omega arith)
        facts.1 in
    record {
      group = c ∷ r.group;
      behind = r.behind;
      splits = ap (◌∷◌ c) r.splits;
      hex = IsHexGroup-cons facts.0 r.hex;
      goes_on = subst (λ k. uuid_chars k r.behind ≡ true) (shift index n) r.goes_on;
      rest_length = omega (arith, r.rest_length);
    }

-- a dash at an index that wants one
record DashRun (index : ℕ) (s : Bytes) : Type 0 where
  behind : Bytes
  rest_length : length s ≡ suc (length behind)
  splits : s ≡ b'-' ∷ behind
  goes_on : uuid_chars (suc index) behind ≡ true

dash_run :
    (index : ℕ) (s : Bytes)
    → dash_index index ≡ true
    → 1 ≤ length s
    → uuid_chars index s ≡ true
    → DashRun index s
unfolding uuid_chars
dash_run index [] d h e = absurd (omega arith)
dash_run index (c ∷ s) d h e = record {
  behind = s;
  rest_length = refl;
  splits = ground arith;
  goes_on = ground arith;
}

hex_pass :
    (n index : ℕ) (s rest : Bytes)
    → Plain index n
    → IsHexGroup n s
    → uuid_chars index (s ++ rest) ≡ uuid_chars (index + n) rest
unfolding uuid_chars
hex_pass zero index [] rest plain h = rw add-zero refl
hex_pass zero index (c ∷ s) rest plain h = absurd (omega (arith, h.count))
hex_pass (suc n) index [] rest plain h = absurd (omega (arith, h.count))
hex_pass (suc n) index (c ∷ s) rest plain h =
    let first = plain index (omega arith) (omega arith) in
    let here : is_lower_hex_digit c ≡ true = ground (arith, h.digits) in
    rw (first, here)
      (hex_pass n (suc index) s rest (λ j a b. plain j (omega arith) (omega arith))
          (IsHexGroup-tail h)
        ∙ ap (λ k. uuid_chars k rest) (shift index n))

dash_pass :
    (index : ℕ) (rest : Bytes)
    → dash_index index ≡ true
    → uuid_chars index (b'-' ∷ rest) ≡ uuid_chars (suc index) rest
unfolding uuid_chars
dash_pass index rest h = rw h refl

abbrev joined : Bytes → Bytes → Bytes → Bytes → Bytes → Bytes
joined a b c d e = a ++ (b'-' ∷ (b ++ (b'-' ∷ (c ++ (b'-' ∷ (d ++ (b'-' ∷ e)))))))

-- `value` is five groups of 8, 4, 4, 4 and 12 lower-case hex digits with dashes between.
pub record IsUuid (value : Bytes) : Type 0 where
  pub time_low : Bytes
  pub time_mid : Bytes
  pub time_high : Bytes
  pub clock : Bytes
  pub node : Bytes
  pub splits :
      value
      ≡ time_low ++ (b'-' ∷ (time_mid ++ (b'-' ∷ (time_high ++ (b'-' ∷ (clock ++ (b'-' ∷ node)))))))
  pub time_low_hex : IsHexGroup 8 time_low
  pub time_mid_hex : IsHexGroup 4 time_mid
  pub time_high_hex : IsHexGroup 4 time_high
  pub clock_hex : IsHexGroup 4 clock
  pub node_hex : IsHexGroup 12 node

-- a group, and the dash behind it
record GroupRun (n index : ℕ) (s : Bytes) : Type 0 where
  group : Bytes
  behind : Bytes
  splits : s ≡ group ++ (b'-' ∷ behind)
  hex : IsHexGroup n group
  goes_on : uuid_chars (suc (index + n)) behind ≡ true
  rest_length : length s ≡ suc (n + length behind)

group_run :
    (n index : ℕ) (s : Bytes)
    → Plain index n
    → dash_index (index + n) ≡ true
    → n < length s
    → uuid_chars index s ≡ true
    → GroupRun n index s
group_run n index s plain dash h e = with_dash (hex_run n index s plain (omega arith) e)
  where
    with_dash : HexRun n index s → GroupRun n index s
    with_dash r =
        let d = dash_run (index + n) r.behind dash (omega (arith, r.rest_length)) r.goes_on in
        record {
          group = r.group;
          behind = d.behind;
          splits = r.splits ∙ ap (λ t. r.group ++ t) d.splits;
          hex = r.hex;
          goes_on = d.goes_on;
          rest_length = omega (arith, r.rest_length, d.rest_length);
        }

last_run :
    (n index : ℕ) (s : Bytes)
    → Plain index n
    → length s ≡ n
    → uuid_chars index s ≡ true
    → IsHexGroup n s
last_run zero index [] plain h e = record { count = refl; digits = refl }
last_run zero index (c ∷ s) plain h e = absurd (omega arith)
last_run (suc n) index [] plain h e = absurd (omega arith)
last_run (suc n) index (c ∷ s) plain h e =
    let facts = digit_step index c s (plain index (omega arith) (omega arith)) e in
    IsHexGroup-cons facts.0 (
      last_run n (suc index) s (λ j a b. plain j (omega arith) (omega arith)) (omega arith) facts.1)

is_canonical_uuid-parts :
    (value : Bytes)
    → is_canonical_uuid value ≡ true
    → (length value ≡ 36) × (uuid_chars 0 value ≡ true)
unfolding is_canonical_uuid
is_canonical_uuid-parts value e = ground arith

is_canonical_uuid-IsUuid : (value : Bytes) → is_canonical_uuid value ≡ true → IsUuid value
is_canonical_uuid-IsUuid value e =
    let facts = is_canonical_uuid-parts value e in
    let low = group_run 8 0 value (λ j a b. ground arith) refl (omega arith) facts.1 in
    let mid =
      group_run 4 9 low.behind (λ j a b. ground arith) refl (omega (arith, low.rest_length))
        low.goes_on in
    let high =
      group_run 4 14 mid.behind (λ j a b. ground arith) refl
        (omega (arith, low.rest_length, mid.rest_length)) mid.goes_on in
    let seq =
      group_run 4 19 high.behind (λ j a b. ground arith) refl
        (omega (arith, low.rest_length, mid.rest_length, high.rest_length)) high.goes_on in
    record {
      time_low = low.group;
      time_mid = mid.group;
      time_high = high.group;
      clock = seq.group;
      node = seq.behind;
      splits = rw (← seq.splits, ← high.splits, ← mid.splits) low.splits;
      time_low_hex = low.hex;
      time_mid_hex = mid.hex;
      time_high_hex = high.hex;
      clock_hex = seq.hex;
      node_hex =
          last_run 12 24 seq.behind (λ j a b. ground arith)
            (omega (arith, low.rest_length, mid.rest_length, high.rest_length, seq.rest_length))
            seq.goes_on;
    }

group_pass :
    (n index : ℕ) (s rest : Bytes)
    → Plain index n
    → dash_index (index + n) ≡ true
    → IsHexGroup n s
    → uuid_chars index (s ++ (b'-' ∷ rest)) ≡ uuid_chars (suc (index + n)) rest
group_pass n index s rest plain dash g =
    hex_pass n index s (b'-' ∷ rest) plain g ∙ dash_pass (index + n) rest dash

uuid_chars-joined :
    (a b c d e : Bytes)
    → IsHexGroup 8 a
    → IsHexGroup 4 b
    → IsHexGroup 4 c
    → IsHexGroup 4 d
    → IsHexGroup 12 e
    → uuid_chars 0 (joined a b c d e) ≡ true
uuid_chars-joined a b c d e ha hb hc hd he =
    group_pass 8 0 a _ (λ j x y. ground arith) refl ha
    ∙ group_pass 4 9 b _ (λ j x y. ground arith) refl hb
    ∙ group_pass 4 14 c _ (λ j x y. ground arith) refl hc
    ∙ group_pass 4 19 d _ (λ j x y. ground arith) refl hd
    ∙ ap (uuid_chars 24) (sym (append-nil e))
    ∙ hex_pass 12 24 e [] (λ j x y. ground arith) he
    ∙ unfold uuid_chars in refl

length-joined :
    (a b c d e : Bytes)
    → length (joined a b c d e) ≡ length a + length b + length c + length d + length e + 4
length-joined a b c d e = simp length-append (omega arith)

IsUuid-is_canonical_uuid : (value : Bytes) → IsUuid value → is_canonical_uuid value ≡ true
unfolding is_canonical_uuid
IsUuid-is_canonical_uuid value u =
    rw
      (
        u.splits,
        length-joined u.time_low u.time_mid u.time_high u.clock u.node,
        u.time_low_hex.count,
        u.time_mid_hex.count,
        u.time_high_hex.count,
        u.clock_hex.count,
        u.node_hex.count,
      )
      (uuid_chars-joined u.time_low u.time_mid u.time_high u.clock u.node u.time_low_hex
        u.time_mid_hex u.time_high_hex u.clock_hex u.node_hex)

-- A text is taken for a UUID exactly if it is five groups of 8, 4, 4, 4 and 12 lower-case hex
-- digits with dashes between.
pub is_canonical_uuid_iff : (value : Bytes) → (is_canonical_uuid value ≡ true) ↔ IsUuid value
is_canonical_uuid_iff value = (is_canonical_uuid-IsUuid value, IsUuid-is_canonical_uuid value)
