-- ===== src/Config/Valid.antt =====
-- What `configFromEnv` of cmd/gitrdone/main.go lets the server start with.
use gitrdone.Common.{
  ◌≡◌, ◌≢◌, refl, ap, subst, Bool, true, false, not, ◌||◌, List, [], ◌∷◌, inl, inr, Bool-cases,
  ◌==◌, ==_iff, nat_eq, list_eq,
}
use gitrdone.Common.Int.{ℤ, pos, ltb_ℤ}
use gitrdone.Config.{
  Config, Parsers, default_trusted_proxy_prefixes, default_shutdown_timeout, some_prefixes,
  proxy_prefixes, parse_trusted_proxy_prefixes, setting, parse_shutdown_timeout, parse_sample_rate,
  bad_rate, bad_max_bytes, parse_max_bytes, or_default, config_of, variable, config_from_env,
}
use gitrdone.Lfs.Store.{default_max_lfs_object_bytes}
use gitrdone.Result.{
  Error, other, Result, ok, err, guard, ◌>>=◌, ◌>>◌, >>=-eq-ok, guard-eq-ok, or_fail, ok-injective,
}
use gitrdone.Text.{Bytes, codes, split}

-- A configuration that the server can run on.
pub record IsValid {Prefix Rate : Type 0} (p : Parsers Prefix Rate) (c : Config Prefix Rate)
    : Type 0 where
  pub control_bearer : c.control_bearer ≢ []
  pub addr : c.addr ≢ []
  pub base_url : c.base_url ≢ []
  pub storage_root : c.storage_root ≢ []
  pub trusted_proxy_prefixes : c.trusted_proxy_prefixes ≢ []
  pub shutdown_timeout : ltb_ℤ (pos 0) c.shutdown_timeout ≡ true
  pub max_lfs_object_bytes : ltb_ℤ (pos 0) c.max_lfs_object_bytes ≡ true
  pub not_below : p.below_zero c.sentry_traces_sample_rate ≡ false
  pub not_above : p.above_one c.sentry_traces_sample_rate ≡ false

not-nil : (text : Bytes) → not (text == []) ≡ true → text ≢ []
not-nil text h e = absurd (let same = (==_iff text []).1 e in cc)

or_default-nonempty : (value otherwise : Bytes) → otherwise ≢ [] → or_default value otherwise ≢ []
or_default-nonempty value otherwise h = elim (Bool-cases (value == [])) [
  | inl empty ↦ rw empty h
  | inr given ↦ rw given (not-nil value (ap not given))
]

or-false : (a b : Bool) → not (a || b) ≡ true → (a ≡ false) × (b ≡ false)
or-false false false h = (refl, refl)
or-false true b h = absurd cc
or-false false true h = absurd cc

setting-eq-ok :
    {A : Type 0} (P : A → Type 0) (raw : Bytes) (otherwise : A) (parse : Bytes → Result A)
    {value : A}
    → P otherwise
    → ((v : A) → parse raw ≡ ok v → P v)
    → setting raw otherwise parse ≡ ok value
    → P value
unfolding setting
setting-eq-ok P raw otherwise parse first second h = elim (Bool-cases (raw == [])) [
  | inl empty ↦ subst P (ok-injective (rw empty at h)) first
  | inr given ↦ second _ (rw given at h)
]

-- Four settings, a condition, and what is built of them.
settings-done :
    {A B C D E : Type 0} (first : Result A) (second : Result B) (third : Result C)
    (fourth : Result D) (given : Bool) (missing : Error) (build : A → B → C → D → E) {out : E}
    → (first >>= λ a.
        second >>= λ b. third >>= λ c. fourth >>= λ d. guard given missing >> ok (build a b c d))
      ≡ ok out
    → (a : A) × (b : B) × (c : C) × (d : D) × (first ≡ ok a)
      × (second ≡ ok b)
      × (third ≡ ok c)
      × (fourth ≡ ok d)
      × (given ≡ true)
      × (build a b c d ≡ out)
settings-done (ok a) (ok b) (ok c) (ok d) true missing build h =
    (a, b, c, d, refl, refl, refl, refl, refl, ok-injective h)
settings-done (ok a) (ok b) (ok c) (ok d) false missing build h = absurd cc
settings-done (ok a) (ok b) (ok c) (err e) given missing build h = absurd cc
settings-done (ok a) (ok b) (err e) fourth given missing build h = absurd cc
settings-done (ok a) (err e) third fourth given missing build h = absurd cc
settings-done (err e) second third fourth given missing build h = absurd cc

module _ {Prefix Rate : Type 0} (p : Parsers Prefix Rate) where
  abbrev Positive : ℤ → Type 0
  Positive n = ltb_ℤ (pos 0) n ≡ true

  abbrev InRange : Rate → Type 0
  InRange rate = (p.below_zero rate ≡ false) × (p.above_one rate ≡ false)

  some_prefixes-nonempty :
      (found : List Prefix) (prefixes : List Prefix)
      → some_prefixes p found ≡ ok prefixes
      → prefixes ≢ []
  some_prefixes-nonempty [] prefixes h e = absurd cc
  some_prefixes-nonempty (prefix ∷ found) prefixes h e = absurd cc

  parse_trusted_proxy_prefixes-nonempty :
      (raw : Bytes) (prefixes : List Prefix)
      → parse_trusted_proxy_prefixes p raw ≡ ok prefixes
      → prefixes ≢ []
  unfolding parse_trusted_proxy_prefixes
  parse_trusted_proxy_prefixes-nonempty raw prefixes h =
      let (found, parsed, kept) =
        >>=-eq-ok (proxy_prefixes p (split raw b',')) (some_prefixes p) h in
      some_prefixes-nonempty found prefixes kept

  parse_shutdown_timeout-Positive :
      (raw : Bytes) (timeout : ℤ) → parse_shutdown_timeout p raw ≡ ok timeout → Positive timeout
  unfolding parse_shutdown_timeout
  parse_shutdown_timeout-Positive raw timeout h =
      let (value, parsed, rest) = >>=-eq-ok (p.parse_duration raw) _ h in
      let (positive, is_value) = guard-eq-ok (ltb_ℤ (pos 0) value) _ _ rest in
      subst Positive (ok-injective is_value) positive

  parse_max_bytes-Positive : (raw : Bytes) (n : ℤ) → parse_max_bytes p raw ≡ ok n → Positive n
  unfolding parse_max_bytes
  parse_max_bytes-Positive raw n h =
      let (value, parsed, rest) = >>=-eq-ok (or_fail (p.parse_int raw) (bad_max_bytes p)) _ h in
      let (positive, is_value) = guard-eq-ok (ltb_ℤ (pos 0) value) _ _ rest in
      subst Positive (ok-injective is_value) positive

  parse_sample_rate-InRange :
      (raw : Bytes) (rate : Rate) → parse_sample_rate p raw ≡ ok rate → InRange rate
  unfolding parse_sample_rate
  parse_sample_rate-InRange raw rate h =
      let (value, parsed, rest) = >>=-eq-ok (or_fail (p.parse_float raw) (bad_rate p)) _ h in
      let (in_range, is_value) =
        guard-eq-ok (not (p.below_zero value || p.above_one value)) _ _ rest in
      subst InRange (ok-injective is_value) (or-false _ _ in_range)

  -- Every configuration that is read from the environment has a control token, a listen address, a base
  -- URL, a storage root, at least one trusted proxy, a positive shutdown timeout, a positive limit on
  -- LFS objects, and a sample rate that is neither below 0 nor above 1, whatever the variables are. The
  -- rate that stands for an unset variable is in this range; nothing else is assumed of the functions
  -- that read numbers, durations and addresses.
  pub config_from_env-IsValid :
      (getenv : Bytes → Bytes) (c : Config Prefix Rate)
      → p.below_zero p.zero_rate ≡ false
      → p.above_one p.zero_rate ≡ false
      → config_from_env p getenv ≡ ok c
      → IsValid p c
  unfolding config_from_env
  config_from_env-IsValid getenv c not_below not_above h =
      let (prefixes, timeout, rate, max_bytes, e₁, e₂, e₃, e₄, bearer, is_config) =
        settings-done
          (setting (variable getenv (codes "GITRDONE_TRUSTED_PROXIES"))
            (default_trusted_proxy_prefixes p) (parse_trusted_proxy_prefixes p))
          (setting (variable getenv (codes "GITRDONE_SHUTDOWN_TIMEOUT")) default_shutdown_timeout
            (parse_shutdown_timeout p))
          (setting (variable getenv (codes "SENTRY_TRACES_SAMPLE_RATE")) p.zero_rate
            (parse_sample_rate p))
          (setting (variable getenv (codes "GITRDONE_MAX_LFS_OBJECT_BYTES"))
            default_max_lfs_object_bytes (parse_max_bytes p))
          (not (variable getenv (codes "GITRDONE_CONTROL_BEARER") == []))
          (other (codes "GITRDONE_CONTROL_BEARER is required")) (config_of p getenv) h in
      subst (IsValid p) is_config (record {
        control_bearer = not-nil (variable getenv (codes "GITRDONE_CONTROL_BEARER")) bearer;
        addr = or_default-nonempty _ (codes ":8080") (λ e. absurd cc);
        base_url = or_default-nonempty _ (codes "http://localhost:8080") (λ e. absurd cc);
        storage_root = or_default-nonempty _ (codes ".storage") (λ e. absurd cc);
        trusted_proxy_prefixes =
            setting-eq-ok (λ list. list ≢ []) _ (default_trusted_proxy_prefixes p)
              (parse_trusted_proxy_prefixes p) (λ e. absurd cc)
              (parse_trusted_proxy_prefixes-nonempty _) e₁;
        shutdown_timeout =
            setting-eq-ok Positive _ default_shutdown_timeout (parse_shutdown_timeout p) refl
              (parse_shutdown_timeout-Positive _) e₂;
        max_lfs_object_bytes =
            setting-eq-ok Positive _ default_max_lfs_object_bytes (parse_max_bytes p) refl
              (parse_max_bytes-Positive _) e₄;
        not_below =
            (setting-eq-ok InRange _ p.zero_rate (parse_sample_rate p) (not_below, not_above)
              (parse_sample_rate-InRange _) e₃).0;
        not_above =
            (setting-eq-ok InRange _ p.zero_rate (parse_sample_rate p) (not_below, not_above)
              (parse_sample_rate-InRange _) e₃).1;
      })
