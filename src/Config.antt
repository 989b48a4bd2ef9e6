-- ===== src/Config.antt =====
-- The configuration of cmd/gitrdone/main.go. What it calls of the packages strconv, time and net/netip
-- to read numbers, durations and addresses is a parameter.
pub mod Valid
use gitrdone.Common.{
  ◌*◌, ◌^◌, Bool, true, false, not, ◌||◌, Option, none, some, List, [], ◌∷◌, ◌++◌, ◌==◌, nat_eq,
  list_eq, if◌then◌else◌,
}
use gitrdone.Common.Int.{ℤ, pos, ltb_ℤ}
use gitrdone.Lfs.Store.{default_max_lfs_object_bytes}
use gitrdone.Result.{Error, other, Result, ok, err, ◌>>=◌, ◌>>◌, guard, or_fail}
use gitrdone.Text.{Bytes, codes, split, trim_space}
use gitrdone.Time.{second}

-- `config`, without the writer of the access log, which no variable sets
pub record Config (Prefix Rate : Type 0) : Type 0 where
  pub addr : Bytes
  pub base_url : Bytes
  pub control_bearer : Bytes
  pub storage_root : Bytes
  pub database_url : Bytes
  pub max_lfs_object_bytes : ℤ
  pub trusted_proxy_prefixes : List Prefix
  pub shutdown_timeout : ℤ
  pub sentry_dsn : Bytes
  pub sentry_environment : Bytes
  pub sentry_release : Bytes
  pub sentry_traces_sample_rate : Rate

-- what is called of other packages
pub record Parsers (Prefix Rate : Type 0) : Type 0 where
  -- `netip.ParsePrefix`, masked
  pub parse_prefix : Bytes → Option Prefix
  -- `netip.ParseAddr`, as the prefix of the one address
  pub parse_addr : Bytes → Option Prefix
  -- `127.0.0.1/32` and `::1/128`
  pub loopback_4 : Prefix
  pub loopback_6 : Prefix
  pub parse_duration : Bytes → Result ℤ
  pub parse_int : Bytes → Option ℤ
  pub parse_float : Bytes → Option Rate
  pub zero_rate : Rate
  pub below_zero : Rate → Bool
  pub above_one : Rate → Bool

-- two minutes
abbrev pub default_shutdown_timeout : ℤ
default_shutdown_timeout = pos (2 * 60 * second)

-- the value of a variable: the default where it is empty, and else what `parse` gives
unfoldable pub setting : {A : Type 0} → Bytes → A → (Bytes → Result A) → Result A
setting raw otherwise parse = if raw == [] then ok otherwise else parse raw

abbrev pub or_default : Bytes → Bytes → Bytes
or_default value otherwise = if value == [] then otherwise else value

-- `strings.TrimSpace(getenv(name))`
abbrev pub variable : (Bytes → Bytes) → Bytes → Bytes
variable getenv name = trim_space (getenv name)

module _ {Prefix Rate : Type 0} (p : Parsers Prefix Rate) where
  abbrev pub default_trusted_proxy_prefixes : List Prefix
  default_trusted_proxy_prefixes = p.loopback_4 ∷ p.loopback_6 ∷ []

  abbrev prefix_of : Option Prefix → Option Prefix → Option Prefix
  prefix_of (some prefix) address = some prefix
  prefix_of none address = address

  -- `parseTrustedProxyPrefix`
  unfoldable pub parse_trusted_proxy_prefix : Bytes → Option Prefix
  parse_trusted_proxy_prefix value = prefix_of (p.parse_prefix value) (p.parse_addr value)

  abbrev pub invalid_proxy : Bytes → Error
  invalid_proxy part = other (codes "GITRDONE_TRUSTED_PROXIES contains invalid IP or CIDR " ++ part)

  -- the loop over the parts
  unfoldable pub proxy_prefixes : List Bytes → Result (List Prefix)
  unfolding parse_trusted_proxy_prefix
  proxy_prefixes [] = ok []
  proxy_prefixes (part ∷ parts) =
      let rest = proxy_prefixes parts in
      if trim_space part == []
      then rest
      else (or_fail (parse_trusted_proxy_prefix (trim_space part)) (invalid_proxy (trim_space part))
          >>= λ prefix. rest >>= λ prefixes. ok (prefix ∷ prefixes))

  abbrev pub some_prefixes : List Prefix → Result (List Prefix)
  some_prefixes [] =
      err (other (codes "GITRDONE_TRUSTED_PROXIES must include at least one IP or CIDR"))
  some_prefixes (prefix ∷ prefixes) = ok (prefix ∷ prefixes)

  -- `parseTrustedProxyPrefixes`
  unfoldable pub parse_trusted_proxy_prefixes : Bytes → Result (List Prefix)
  unfolding proxy_prefixes
  parse_trusted_proxy_prefixes raw = proxy_prefixes (split raw b',') >>= some_prefixes

  unfoldable pub parse_shutdown_timeout : Bytes → Result ℤ
  parse_shutdown_timeout raw = do
    timeout ← p.parse_duration raw
    guard (ltb_ℤ (pos 0) timeout)
        (other (codes "GITRDONE_SHUTDOWN_TIMEOUT must be greater than zero"))
    ok timeout

  abbrev pub bad_rate : Error
  bad_rate = other (codes "SENTRY_TRACES_SAMPLE_RATE must be a number between 0 and 1")

  unfoldable pub parse_sample_rate : Bytes → Result Rate
  parse_sample_rate raw = do
    rate ← or_fail (p.parse_float raw) bad_rate
    guard (not (p.below_zero rate || p.above_one rate)) bad_rate
    ok rate

  abbrev pub bad_max_bytes : Error
  bad_max_bytes = other (codes "GITRDONE_MAX_LFS_OBJECT_BYTES must be a positive integer")

  unfoldable pub parse_max_bytes : Bytes → Result ℤ
  parse_max_bytes raw = do
    max_bytes ← or_fail (p.parse_int raw) bad_max_bytes
    guard (ltb_ℤ (pos 0) max_bytes) bad_max_bytes
    ok max_bytes

  -- the settings that were read, with those that are taken as they are
  abbrev pub config_of : (Bytes → Bytes) → List Prefix → ℤ → Rate → ℤ → Config Prefix Rate
  config_of getenv prefixes timeout rate max_bytes = record {
    addr = or_default (variable getenv (codes "GITRDONE_ADDR")) (codes ":8080");
    base_url =
        or_default (variable getenv (codes "GITRDONE_BASE_URL")) (codes "http://localhost:8080");
    control_bearer = variable getenv (codes "GITRDONE_CONTROL_BEARER");
    storage_root = or_default (variable getenv (codes "GITRDONE_STORAGE_ROOT")) (codes ".storage");
    database_url = variable getenv (codes "GITRDONE_DATABASE_URL");
    max_lfs_object_bytes = max_bytes;
    trusted_proxy_prefixes = prefixes;
    shutdown_timeout = timeout;
    sentry_dsn = variable getenv (codes "SENTRY_DSN");
    sentry_environment = variable getenv (codes "SENTRY_ENVIRONMENT");
    sentry_release = variable getenv (codes "SENTRY_RELEASE");
    sentry_traces_sample_rate = rate;
  }

  -- `configFromEnv`
  unfoldable pub config_from_env : (Bytes → Bytes) → Result (Config Prefix Rate)
  unfolding setting parse_trusted_proxy_prefixes parse_shutdown_timeout parse_sample_rate
      parse_max_bytes
  config_from_env getenv = do
    prefixes ←
        setting (variable getenv (codes "GITRDONE_TRUSTED_PROXIES")) default_trusted_proxy_prefixes
          parse_trusted_proxy_prefixes
    timeout ←
        setting (variable getenv (codes "GITRDONE_SHUTDOWN_TIMEOUT")) default_shutdown_timeout
          parse_shutdown_timeout
    rate ←
        setting (variable getenv (codes "SENTRY_TRACES_SAMPLE_RATE")) p.zero_rate parse_sample_rate
    max_bytes ←
        setting (variable getenv (codes "GITRDONE_MAX_LFS_OBJECT_BYTES"))
          default_max_lfs_object_bytes parse_max_bytes
    guard (not (variable getenv (codes "GITRDONE_CONTROL_BEARER") == []))
        (other (codes "GITRDONE_CONTROL_BEARER is required"))
    ok (config_of getenv prefixes timeout rate max_bytes)
