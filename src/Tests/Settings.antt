-- ===== src/Tests/Settings.antt =====
-- An environment for `configFromEnv` of cmd/gitrdone/main.go.
use gitrdone.Common.{
  ℕ, ◌≡◌, refl, false, none, some, [], ◌∷◌, equal, nat_eq, list_eq, ◌==◌, if◌then◌else◌,
}
use gitrdone.Common.Int.{pos}
use gitrdone.Config.{Config, Parsers, config_from_env}
use gitrdone.Config.Valid.{IsValid, config_from_env-IsValid}
use gitrdone.Result.{ok}
use gitrdone.Text.{Bytes, codes}

-- every text is an address, a duration of one second, the number 7 and the rate 0
abbrev parsers : Parsers Bytes ℕ
parsers = record {
  parse_prefix = λ value. none;
  parse_addr = λ value. some value;
  loopback_4 = codes "127.0.0.1/32";
  loopback_6 = codes "::1/128";
  parse_duration = λ value. ok (pos 1000000000);
  parse_int = λ value. some (pos 7);
  parse_float = λ value. some 0;
  zero_rate = 0;
  below_zero = λ rate. false;
  above_one = λ rate. false;
}

abbrev environment : Bytes → Bytes
environment name =
    if name == codes "GITRDONE_CONTROL_BEARER"
    then codes "secret"
    else if name == codes "GITRDONE_TRUSTED_PROXIES"
    then codes "10.0.0.1, ::1"
    else []

abbrev read_config : Config Bytes ℕ
read_config = record {
  addr = codes ":8080";
  base_url = codes "http://localhost:8080";
  control_bearer = codes "secret";
  storage_root = codes ".storage";
  database_url = [];
  max_lfs_object_bytes = pos 5368709120;
  trusted_proxy_prefixes = codes "10.0.0.1" ∷ codes "::1" ∷ [];
  shutdown_timeout = pos 120000000000;
  sentry_dsn = [];
  sentry_environment = [];
  sentry_release = [];
  sentry_traces_sample_rate = 0;
}

is_read : config_from_env parsers environment ≡ ok read_config
unfolding config_from_env equal gitrdone.Text.trim_space gitrdone.Text.split
is_read = refl

config_from_env-IsValid_example : IsValid parsers read_config
config_from_env-IsValid_example =
    config_from_env-IsValid parsers environment read_config refl refl is_read
