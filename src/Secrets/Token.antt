-- ===== src/Secrets/Token.antt =====
-- The texts of `generateRepoToken` (internal/http/repository.go).
use gitrdone.Common.{◌≡◌, refl, true, Option, some, none, length, all, all-append, arith}
use gitrdone.Result.{ok}
use gitrdone.Text.{Bytes, codes}
use gitrdone.Secrets.{fill, base64_encode, token_of, generate_repo_token}
use gitrdone.Secrets.Encoding.{fill-IsByte, base64_encode-is_token_char, is_token_char}

token_of-chars : (bs : Bytes) → all is_token_char (token_of bs) ≡ true
unfolding token_of
token_of-chars bs =
    all-append is_token_char (codes "gtd_") (base64_encode (fill 32 bs)) refl
      (base64_encode-is_token_char (fill 32 bs) (fill-IsByte 32 bs))

token_of-length : (bs : Bytes) → length (token_of bs) ≡ 47
unfolding token_of
token_of-length bs = refl

-- Every token generated has 47 characters, each a letter, a digit, `-` or `_`.
pub generate_repo_token-chars :
    (read : Option Bytes) (token : Bytes)
    → generate_repo_token read ≡ ok token
    → (length token ≡ 47) × (all is_token_char token ≡ true)
unfolding generate_repo_token
generate_repo_token-chars none token h = cc
generate_repo_token-chars (some bs) token h =
    let e = token_of-length bs in let f = token_of-chars bs in ground arith
