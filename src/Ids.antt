-- ===== src/Ids.antt =====
-- internal/http/ids.go: the identifiers that the control API shows, a prefix before a UUID.
pub mod Uuid
pub mod RoundTrip
use gitrdone.Common.{
  ℕ, suc, Bool, true, false, not, ◌&&◌, ◌||◌, Option, none, some, [], ◌∷◌, ◌++◌, ◌==◌, nat_eq, leb,
  if◌then◌else◌, length,
}
use gitrdone.Text.{Bytes, codes, cut_prefix, trim_space}

abbrev pub repo_control_id_prefix : Bytes
repo_control_id_prefix = codes "repo_"

abbrev pub repo_token_control_id_prefix : Bytes
repo_token_control_id_prefix = codes "token_"

unfoldable pub is_lower_hex_digit : ℕ → Bool
is_lower_hex_digit c = (leb b'0' c && leb c b'9') || (leb b'a' c && leb c b'f')

-- `case 8, 13, 18, 23`
abbrev pub dash_index : ℕ → Bool
dash_index i = i == 8 || i == 13 || i == 18 || i == 23

-- the loop `for index, char := range value`
unfoldable pub uuid_chars : ℕ → Bytes → Bool
unfolding is_lower_hex_digit
uuid_chars index [] = true
uuid_chars index (c ∷ value) =
    let rest = uuid_chars (suc index) value in
    if dash_index index
    then (if not (c == b'-') then false else rest)
    else if not (is_lower_hex_digit c)
    then false
    else rest

unfoldable pub is_canonical_uuid : Bytes → Bool
unfolding uuid_chars
is_canonical_uuid value = if not (length value == 36) then false else uuid_chars 0 value

unfoldable pub format_repo_control_id : Bytes → Bytes
format_repo_control_id id = repo_control_id_prefix ++ id

abbrev checked_uuid : Option Bytes → Option Bytes
checked_uuid none = none
checked_uuid (some raw) = if not (is_canonical_uuid raw) then none else some raw

unfoldable pub parse_repo_control_id : Bytes → Option Bytes
unfolding is_canonical_uuid trim_space
parse_repo_control_id value = checked_uuid (cut_prefix (trim_space value) repo_control_id_prefix)

unfoldable pub format_repo_token_control_id : Bytes → Bytes
format_repo_token_control_id id = repo_token_control_id_prefix ++ id

unfoldable pub parse_repo_token_control_id : Bytes → Option Bytes
unfolding is_canonical_uuid trim_space
parse_repo_token_control_id value =
    checked_uuid (cut_prefix (trim_space value) repo_token_control_id_prefix)
