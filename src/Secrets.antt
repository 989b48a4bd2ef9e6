-- ===== src/Secrets.antt =====
-- `newUUID`, `generateRepoToken` and `hashRepoToken` of internal/http/repository.go. The random
-- source is the list of what its calls of `rand.Read` give: an error, or the bytes that fill the
-- buffer, which is zero behind them; a read past the end of the list is an error. The SHA-256
-- function is a parameter.
pub mod Encoding
pub mod Uuid
pub mod Token
use Prim.Native.Nat.{bit_and, bit_or}
use gitrdone.Common.{
  ℕ, zero, suc, ◌+◌, ◌-◌, ◌*◌, ◌/◌, ◌%◌, Option, none, some, List, [], ◌∷◌, ◌++◌, ltb,
  if◌then◌else◌, take, drop,
}
use gitrdone.Result.{Error, other, Result, ok, err}
use gitrdone.Text.{Bytes, codes}

abbrev pub Reads : Type 0
Reads = List (Option Bytes)

abbrev pub rand_error : Error
rand_error = other (codes "rand")

-- the outcome of the next `rand.Read`, and the later ones
unfoldable pub draw : Reads → Option Bytes × Reads
draw [] = (none, [])
draw (r ∷ rs) = (r, rs)

abbrev first_byte : Bytes → ℕ
first_byte [] = 0
first_byte (b ∷ bs) = b % 256

abbrev other_bytes : Bytes → Bytes
other_bytes [] = []
other_bytes (b ∷ bs) = bs

-- `var raw [n]byte` after a read into it
unfoldable pub fill : ℕ → Bytes → Bytes
fill zero bs = []
fill (suc n) bs = first_byte bs ∷ fill n (other_bytes bs)

unfoldable pub hex_digit : ℕ → ℕ
hex_digit n = if ltb n 10 then b'0' + n else b'a' + (n - 10)

-- `hex.EncodeToString`
unfoldable pub hex_encode : Bytes → Bytes
unfolding hex_digit
hex_encode [] = []
hex_encode (b ∷ bs) = hex_digit (b / 16) ∷ hex_digit (b % 16) ∷ hex_encode bs

-- `raw[i] = f(raw[i])`
unfoldable pub update : ℕ → (ℕ → ℕ) → Bytes → Bytes
update i f [] = []
update zero f (b ∷ bs) = f b ∷ bs
update (suc i) f (b ∷ bs) = b ∷ update i f bs

abbrev pub slice : ℕ → ℕ → Bytes → Bytes
slice lo hi s = take (hi - lo) (drop lo s)

abbrev pub version_4 : ℕ → ℕ
version_4 b = bit_or (bit_and b 0x0f) 0x40

abbrev pub variant_1 : ℕ → ℕ
variant_1 b = bit_or (bit_and b 0x3f) 0x80

unfoldable pub uuid_of : Bytes → Bytes
unfolding hex_encode update fill
uuid_of bs =
    let raw = update 8 variant_1 (update 6 version_4 (fill 16 bs)) in
    let uuid = hex_encode raw in
    slice 0 8 uuid
    ++ (codes "-"
        ++ (slice 8 12 uuid
            ++ (codes "-"
                ++ (slice 12 16 uuid
                    ++ (codes "-" ++ (slice 16 20 uuid ++ (codes "-" ++ slice 20 32 uuid)))))))

unfoldable pub new_uuid : Option Bytes → Result Bytes
unfolding uuid_of
new_uuid none = err rand_error
new_uuid (some bs) = ok (uuid_of bs)

-- the alphabet of `base64.RawURLEncoding`
unfoldable pub base64_char : ℕ → ℕ
base64_char n =
    if ltb n 26
    then b'A' + n
    else if ltb n 52
    then b'a' + (n - 26)
    else if ltb n 62
    then b'0' + (n - 52)
    else if ltb n 63
    then b'-'
    else b'_'

unfoldable pub base64_encode : Bytes → Bytes
unfolding base64_char
base64_encode [] = []
base64_encode (a ∷ []) = base64_char (a / 4) ∷ base64_char (a % 4 * 16) ∷ []
base64_encode (a ∷ b ∷ []) =
    base64_char (a / 4) ∷ base64_char (a % 4 * 16 + b / 16) ∷ base64_char (b % 16 * 4) ∷ []
base64_encode (a ∷ b ∷ c ∷ s) =
    base64_char (a / 4)
    ∷ base64_char (a % 4 * 16 + b / 16)
    ∷ base64_char (b % 16 * 4 + c / 64)
    ∷ base64_char (c % 64)
    ∷ base64_encode s

unfoldable pub token_of : Bytes → Bytes
unfolding base64_encode fill
token_of bs = codes "gtd_" ++ base64_encode (fill 32 bs)

unfoldable pub generate_repo_token : Option Bytes → Result Bytes
unfolding token_of
generate_repo_token none = err rand_error
generate_repo_token (some bs) = ok (token_of bs)

unfoldable pub hash_repo_token : (Bytes → Bytes) → Bytes → Bytes
hash_repo_token sha256 token = hex_encode (sha256 token)
