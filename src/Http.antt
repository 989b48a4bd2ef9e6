-- ===== src/Http.antt =====
-- Requests and responses as the handlers see them: internal/http/json.go, and what net/http gives.
-- Header values and path values are those that `r.Header.Get` and `r.PathValue` return, empty if
-- there is none. A JSON body is the outcome of the decoder's two reads of it.
use gitrdone.Common.{ℕ, Option, none, some, List, [], ◌∷◌}
use gitrdone.Text.{Bytes, codes}

-- One read by `json.Decoder`: the end of the body, an error, or a value of the request type.
pub data Decoded (A : Type 0) : Type 0 where
  eof : Decoded A
  malformed : Decoded A
  value : A → Decoded A

-- The body under `MaxBytesReader`, read twice.
pub record JsonBody (A : Type 0) : Type 0 where
  pub first : Decoded A
  pub trailing : Decoded (Unit {0})

abbrev with_trailing : {A : Type 0} → A → Decoded (Unit {0}) → Option A
with_trailing a eof = some a
with_trailing a malformed = none
with_trailing a (value _) = none

-- `decodeJSON`, `none` where it returns an error
unfoldable pub decode_json : {A : Type 0} → JsonBody A → Option A
decode_json body = elim body.first [
  | eof ↦ none
  | malformed ↦ none
  | value a ↦ with_trailing a body.trailing
]

abbrev pub Headers : Type 0
Headers = List (Bytes × Bytes)

-- What a handler wrote: a JSON value of the handler's response type, or an error.
pub data Body (A : Type 0) : Type 0 where
  no_body : Body A
  -- `http.Error`
  text : Bytes → Body A
  -- `errorResponse`
  error_json : Bytes → Body A
  json : A → Body A

pub record Response (A : Type 0) : Type 0 where
  pub status : ℕ
  pub headers : Headers
  pub body : Body A

abbrev json_type : Headers
json_type = (codes "Content-Type", codes "application/json") ∷ []

-- `writeJSON`
unfoldable pub write_json : {A : Type 0} → ℕ → Body A → Response A
write_json status body = record { status = status; headers = json_type; body = body }

-- `writeError`
unfoldable pub write_error : {A : Type 0} → ℕ → Bytes → Response A
unfolding write_json
write_error status message = write_json status (error_json message)

-- `w.WriteHeader` alone
unfoldable pub write_status : {A : Type 0} → ℕ → Response A
write_status status = record { status = status; headers = []; body = no_body }

-- `http.Error`, with the headers that were set before
unfoldable pub http_error : {A : Type 0} → Headers → Bytes → ℕ → Response A
http_error headers message status = record {
  status = status;
  headers =
      (codes "Content-Type", codes "text/plain; charset=utf-8")
      ∷ (codes "X-Content-Type-Options", codes "nosniff")
      ∷ headers;
  body = text message;
}
