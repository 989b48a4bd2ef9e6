-- ===== src/Git/Output.antt =====
-- The response of a Git handler as net/http's ResponseWriter holds it: the status and the headers
-- are fixed when they are first sent, and what is written is appended to the body.
use gitrdone.Common.{ℕ, Option, none, some, [], ◌∷◌, ◌++◌}
use gitrdone.Common.Dict.{Dict, insert, erase}
use gitrdone.Common.{list_eq, nat_eq}
use gitrdone.Text.{Bytes, codes}

pub record Writer : Type 0 where
  pub headers : Dict Bytes Bytes
  pub sent : Option (ℕ × Dict Bytes Bytes)
  pub body : Bytes

abbrev pub new_writer : Writer
new_writer = record { headers = []; sent = none; body = [] }

unfoldable pub set_header : Bytes → Bytes → Writer → Writer
set_header key value w = record w { headers = insert key value w.headers }

unfoldable pub delete_header : Bytes → Writer → Writer
delete_header key w = record w { headers = erase key w.headers }

abbrev keep_sent : Option (ℕ × Dict Bytes Bytes) → ℕ × Dict Bytes Bytes → ℕ × Dict Bytes Bytes
keep_sent none new = new
keep_sent (some old) new = old

-- `WriteHeader`: the first call counts
unfoldable pub write_header : ℕ → Writer → Writer
write_header status w = record w { sent = some (keep_sent w.sent (status, w.headers)) }

-- `Write`, with a status 200 if none was sent
unfoldable pub write : Bytes → Writer → Writer
unfolding write_header
write p w = let sent = write_header 200 w in record sent { body = sent.body ++ p }

-- `http.Error`
unfoldable pub http_error : Bytes → ℕ → Writer → Writer
unfolding set_header delete_header write_header write
http_error message status w = write (message ++ (b'\n' ∷ [])) (
    write_header status (
      set_header (codes "X-Content-Type-Options") (codes "nosniff") (
        set_header (codes "Content-Type") (codes "text/plain; charset=utf-8")
          (delete_header (codes "Content-Length") w))))
