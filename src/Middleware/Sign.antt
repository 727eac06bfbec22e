-- ===== src/Middleware/Sign.antt =====
-- internal/middleware/sign/sign.go: signed requests and signed answers.
use rtmetrics.Base.{
  ℕ, String, true, Option, none, some, List, [], ◌∷◌, ◌++◌, Bytes, ◌==◌, if◌then◌else◌, or_else,
}
use rtmetrics.Http.{Act, set_header, del_header, write_header, write, error}
use rtmetrics.Api.{World}
use rtmetrics.Crypto.{Mac, sign, valid}
use rtmetrics.Middleware.{HandlerFunc, with_body}

-- hash.Header
abbrev pub hash_header : String
hash_header = "HashSHA256"

-- signingResponseWriter: headers go to the writer below as they come; the status and the body wait.
pub record Signing : Type 0 where
  pub headers : List Act
  pub body : Bytes
  pub status : Option ℕ

-- WriteHeader and Write of signingResponseWriter.
unfoldable pub buffer : Act → Signing → Signing
buffer (set_header k v) s = record s { headers = s.headers ++ set_header k v ∷ [] }
buffer (del_header k) s = record s { headers = s.headers ++ del_header k ∷ [] }
buffer (write_header code) s = record s { status = some (or_else s.status code) }
buffer (write b) s = record s { status = some (or_else s.status 200); body = s.body ++ b }

unfoldable pub buffer_all : List Act → Signing → Signing
unfolding buffer
buffer_all [] s = s
buffer_all (a ∷ acts) s = buffer_all acts (buffer a s)

abbrev pub rest_of_body : Bytes → List Act
rest_of_body [] = []
rest_of_body (b ∷ bs) = write (b ∷ bs) ∷ []

-- flush
unfoldable pub flush : Mac → String → Signing → List Act
flush mac key s =
    s.headers
    ++ set_header hash_header (sign mac s.body key)
      ∷ write_header (or_else s.status 200)
      ∷ rest_of_body s.body

abbrev pub signed : {S : Type 0} → Mac → String → List Act × World S → List Act × World S
signed mac key (acts, w) =
    (flush mac key (buffer_all acts (record { headers = []; body = []; status = none })), w)

-- New
unfoldable pub signing : {S : Type 0} → Mac → String → HandlerFunc S → HandlerFunc S
signing mac key next r w =
    if r.body_ok
    then if r.header hash_header == ""
      then signed mac key (next (with_body r r.body true) w)
      else if valid mac r.body key (r.header hash_header)
      then signed mac key (next (with_body r r.body true) w)
      else (error "invalid signature" 400, w)
    else (error "failed to read request body" 400, w)
