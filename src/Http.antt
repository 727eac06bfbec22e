-- ===== src/Http.antt =====
-- What the handlers and the middleware use of net/http: requests, the calls that a handler makes of
-- its ResponseWriter, in order, and the response that the server sends for them.
use text.Mathlib.Text.{find?}
use rtmetrics.Base.{
  ℕ, String, Bool, Option, none, some, List, [], ◌∷◌, ◌++◌, Bytes, codes, is_some, or_else,
}
use rtmetrics.Base.GoMap.{GoMap, empty, put, delete}

-- `header` is Header.Get, "" where the header is missing; `param` is chi.URLParam. `body` is what can
-- be read of the body, and `body_ok` is false where reading on fails. A JSON decoder reads one value:
-- it succeeds if the whole value is in `body`.
pub record Request : Type 0 where
  pub method : String
  pub path : String
  pub header : String → String
  pub param : String → String
  pub body : Bytes
  pub body_ok : Bool
  pub remote_addr : String

pub data Act : Type 0 where
  set_header : String → String → Act
  del_header : String → Act
  write_header : ℕ → Act
  write : Bytes → Act

pub record Response : Type 0 where
  pub status : ℕ
  pub headers : GoMap String
  pub body : Bytes

-- strings.Contains
abbrev pub contains : String → String → Bool
contains s sub = is_some (find? s sub)

-- http.Error
abbrev pub error : String → ℕ → List Act
error msg code =
    del_header "Content-Length"
    ∷ set_header "Content-Type" "text/plain; charset=utf-8"
    ∷ set_header "X-Content-Type-Options" "nosniff"
    ∷ write_header code
    ∷ write (codes msg ++ b'\n' ∷ [])
    ∷ []

-- The writer of the server: the headers so far, what WriteHeader has sent, and the body so far.
pub record Writer : Type 0 where
  pub header : GoMap String
  pub sent : Option (ℕ × GoMap String)
  pub body : Bytes

-- Headers go out with the first WriteHeader; a second one changes nothing.
abbrev pub send : ℕ → Writer → Writer
send code w = elim w.sent [ none ↦ record w { sent = some (code, w.header) } | some _ ↦ w ]

-- A Write before any WriteHeader sends the status 200.
unfoldable pub perform : Act → Writer → Writer
perform (set_header k v) w = record w { header = put w.header k v }
perform (del_header k) w = record w { header = delete w.header k }
perform (write_header code) w = send code w
perform (write b) w = let w' = send 200 w in record w' { body = w'.body ++ b }

unfoldable pub perform_all : List Act → Writer → Writer
perform_all [] w = w
perform_all (a ∷ acts) w = perform_all acts (perform a w)

abbrev pub fresh_writer : Writer
fresh_writer = record { header = empty; sent = none; body = [] }

abbrev pub sent_or_ok : Writer → ℕ × GoMap String
sent_or_ok w = or_else w.sent (200, w.header)

-- The response once the handler has returned.
unfoldable pub respond : List Act → Response
unfolding perform_all perform
respond acts =
    let w = perform_all acts fresh_writer in
    record { status = (sent_or_ok w).0; headers = (sent_or_ok w).1; body = w.body }
