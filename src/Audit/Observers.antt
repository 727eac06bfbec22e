-- ===== src/Audit/Observers.antt =====
-- internal/audit/file.go and http.go: what the two observers do with an event. json.Marshal, and what
-- the calls of the system and of the network do, are arguments.
pub mod Log
use rtmetrics.Base.{
  ℕ, Bool, true, false, String, Option, none, some, List, [], ◌∷◌, ◌++◌, leb, if◌then◌else◌,
}
use rtmetrics.Repository.{Result, ok, err}
use rtmetrics.Audit.{Event}

-- FileObserver: the bytes of the file, and whether o.file is not nil. A text is its list of bytes.
pub record FileObserver : Type 0 where
  pub content : List ℕ
  pub is_open : Bool

-- NewFileObserver, with what OpenFile made of the path: the bytes that were there stay.
unfoldable pub new_file_observer : Result (List ℕ) → Result FileObserver
new_file_observer (err e) = err e
new_file_observer (ok content) = ok (record { content = content; is_open = true })

-- FileObserver.Observe; `written` is what Write appends of the bytes it is given.
abbrev pub append_line : (List ℕ → List ℕ) → Option (List ℕ) → FileObserver → FileObserver
append_line written none o = o
append_line written (some line) o =
    if o.is_open then record o { content = o.content ++ written (line ++ b'\n' ∷ []) } else o

unfoldable pub observe_file :
    (Event → Option (List ℕ)) → (List ℕ → List ℕ) → Event → FileObserver → FileObserver
observe_file marshal written event o = append_line written (marshal event) o

-- FileObserver.Close; a nil observer is `none`, `closing` what Close of the file returns.
unfoldable pub close_file :
    Result {0} Unit → Option FileObserver → Result {0} Unit × Option FileObserver
close_file closing none = (ok tt, none)
close_file closing (some o) =
    if o.is_open then (closing, some (record o { is_open = false })) else (ok tt, some o)

-- HTTPObserver, with its log: a request, and whether an error was logged.
pub record Post : Type 0 where
  pub url : String
  pub content_type : String
  pub body : List ℕ

-- HTTPObserver.Observe: the request that it makes, and whether it logs an error. `post` is the client:
-- the status code, or an error, within the timeout of three seconds.
unfoldable pub observe_http :
    (Event → Option (List ℕ)) → (Post → Result ℕ) → String → Event → Option Post × Bool
observe_http marshal post url event = elim (marshal event) [
  | none ↦ (none, true)
  | some body ↦
      let request : Post = record { url = url; content_type = "application/json"; body = body } in
      (some request, elim (post request) [ err e ↦ true | ok status ↦ leb 400 status ])
]
