-- ===== src/Middleware/Compress.antt =====
-- internal/middleware/compress/compress.go: gzip on the bodies of requests and answers.
use rtmetrics.Base.{
  ℕ, zero, suc, length, String, Bool, true, false, ◌||◌, Option, none, some, List, [], ◌∷◌, ◌++◌,
  Bytes, codes, ◌==◌, if◌then◌else◌, nat_eq, or_else,
}
use rtmetrics.Base.GoMap.{GoMap, empty, get, put, delete}
use rtmetrics.Http.{Act, set_header, del_header, write_header, write, error, contains}
use rtmetrics.Api.{World}
use rtmetrics.Crypto.{bytes_eq}
use rtmetrics.Middleware.{HandlerFunc, with_body}

-- compress/gzip: whether NewReader accepts the start of a body; what can be read of it, and whether
-- that is all; and what the writer makes of the bytes written, once closed.
pub record Gzip : Type 0 where
  pub opens : Bytes → Bool
  pub inflate : Bytes → Bytes × Bool
  pub deflate : Bytes → Bytes

-- strings.HasPrefix
unfoldable pub has_prefix : Bytes → Bytes → Bool
has_prefix s [] = true
has_prefix [] (p ∷ ps) = false
has_prefix (c ∷ s) (p ∷ ps) = let rest = has_prefix s ps in if nat_eq c p then rest else false

-- The white space of ASCII.
abbrev is_space : ℕ → Bool
is_space c =
    nat_eq c 32 || (nat_eq c 9 || (nat_eq c 10 || (nat_eq c 11 || (nat_eq c 12 || nat_eq c 13))))

unfoldable pub trim_left : Bytes → Bytes
trim_left [] = []
trim_left (c ∷ s) = let rest = trim_left s in if is_space c then rest else c ∷ s

unfoldable pub trim_right : Bytes → Bytes
trim_right [] = []
trim_right (c ∷ s) = elim (trim_right s) [
  | [] ↦ if is_space c then [] else c ∷ []
  | d ∷ ds ↦ c ∷ d ∷ ds
]

-- strings.TrimSpace
abbrev pub trim_space : Bytes → Bytes
trim_space s = trim_right (trim_left s)

-- The part of the text before the first `b`, and what follows `b`.
unfoldable pub cut : ℕ → Bytes → Bytes × Option Bytes
cut b [] = ([], none)
cut b (c ∷ s) = let rest = cut b s in if nat_eq c b then ([], some s) else (c ∷ rest.0, rest.1)

-- The loop over strings.Split(acceptEncoding, ","). The length of the text bounds the number of parts.
unfoldable pub accepts_gzip : ℕ → Bytes → Bool
unfolding cut trim_left trim_right has_prefix
accepts_gzip zero s = has_prefix (trim_space s) (codes "gzip")
accepts_gzip (suc fuel) s =
    let part = cut b',' s in
    let others : Bool = elim part.1 [ none ↦ false | some rest ↦ accepts_gzip fuel rest ] in
    if has_prefix (trim_space part.0) (codes "gzip") then true else others

-- compressibleTypes, of a Content-Type without its parameters
unfoldable pub compressible : String → Bool
unfolding cut trim_left trim_right bytes_eq codes
compressible content_type =
    let mime = trim_space (cut b';' (codes content_type)).0 in
    bytes_eq mime (codes "text/html") || bytes_eq mime (codes "application/json")

-- gzipResponseWriter: the calls of the writer below so far, its header, whether Write has been called,
-- and what the gzip writer has been given, `none` where there is none.
pub record GzipWriter : Type 0 where
  pub below : List Act
  pub header : GoMap String
  pub written : Bool
  pub zipped : Option Bytes

-- Write after the first one.
abbrev pub write_more : Bytes → GzipWriter → Option Bytes → GzipWriter
write_more b g (some z) = record g { zipped = some (z ++ b) }
write_more b g none = record g { below = g.below ++ write b ∷ [] }

-- The first Write. A new gzip writer sends its own first bytes at once, and with them the headers.
abbrev pub write_first : Bytes → GzipWriter → GzipWriter
write_first b g =
    if or_else (get g.header "Content-Encoding") "" == "gzip"
    then record g { written = true; zipped = some b; below = g.below ++ write [] ∷ [] }
    else record g { written = true; below = g.below ++ write b ∷ [] }

-- WriteHeader and Write of gzipResponseWriter, and the calls on its Header().
unfoldable pub zip : Act → GzipWriter → GzipWriter
zip (set_header k v) g = record g {
  below = g.below ++ set_header k v ∷ [];
  header = put g.header k v;
}
zip (del_header k) g = record g { below = g.below ++ del_header k ∷ []; header = delete g.header k }
zip (write_header code) g =
    if compressible (or_else (get g.header "Content-Type") "")
    then record g {
      below =
          g.below
          ++ set_header "Content-Encoding" "gzip"
            ∷ del_header "Content-Length"
            ∷ write_header code
            ∷ [];
      header = delete (put g.header "Content-Encoding" "gzip") "Content-Length";
    }
    else record g { below = g.below ++ write_header code ∷ [] }
zip (write b) g = if g.written then write_more b g g.zipped else write_first b g

unfoldable pub zip_all : List Act → GzipWriter → GzipWriter
unfolding zip
zip_all [] g = g
zip_all (a ∷ acts) g = zip_all acts (zip a g)

-- Close
abbrev pub closed : Gzip → GzipWriter → Option Bytes → List Act
closed gzip g none = g.below
closed gzip g (some z) = g.below ++ write (gzip.deflate z) ∷ []

abbrev pub zipped_answer : {S : Type 0} → Gzip → List Act × World S → List Act × World S
zipped_answer gzip (acts, w) =
    let g = zip_all acts (record { below = []; header = empty; written = false; zipped = none }) in
    (closed gzip g g.zipped, w)

-- The answer: compressed if the client accepts gzip.
unfoldable pub answering : {S : Type 0} → Gzip → HandlerFunc S → HandlerFunc S
answering gzip next r w =
    let accept = codes (r.header "Accept-Encoding") in
    if accepts_gzip (length accept) accept then zipped_answer gzip (next r w) else next r w

-- New
unfoldable pub compressing : {S : Type 0} → Gzip → HandlerFunc S → HandlerFunc S
compressing gzip next r w =
    if has_prefix (codes r.path) (codes "/debug/pprof")
    then next r w
    else if contains (r.header "Content-Encoding") "gzip"
    then if gzip.opens r.body
      then answering gzip next (with_body r (gzip.inflate r.body).0 (gzip.inflate r.body).1) w
      else (error "invalid gzip body" 400, w)
    else answering gzip next r w
