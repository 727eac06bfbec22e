-- ===== src/Audit/Observers/Log.antt =====
-- The log that FileObserver (internal/audit/file.go) leaves.
use rtmetrics.Base.{
  ℕ, ◌≡◌, refl, sym, ◌∙◌, ap, Bool, true, false, Option, none, some, List, [], ◌∷◌, ◌++◌, map, All,
  All-append, arith, nat_eq, if◌then◌else◌,
}
use mathlib.Core.List.{append_assoc, append-nil, map-append}
use rtmetrics.Audit.{Event}
use rtmetrics.Audit.Observers.{FileObserver, append_line, observe_file}

-- The lines of a file, the last one with its newline or without.
abbrev pub last_line : List ℕ → List (List ℕ)
last_line [] = []
last_line (b ∷ line) = (b ∷ line) ∷ []

unfoldable pub lines_from : List ℕ → List ℕ → List (List ℕ)
lines_from line [] = last_line line
lines_from line (b ∷ bytes) = elim (nat_eq b b'\n') [
  | true ↦ line ∷ lines_from [] bytes
  | false ↦ lines_from (line ++ b ∷ []) bytes
]

abbrev pub has_newline : List ℕ → Bool
has_newline [] = false
has_newline (b ∷ bytes) = if nat_eq b b'\n' then true else has_newline bytes

lines_from-line :
    (line a rest : List ℕ)
    → has_newline a ≡ false
    → lines_from line (a ++ b'\n' ∷ rest) ≡ (line ++ a) ∷ lines_from [] rest
unfolding lines_from
lines_from-line line [] rest h = ap (λ l. l ∷ lines_from [] rest) (sym (append-nil line))
lines_from-line line (b ∷ a) rest h =
    let (plain, others) = split b a h in
    rw (plain, lines_from)
      (lines_from-line (line ++ b ∷ []) a rest others
        ∙ ap (λ l. l ∷ lines_from [] rest) (append_assoc line (b ∷ []) a))
  where
    split :
        (b : ℕ) (a : List ℕ)
        → has_newline (b ∷ a) ≡ false
        → (nat_eq b b'\n' ≡ false) × (has_newline a ≡ false)
    split b a h = ground arith

-- The file with these lines.
abbrev pub joined : List (List ℕ) → List ℕ
joined [] = []
joined (line ∷ lines) = line ++ b'\n' ∷ joined lines

joined-append : (ls ks : List (List ℕ)) → joined (ls ++ ks) ≡ joined ls ++ joined ks
joined-append [] ks = refl
joined-append (line ∷ ls) ks =
    ap (λ l. line ++ b'\n' ∷ l) (joined-append ls ks)
    ∙ sym (append_assoc line (b'\n' ∷ joined ls) (joined ks))

lines_from-joined :
    (ls : List (List ℕ))
    → All (λ line. has_newline line ≡ false) ls
    → lines_from [] (joined ls) ≡ ls
unfolding lines_from
lines_from-joined [] plain = refl
lines_from-joined (line ∷ ls) (plain, others) =
    lines_from-line [] line (joined ls) plain ∙ ap (λ l. line ∷ l) (lines_from-joined ls others)

abbrev pub if_encoded {ℓ} : {A : Type ℓ} → Option (List ℕ) → (List ℕ → A) → List A → List A
if_encoded none f rest = rest
if_encoded (some line) f rest = f line ∷ rest

-- One event, with what it is encoded to.
content-append_line :
    (m : Option (List ℕ)) (o : FileObserver) (rest : List (List ℕ))
    → o.is_open ≡ true
    → ((append_line (λ bytes. bytes) m o).is_open ≡ true)
      × ((append_line (λ bytes. bytes) m o).content ++ joined rest
          ≡ o.content ++ joined (if_encoded m (λ line. line) rest))
content-append_line none o rest on = (on, refl)
content-append_line (some line) o rest on = rw on (
  refl,
  append_assoc o.content (line ++ b'\n' ∷ []) (joined rest)
      ∙ ap (λ l. o.content ++ l) (append_assoc line (b'\n' ∷ []) (joined rest)),
)

if_encoded-All :
    (m : Option (List ℕ)) (rest : List (List ℕ))
    → ((line : List ℕ) → m ≡ some line → has_newline line ≡ false)
    → All (λ line. has_newline line ≡ false) rest
    → All (λ line. has_newline line ≡ false) (if_encoded m (λ line. line) rest)
if_encoded-All none rest plain all = all
if_encoded-All (some line) rest plain all = (plain line refl, all)

map-if_encoded :
    (decode : List ℕ → Option Event) (m : Option (List ℕ)) (e : Event) (rest : List (List ℕ))
    (es : List Event)
    → ((line : List ℕ) → m ≡ some line → decode line ≡ some e)
    → map decode rest ≡ map some es
    → map decode (if_encoded m (λ line. line) rest) ≡ map some (if_encoded m (λ line. e) es)
map-if_encoded decode none e rest es back h = h
map-if_encoded decode (some line) e rest es back h = cc (back line refl, h)

module _ (marshal : Event → Option (List ℕ)) (decode : List ℕ → Option Event) where
  -- Each Write appends all it is given.
  unfoldable pub observe_files : List Event → FileObserver → FileObserver
  unfolding observe_file
  observe_files [] o = o
  observe_files (event ∷ events) o =
      observe_files events (observe_file marshal (λ bytes. bytes) event o)

  abbrev pub encoded : List Event → List (List ℕ)
  encoded [] = []
  encoded (event ∷ events) = if_encoded (marshal event) (λ line. line) (encoded events)

  -- The events that json.Marshal encodes.
  abbrev pub encodable : List Event → List Event
  encodable [] = []
  encodable (event ∷ events) = if_encoded (marshal event) (λ line. event) (encodable events)

  -- A JSON text has no raw newline, and decoding gives the event back.
  abbrev pub IsJson : Type 0
  IsJson =
      (event : Event) (line : List ℕ)
      → marshal event ≡ some line
      → (has_newline line ≡ false) × (decode line ≡ some event)

  content-observe_files :
      (es : List Event) (o : FileObserver)
      → o.is_open ≡ true
      → (observe_files es o).content ≡ o.content ++ joined (encoded es)
  unfolding observe_files observe_file
  content-observe_files [] o on = sym (append-nil o.content)
  content-observe_files (e ∷ es) o on =
      let (still, at) = content-append_line (marshal e) o (encoded es) on in
      content-observe_files es (append_line (λ bytes. bytes) (marshal e) o) still ∙ at

  module _ (json : IsJson) where
    encoded-All : (es : List Event) → All (λ line. has_newline line ≡ false) (encoded es)
    encoded-All [] = tt
    encoded-All (e ∷ es) =
        if_encoded-All (marshal e) (encoded es) (λ line h. (json e line h).0) (encoded-All es)

    map-encoded : (es : List Event) → map decode (encoded es) ≡ map some (encodable es)
    map-encoded [] = refl
    map-encoded (e ∷ es) =
        map-if_encoded decode (marshal e) e (encoded es) (encodable es)
          (λ line h. (json e line h).1) (map-encoded es)

    -- Reading the audit file line by line gives back what it held before and then, in their order, the
    -- events that were observed since and have a JSON form, if the file is open, its old content is
    -- whole lines, and each Write appends all it is given. (The JSON text of an event has no newline
    -- and is decoded to that event.)
    pub lines-observe_files :
        (es : List Event) (o : FileObserver) (ls : List (List ℕ))
        → o.is_open ≡ true
        → All (λ line. has_newline line ≡ false) ls
        → o.content ≡ joined ls
        → map decode (lines_from [] (observe_files es o).content)
          ≡ map decode ls ++ map some (encodable es)
    lines-observe_files es o ls on plain whole =
        let content : (observe_files es o).content ≡ joined (ls ++ encoded es) =
          content-observe_files es o on
          ∙ ap (λ l. l ++ joined (encoded es)) whole
          ∙ sym (joined-append ls (encoded es)) in
        rw content (
          ap (map decode) (
            lines_from-joined (ls ++ encoded es)
              (All-append _ ls (encoded es) plain (encoded-All es)))
          ∙ map-append decode ls (encoded es)
          ∙ ap (λ l. map decode ls ++ l) (map-encoded es))
