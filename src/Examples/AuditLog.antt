-- ===== src/Examples/AuditLog.antt =====
-- The log of audit events (internal/audit/file.go) at a concrete codec.
use rtmetrics.Base.{
  ℕ, suc, zero, ◌≡◌, refl, sym, ◌∙◌, ap, String, Bool, true, false, Option, none, some, List, [],
  ◌∷◌, ◌++◌, map, length, eq_iff, arith, ◌==◌, inl, inr, ◌⊎◌, Bool-cases,
}
use rtmetrics.Audit.{Event}
use rtmetrics.Audit.Observers.{FileObserver, observe_file}
use rtmetrics.Audit.Observers.Log.{
  has_newline, lines_from, observe_files, encodable, IsJson, joined, lines-observe_files,
}

abbrev ones : ℕ → List ℕ
ones zero = []
ones (suc n) = 1 ∷ ones n

-- Events without metrics and address are encoded, by their time in unary.
abbrev marshal_metrics : List String → Bool → ℕ → Option (List ℕ)
marshal_metrics [] true ts = some (ones ts)
marshal_metrics ms b ts = none

abbrev marshal : Event → Option (List ℕ)
marshal e = marshal_metrics e.metrics (e.ip_address == "") e.ts

abbrev at_time : ℕ → Event
at_time n = record { ts = n; metrics = []; ip_address = "" }

abbrev decode : List ℕ → Option Event
decode line = some (at_time (length line))

ones-has_newline : (n : ℕ) → has_newline (ones n) ≡ false
ones-has_newline zero = refl
ones-has_newline (suc n) = ones-has_newline n

length-ones : (n : ℕ) → length (ones n) ≡ n
length-ones zero = refl
length-ones (suc n) = ap suc (length-ones n)

marshal-decode :
    (ts : ℕ) (ms : List String) (ip : String) (line : List ℕ)
    → ((ip == "") ≡ true) ⊎ ((ip == "") ≡ false)
    → marshal_metrics ms (ip == "") ts ≡ some line
    → (has_newline line ≡ false)
      × (decode line ≡ some (record { ts = ts; metrics = ms; ip_address = ip }))
marshal-decode ts [] ip line (inl e) h =
    let given : marshal_metrics [] true ts ≡ some line =
      sym (ap (λ b. marshal_metrics [] b ts) e) ∙ h in
    let the_line : ones ts ≡ line = cc (given) in
    let no_ip : "" ≡ ip = ground (arith, eq_iff ip "") in
    rw (← the_line)
      (rw (← no_ip) (ones-has_newline ts, ap (λ n. some (at_time n)) (length-ones ts)))
marshal-decode ts [] ip line (inr e) h =
    let given : marshal_metrics [] false ts ≡ some line =
      sym (ap (λ b. marshal_metrics [] b ts) e) ∙ h in
    cc (given)
marshal-decode ts (m ∷ ms) ip line (inl e) h =
    let given : marshal_metrics (m ∷ ms) true ts ≡ some line =
      sym (ap (λ b. marshal_metrics (m ∷ ms) b ts) e) ∙ h in
    cc (given)
marshal-decode ts (m ∷ ms) ip line (inr e) h =
    let given : marshal_metrics (m ∷ ms) false ts ≡ some line =
      sym (ap (λ b. marshal_metrics (m ∷ ms) b ts) e) ∙ h in
    cc (given)

marshal-IsJson : IsJson marshal decode
marshal-IsJson e line h =
    marshal-decode e.ts e.metrics e.ip_address line (Bool-cases (e.ip_address == "")) h

abbrev some_events : List Event
some_events = at_time 3 ∷ record { ts = 5; metrics = "cpu" ∷ []; ip_address = "" } ∷ at_time 2 ∷ []

abbrev some_log : FileObserver
some_log = record { content = joined (ones 4 ∷ []); is_open = true }

lines-observe_files_example :
    map decode (lines_from [] (observe_files marshal decode some_events some_log).content)
    ≡ map decode (ones 4 ∷ []) ++ map some (encodable marshal decode some_events)
lines-observe_files_example =
    lines-observe_files marshal decode marshal-IsJson some_events some_log (ones 4 ∷ []) refl
      (refl, tt) refl

some_log_bytes :
    (observe_files marshal decode some_events some_log).content
    ≡ 1 ∷ 1 ∷ 1 ∷ 1 ∷ 10 ∷ 1 ∷ 1 ∷ 1 ∷ 10 ∷ 1 ∷ 1 ∷ 10 ∷ []
unfolding observe_files observe_file
some_log_bytes = refl
