-- ===== src/Retry.antt =====
-- internal/retry/retry.go: calling a function again after 1, 3 and 5 seconds while its error is
-- retriable. The function acts on a state; nil is `none`.
pub mod Attempts
use rtmetrics.Base.{ℕ, suc, Bool, true, false, Option, none, some, List, [], ◌∷◌, if◌then◌else◌}
use rtmetrics.Repository.{Error}

-- defaultDelays, in seconds
abbrev pub default_delays : List ℕ
default_delays = 1 ∷ 3 ∷ 5 ∷ []

module _ {S : Type 0} (is_retriable : Error → Bool) (fn : S → Option Error × S) where
  -- The loop over the delays after an attempt. `cancelled d` says whether the context ends during
  -- the wait of `d` seconds; then the last error is returned.
  unfoldable pub retry_loop : (ℕ → Bool) → List ℕ → Option Error × S → Option Error × S
  retry_loop cancelled delays (none, s) = (none, s)
  retry_loop cancelled [] (some e, s) = (some e, s)
  retry_loop cancelled (d ∷ delays) (some e, s) = elim (is_retriable e) [
    | false ↦ (some e, s)
    | true ↦ elim (cancelled d) [ true ↦ (some e, s) | false ↦ retry_loop cancelled delays (fn s) ]
  ]

  -- Do; `ctx_err` is ctx.Err() at the start.
  unfoldable pub do_retry : Option Error → (ℕ → Bool) → S → Option Error × S
  unfolding retry_loop
  do_retry (some e) cancelled s = (some e, s)
  do_retry none cancelled s = retry_loop cancelled default_delays (fn s)
