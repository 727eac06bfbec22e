-- ===== src/Retry/Attempts.antt =====
-- How often retry.Do (internal/retry/retry.go) calls its function, and what it returns.
use rtmetrics.Base.{
  ℕ, suc, ◌+◌, ◌≤◌, ◌≡◌, ◌⊎◌, inl, inr, refl, Bool, true, false, Option, none, some, List, [], ◌∷◌,
  arith, length, Bool-cases,
}
use rtmetrics.Repository.{Error}
use rtmetrics.Retry.{default_delays, retry_loop, do_retry}

module _ {S : Type 0} (is_retriable : Error → Bool) (fn : S → Option Error × S) where
  -- `n` calls in a row, all but the last of which failed with a retriable error; `p` is what the
  -- last one made of the state.
  pub data Tries : S → ℕ → Option Error × S → Type 0 where
    once : {s : S} {p : Option Error × S} → fn s ≡ p → Tries s 1 p
    again :
        {s t : S} {n : ℕ} {p : Option Error × S} (e : Error)
        → fn s ≡ (some e, t)
        → is_retriable e ≡ true
        → Tries t n p
        → Tries s (suc n) p

  -- Why no further call was made: success, an error that is not retriable, the end of the context
  -- during a wait, or the last of `most` calls.
  abbrev pub Stopped : (ℕ → Bool) → ℕ → ℕ → Option Error → Type 0
  Stopped cancelled n most r =
      (r ≡ none)
      ⊎ (((e : Error) × (r ≡ some e) × (is_retriable e ≡ false))
          ⊎ (((d : ℕ) × (cancelled d ≡ true)) ⊎ (n ≡ most)))

  abbrev pub Done : (ℕ → Bool) → List ℕ → S → Option Error × S → Type 0
  Done cancelled delays s p =
      (n : ℕ) × (n ≤ length delays + 1) × Tries s n p × Stopped cancelled n (length delays + 1) p.0

  one_more :
      (cancelled : ℕ → Bool) (delays : List ℕ) (d n : ℕ) (r : Option Error)
      → Stopped cancelled n (length delays + 1) r
      → Stopped cancelled (suc n) (length (d ∷ delays) + 1) r
  one_more cancelled delays d n r (inl done) = inl done
  one_more cancelled delays d n r (inr (inl fatal)) = inr (inl fatal)
  one_more cancelled delays d n r (inr (inr (inl over))) = inr (inr (inl over))
  one_more cancelled delays d n r (inr (inr (inr all))) = inr (inr (inr (omega arith)))

  loop-Done :
      (cancelled : ℕ → Bool) (delays : List ℕ) (s : S) (p : Option Error × S)
      → fn s ≡ p
      → Done cancelled delays s (retry_loop is_retriable fn cancelled delays p)
  unfolding retry_loop
  loop-Done cancelled delays s (none, t) eq = (1, omega arith, once eq, inl refl)
  loop-Done cancelled [] s (some e, t) eq = (1, omega arith, once eq, inr (inr (inr refl)))
  loop-Done cancelled (d ∷ delays) s (some e, t) eq = elim (Bool-cases (is_retriable e)) [
    | inr fatal ↦ rw (fatal, retry_loop) (1, omega arith, once eq, inr (inl (e, refl, fatal)))
    | inl retriable ↦ elim (Bool-cases (cancelled d)) [
      | inl over ↦
          rw (retriable, retry_loop)
            (rw (over, retry_loop) (1, omega arith, once eq, inr (inr (inl (d, over)))))
      | inr on ↦
          let (n, most, tries, stopped) = loop-Done cancelled delays t (fn t) refl in
          rw (retriable, retry_loop)
            (rw (on, retry_loop)
              (
                suc n,
                omega arith,
                again e eq retriable tries,
                one_more cancelled delays d n _ stopped,
              ))
    ]
  ]

  -- If the context is not over at the start, Do calls its function at least once and at most four
  -- times and returns what the last call returned; every call before it failed with a retriable
  -- error. It stops at a success, at an error that is not retriable, because the context ends during
  -- a wait, or after the fourth call.
  pub do_retry-Done :
      (cancelled : ℕ → Bool) (s : S)
      → Done cancelled default_delays s (do_retry is_retriable fn none cancelled s)
  unfolding do_retry
  do_retry-Done cancelled s = loop-Done cancelled default_delays s (fn s) refl
