-- ===== src/Storage/Postgres/Retried.antt =====
-- What retry.Do makes of a function that may take effect although it fails
-- (internal/retry/retry.go, as internal/storage/postgres/postgres.go uses it).
use rtmetrics.Base.{
  ℕ, zero, suc, ◌≤◌, ◌≡◌, ◌⊎◌, inl, inr, refl, Bool, Option, none, some, List, arith,
}
use rtmetrics.Model.{Metrics}
use rtmetrics.Repository.{Error}
use rtmetrics.Repository.Contract.{
  View, SameView, SameView-refl, SameView-trans, apply_batch, SameView-apply_batch,
}
use rtmetrics.Retry.{do_retry}
use rtmetrics.Retry.Attempts.{Tries, once, again, do_retry-Done}

-- The metrics applied `k` times.
abbrev pub repeated : ℕ → List Metrics → View → View
repeated zero ms v = v
repeated (suc k) ms v = repeated k ms (apply_batch ms v)

SameView-repeated :
    (k : ℕ) (ms : List Metrics) {a b : View}
    → SameView a b
    → SameView (repeated k ms a) (repeated k ms b)
SameView-repeated zero ms h = h
SameView-repeated (suc k) ms h = SameView-repeated k ms (SameView-apply_batch ms h)

-- One call: a success has applied the metrics, a failure has or has not.
abbrev pub Attempted : List Metrics → View → View → Option Error → Type 0
Attempted ms before after none = SameView after (apply_batch ms before)
Attempted ms before after (some e) = SameView after before ⊎ SameView after (apply_batch ms before)

-- One call: a success has applied the metrics, a failure has not.
abbrev pub Settled : List Metrics → View → View → Option Error → Type 0
Settled ms before after none = SameView after (apply_batch ms before)
Settled ms before after (some e) = SameView after before

abbrev pub Counted : ℕ → Option Error → Type 0
Counted k none = 1 ≤ k
Counted k (some e) = Unit

-- The metrics have been applied at most `most` times, and at least once on success.
abbrev pub Repeated : ℕ → List Metrics → View → View → Option Error → Type 0
Repeated most ms before after r =
    (k : ℕ) × (k ≤ most) × SameView after (repeated k ms before) × Counted k r

module _ {S : Type 0} (is_retriable : Error → Bool) (fn : S → Option Error × S) (view : S → View)
    (ms : List Metrics) where
  one_attempt :
      (before : View) (t : S) (r : Option Error)
      → Attempted ms before (view t) r
      → Repeated 1 ms before (view t) r
  one_attempt before t none h = (1, omega arith, h, omega arith)
  one_attempt before t (some e) (inl h) = (0, omega arith, h, tt)
  one_attempt before t (some e) (inr h) = (1, omega arith, h, tt)

  more_attempts :
      (n : ℕ) (before : View) (s : S) (after : View) (e : Error) (r : Option Error)
      → Attempted ms before (view s) (some e)
      → Repeated n ms (view s) after r
      → Repeated (suc n) ms before after r
  more_attempts n before s after e r (inl h) (k, most, same, counted) =
      (k, omega arith, SameView-trans same (SameView-repeated k ms h), counted)
  more_attempts n before s after e none (inr h) (k, most, same, counted) =
      (suc k, omega arith, SameView-trans same (SameView-repeated k ms h), omega arith)
  more_attempts n before s after e (some e') (inr h) (k, most, same, counted) =
      (suc k, omega arith, SameView-trans same (SameView-repeated k ms h), tt)

  module _ (each : (t : S) → Attempted ms (view t) (view (fn t).1) (fn t).0) where
    attempt_of : (s : S) (p : Option Error × S) → fn s ≡ p → Attempted ms (view s) (view p.1) p.0
    attempt_of s p eq = rw (← eq) (each s)

    Tries-Repeated :
        {s : S} {n : ℕ} {p : Option Error × S}
        → Tries is_retriable fn s n p
        → Repeated n ms (view s) (view p.1) p.0
    Tries-Repeated {s} {p = p} (once eq) = one_attempt (view s) p.1 p.0 (attempt_of s p eq)
    Tries-Repeated {s} {p = p} (again {t = t} {n = n} e eq retriable rest) =
        more_attempts n (view s) t (view p.1) e p.0 (attempt_of s (some e, t) eq)
          (Tries-Repeated rest)

    -- A retried function leaves its effect at most four times, and at least once if it succeeds.
    pub do_retry-Repeated :
        (ctx_err : Option Error) (cancelled : ℕ → Bool) (s : S)
        → let p = do_retry is_retriable fn ctx_err cancelled s in
          Repeated 4 ms (view s) (view p.1) p.0
    unfolding do_retry
    do_retry-Repeated (some e) cancelled s = (0, omega arith, SameView-refl (view s), tt)
    do_retry-Repeated none cancelled s =
        let (n, most, tries, stopped) = do_retry-Done is_retriable fn cancelled s in
        let (k, fewer, same, counted) = Tries-Repeated tries in (k, omega arith, same, counted)

  -- A retried function whose failures have no effect leaves its effect once if it succeeds, and
  -- none if it fails.
  module _ (each : (t : S) → Settled ms (view t) (view (fn t).1) (fn t).0) where
    one_call : (s : S) (p : Option Error × S) → fn s ≡ p → Settled ms (view s) (view p.1) p.0
    one_call s p eq = rw (← eq) (each s)

    two_calls :
        (s t : S) (after : View) (r : Option Error)
        → SameView (view t) (view s)
        → Settled ms (view t) after r
        → Settled ms (view s) after r
    two_calls s t after none h g = SameView-trans g (SameView-apply_batch ms h)
    two_calls s t after (some e) h g = SameView-trans g h

    Tries-Settled :
        {s : S} {n : ℕ} {p : Option Error × S}
        → Tries is_retriable fn s n p
        → Settled ms (view s) (view p.1) p.0
    Tries-Settled {s} {p = p} (once eq) = one_call s p eq
    Tries-Settled {s} {p = p} (again {t = t} e eq retriable rest) =
        two_calls s t (view p.1) p.0 (one_call s (some e, t) eq) (Tries-Settled rest)

    pub do_retry-Settled :
        (ctx_err : Option Error) (cancelled : ℕ → Bool) (s : S)
        → let p = do_retry is_retriable fn ctx_err cancelled s in Settled ms (view s) (view p.1) p.0
    unfolding do_retry
    do_retry-Settled (some e) cancelled s = SameView-refl (view s)
    do_retry-Settled none cancelled s =
        let (n, most, tries, stopped) = do_retry-Done is_retriable fn cancelled s in
        Tries-Settled tries

-- What the last call guarantees, the retried function does.
module _ {S : Type 0} (is_retriable : Error → Bool) (fn : S → Option Error × S) where
  Tries-last :
      {s : S} {n : ℕ} {p : Option Error × S} → Tries is_retriable fn s n p → (t : S) × (fn t ≡ p)
  Tries-last {s} (once eq) = (s, eq)
  Tries-last (again e eq retriable rest) = Tries-last rest

  pub do_retry-last :
      (ctx_err : Option Error) (cancelled : ℕ → Bool) (s : S)
      → let p = do_retry is_retriable fn ctx_err cancelled s in
        ((e : Error) × (p ≡ (some e, s))) ⊎ ((t : S) × (fn t ≡ p))
  unfolding do_retry
  do_retry-last (some e) cancelled s = inl (e, refl)
  do_retry-last none cancelled s =
      let (n, most, tries, stopped) = do_retry-Done is_retriable fn cancelled s in
      inr (Tries-last tries)
