-- ===== src/Storage/Postgres/Scanned.antt =====
-- A call of internal/storage/postgres/postgres.go that is retried and scans a value into a variable.
use rtmetrics.Base.{ℕ, String, Bool, false, ◌≡◌, inl, inr, Option, none, some, List, []}
use rtmetrics.Model.{Metrics}
use rtmetrics.Repository.{Error, Result, ok, err}
use rtmetrics.Repository.Contract.{View, SameView, apply_batch}
use rtmetrics.Repository.Fallible.{Written, IfOk}
use rtmetrics.Retry.{do_retry}
use rtmetrics.Storage.Postgres.{assigned, scanning, returned, found_or}
use rtmetrics.Storage.Postgres.Retried.{Settled, do_retry-Settled, do_retry-last}

-- A retried call that returns a value in a variable.
module _ {A D : Type 0} (view : D → View) (call : D → Result A × D) (Post : A → View → Type 0)
    (each : (d : D) → IfOk (λ a. Post a (view (call d).1)) (call d).0) (retriable : Error → Bool)
    (ctx_err : Option Error) (cancelled : ℕ → Bool) where
  abbrev Posted : Option Error × (A × D) → Type 0
  Posted (none, (a, d)) = Post a (view d)
  Posted (some e, (a, d)) = Unit

  assigned-Posted :
      (old : A) (p : Result A × D) → IfOk (λ a. Post a (view p.1)) p.0 → Posted (assigned old p)
  assigned-Posted old (ok a, d) h = h
  assigned-Posted old (err e, d) h = tt

  -- The variable holds what the last call returned.
  scanned-Posted : (s : A × D) → Posted (do_retry retriable (scanning call) ctx_err cancelled s)
  scanned-Posted s = elim (do_retry-last retriable (scanning call) ctx_err cancelled s) [
    | inl (e, eq) ↦ rw eq tt
    | inr (t, eq) ↦ rw (← eq) (assigned-Posted t.0 (call t.1) (each t.1))
  ]

  returned-Posted :
      (msg : String) (q : Option Error × (A × D))
      → Posted q
      → IfOk (λ a. Post a (view (returned msg q).1)) (returned msg q).0
  returned-Posted msg (none, (a, d)) h = h
  returned-Posted msg (some e, (a, d)) h = tt

  found_or-Posted :
      (missing msg : String) (q : Option Error × (A × D))
      → Posted q
      → IfOk (λ a. Post a (view (found_or missing msg q).1)) (found_or missing msg q).0
  found_or-Posted missing msg (none, (a, d)) h = h
  found_or-Posted missing msg (some e, (a, d)) h = tt

  -- A write: it returns `x`, where the effect of `ms` fixes the value.
  module _ (ms : List Metrics) (x : D → A)
      (writes : (d : D)
        → Written false (x d) (view d) (view (call d).1) (apply_batch ms (view d)) (call d).0)
      (fixed : (d : D) (a : A) (v : View)
        → Post a v
        → SameView v (apply_batch ms (view d))
        → a ≡ x d) where
    assigned-Settled :
        (old x : A) (before : View) (p : Result A × D)
        → Written false x before (view p.1) (apply_batch ms before) p.0
        → Settled ms before (view (assigned old p).1.1) (assigned old p).0
    assigned-Settled old x before (ok a, d) h = h.1
    assigned-Settled old x before (err e, d) h = h

    returned-Written :
        (msg : String) (d : D) (q : Option Error × (A × D))
        → Settled ms (view d) (view q.1.1) q.0
        → Posted q
        → Written false
            (x d)
            (view d)
            (view (returned msg q).1)
            (apply_batch ms (view d))
            (returned msg q).0
    returned-Written msg d (none, (a, t)) h post = (fixed d a (view t) post h, h)
    returned-Written msg d (some e, (a, t)) h post = h

    pub saved-Written :
        (msg : String) (zero : A) (d : D)
        → let p = returned msg (do_retry retriable (scanning call) ctx_err cancelled (zero, d)) in
          Written false (x d) (view d) (view p.1) (apply_batch ms (view d)) p.0
    saved-Written msg zero d =
        returned-Written msg d _
          (do_retry-Settled retriable (scanning call) (λ s. view s.1) ms
            (λ s. assigned-Settled s.0 (x s.1) (view s.1) (call s.1) (writes s.1)) ctx_err cancelled
            (zero, d))
          (scanned-Posted (zero, d))

  -- A read.
  module _ (reads : (d : D) → SameView (view (call d).1) (view d)) where
    assigned-unchanged :
        (old : A) (before : View) (p : Result A × D)
        → SameView (view p.1) before
        → Settled [] before (view (assigned old p).1.1) (assigned old p).0
    assigned-unchanged old before (ok a, d) h = h
    assigned-unchanged old before (err e, d) h = h

    unchanged :
        (before after : View) (r : Option Error) → Settled [] before after r → SameView after before
    unchanged before after none h = h
    unchanged before after (some e) h = h

    scanned-unchanged :
        (s : A × D)
        → SameView (view (do_retry retriable (scanning call) ctx_err cancelled s).1.1) (view s.1)
    scanned-unchanged s = unchanged _ _ _ (
        do_retry-Settled retriable (scanning call) (λ s. view s.1) []
          (λ s. assigned-unchanged s.0 (view s.1) (call s.1) (reads s.1)) ctx_err cancelled s)

    returned-unchanged :
        (msg : String) (before : View) (q : Option Error × (A × D))
        → SameView (view q.1.1) before
        → SameView (view (returned msg q).1) before
    returned-unchanged msg before (none, (a, d)) h = h
    returned-unchanged msg before (some e, (a, d)) h = h

    found_or-unchanged :
        (missing msg : String) (before : View) (q : Option Error × (A × D))
        → SameView (view q.1.1) before
        → SameView (view (found_or missing msg q).1) before
    found_or-unchanged missing msg before (none, (a, d)) h = h
    found_or-unchanged missing msg before (some e, (a, d)) h = h

    -- What is read is so of the state before, which stays.
    module _ (moves : (a : A) (v w : View) → SameView v w → Post a v → Post a w) where
      moved :
          (v w : View) (r : Result A)
          → SameView v w
          → IfOk (λ a. Post a v) r
          → IfOk (λ a. Post a w) r
      moved v w (ok a) same h = moves a v w same h
      moved v w (err e) same h = tt

      pub returned-read :
          (msg : String) (s : A × D)
          → let p = returned msg (do_retry retriable (scanning call) ctx_err cancelled s) in
            IfOk (λ a. Post a (view s.1)) p.0 × SameView (view p.1) (view s.1)
      returned-read msg s =
          let same = returned-unchanged msg (view s.1) _ (scanned-unchanged s) in
          (moved _ _ _ same (returned-Posted msg _ (scanned-Posted s)), same)

      pub found_or-read :
          (missing msg : String) (s : A × D)
          → let p = found_or missing msg (do_retry retriable (scanning call) ctx_err cancelled s) in
            IfOk (λ a. Post a (view s.1)) p.0 × SameView (view p.1) (view s.1)
      found_or-read missing msg s =
          let same = found_or-unchanged missing msg (view s.1) _ (scanned-unchanged s) in
          (moved _ _ _ same (found_or-Posted missing msg _ (scanned-Posted s)), same)
