-- ===== src/Handler/Batches.antt =====
-- POST /updates (internal/handler/updates/updates.go): a batch is stored whole or not at all.
use rtmetrics.Base.{
  String, ◌≡◌, ◌≢◌, ◌⊎◌, ◌↔◌, inl, inr, refl, true, Option, none, some, List, [], ◌∷◌, arith, All,
  eq_iff, Option-cases,
}
use rtmetrics.Model.{Metrics, counter, gauge, counter-ne-gauge}
use rtmetrics.Repository.{Result, ok, err, MetricsRepository}
use rtmetrics.Repository.Contract.{View, SameView, Implements, apply_batch}
use rtmetrics.Service
use rtmetrics.Http.{Request, Act, respond, contains}
use rtmetrics.Api.{World, Formats}
use rtmetrics.Handler.Updates
use rtmetrics.Handler.Updates.{invalid, first_invalid, updates}

-- A metric of a known type with the value that its type asks for.
abbrev pub IsComplete : Metrics → Type 0
IsComplete m = ((m.mtype ≡ counter) × (m.delta ≢ none)) ⊎ ((m.mtype ≡ gauge) × (m.value ≢ none))

invalid-IsComplete : (m : Metrics) → (invalid m ≡ none) ↔ IsComplete m
unfolding invalid
invalid-IsComplete m = (
  ground (arith, eq_iff m.mtype counter, eq_iff m.mtype gauge),
  ground (arith, eq_iff m.mtype counter, eq_iff m.mtype gauge, counter-ne-gauge),
)

-- The validation loop passes exactly the batches in which every metric is complete.
first_invalid_iff : (ms : List Metrics) → (first_invalid ms ≡ none) ↔ All IsComplete ms
unfolding first_invalid
first_invalid_iff [] = (λ _. tt, λ _. refl)
first_invalid_iff (m ∷ ms) = elim (Option-cases (invalid m)) [
  | inl fine ↦
      rw (fine, first_invalid)
        (
          λ h. ((invalid-IsComplete m).0 fine, (first_invalid_iff ms).0 h),
          λ h. (first_invalid_iff ms).1 h.1,
        )
  | inr (msg, bad) ↦ rw (bad, first_invalid) (λ h. cc, λ h. cc (bad, (invalid-IsComplete m).1 h.0))
]

-- Either the batch is complete, and the answer is 200 and the store has it; or it is not, and the
-- answer is 400 and nothing has changed.
abbrev pub AllOrNothing :
    {S : Type 0} → (S → View) → List Metrics → World S → List Act × World S → Type 0
AllOrNothing view batch w p =
    (All IsComplete batch
      × ((respond p.0).status ≡ 200)
      × SameView (view p.1.store) (apply_batch batch (view w.store)))
    ⊎ ((¬ All IsComplete batch) × ((respond p.0).status ≡ 400) × (p.1 ≡ w))

module _ {S : Type 0} {repo : MetricsRepository S} {view : S → View} (imp : Implements repo view)
    (f : Formats) where
  saved :
      (r : Request) (batch : List Metrics) (w : World S) (p : Result (Unit {0}) × S)
      → p.0 ≡ ok tt
      → ((respond (Updates.batch_saved (Service.new repo) f r batch w p).0).status ≡ 200)
        × ((Updates.batch_saved (Service.new repo) f r batch w p).1.store ≡ p.1)
  unfolding Updates.batch_saved respond
  saved r batch w (ok _, s) e = (refl, refl)
  saved r batch w (err x, s) e = cc

  valid_or_not :
      (r : Request) (w : World S) (batch : List Metrics) (o : Option String)
      → (o ≡ none) ↔ All IsComplete batch
      → AllOrNothing view batch w (Updates.update_valid (Service.new repo) f r batch o w)
  unfolding Updates.update_valid respond
  valid_or_not r w batch none iff =
      let (done, effect) = imp.batch_saved batch w.store in
      let (status, kept) = saved r batch w _ done in inl (iff.0 refl, status, rw kept effect)
  valid_or_not r w batch (some msg) iff = inr (λ complete. cc (iff.1 complete), refl, refl)

  updates-update_valid :
      (r : Request) (w : World S) (m : Metrics) (ms : List Metrics)
      → contains (r.header "Content-Type") "application/json" ≡ true
      → f.decode_batch r.body ≡ some (m ∷ ms)
      → updates (Service.new repo) f r w
        ≡ Updates.update_valid (Service.new repo) f r (m ∷ ms) (first_invalid (m ∷ ms)) w
  unfolding updates
  updates-update_valid r w m ms json decoded =
      rw (json, updates) (rw (decoded, Updates.update_batch))

  -- A JSON batch is stored whole or not at all: if every metric in it has a known type and the
  -- value for it, the answer is 200 and the store has the effect of all of them, one after another;
  -- otherwise the answer is 400 and neither the store nor the audit queue has changed. (The content
  -- type is JSON, the body decodes and the batch is not empty.)
  pub updates-AllOrNothing :
      (r : Request) (w : World S) (m : Metrics) (ms : List Metrics)
      → contains (r.header "Content-Type") "application/json" ≡ true
      → f.decode_batch r.body ≡ some (m ∷ ms)
      → AllOrNothing view (m ∷ ms) w (updates (Service.new repo) f r w)
  updates-AllOrNothing r w m ms json decoded =
      rw (updates-update_valid r w m ms json decoded)
        (valid_or_not r w (m ∷ ms) (first_invalid (m ∷ ms)) (first_invalid_iff (m ∷ ms)))
