-- ===== src/Storage/Postgres/Listing.antt =====
-- The loops of GetAllCounters and GetAllGauges in internal/storage/postgres/postgres.go.
use rtmetrics.Base.{String, ◌≡◌, refl, Option, none, some, List, [], ◌∷◌, ◌∙◌, ap}
use rtmetrics.Base.GoMap.{GoMap, get, put, empty, fill, lookup, get-fill, get-empty, first_some}
use rtmetrics.Repository.{Error, Result, ok, err}
use rtmetrics.Repository.Contract.{View, SameView}
use rtmetrics.Repository.Fallible.{IfOk}
use rtmetrics.Storage.Postgres.{collect_rows, collected}
use rtmetrics.Storage.Postgres.Driver.{Row, Rows, and_then}
use rtmetrics.Storage.Postgres.Behaviour.{entries, AllRows, Listed}

module _ {A : Type 0} where
  no_scan_error :
      (P : GoMap A → Type 0) (o : Option Error) (r : Result (GoMap A))
      → IfOk P r
      → IfOk P (elim o [ none ↦ r | some e ↦ err e ])
  no_scan_error P none r h = h
  no_scan_error P (some e) r h = tt

  -- The loop returns the entries met, unless a row or the end of the rows has an error.
  collect_rows-fill :
      (rs : List (Row A)) (error : Option Error) (m : GoMap A)
      → IfOk (λ g. (g ≡ fill (entries rs) m) × (error ≡ none)) (collect_rows rs error m)
  unfolding collect_rows fill
  collect_rows-fill [] none m = (refl, refl)
  collect_rows-fill [] (some e) m = tt
  collect_rows-fill (r ∷ rs) error m =
      no_scan_error _ r.scan_error _ (collect_rows-fill rs error (put m r.id r.value))

  first_some-none : (o : Option A) → first_some o none ≡ o
  first_some-none none = refl
  first_some-none (some a) = refl

  all_rows :
      (table : String → Option A) (rs : List (Row A)) (error : Option Error)
      → AllRows table rs error
      → error ≡ none
      → (k : String) → get (fill (entries rs) empty) k ≡ table k
  all_rows table rs none (distinct, same) h k =
      get-fill (entries rs) empty k distinct
      ∙ ap (first_some (lookup k (entries rs))) (get-empty k)
      ∙ first_some-none (lookup k (entries rs))
      ∙ same k
  all_rows table rs (some e) all h k = absurd (cc h)

  collected-all :
      (table : String → Option A) (r : Result (GoMap A)) (rs : List (Row A)) (error : Option Error)
      → AllRows table rs error
      → IfOk (λ g. (g ≡ fill (entries rs) empty) × (error ≡ none)) r
      → IfOk (λ m. (k : String) → get m k ≡ table k) r
  collected-all table (ok g) rs error all (eq, ended) =
      λ k. rw eq (all_rows table rs error all ended k)
  collected-all table (err e) rs error all h = tt

  module _ {D : Type 0} (view : D → View) (table : String → Option A) where
    if_all :
        (other : String → Option A) (r : Result (GoMap A))
        → ((k : String) → table k ≡ other k)
        → IfOk (λ m. (k : String) → get m k ≡ table k) r
        → IfOk (λ m. (k : String) → get m k ≡ other k) r
    if_all other (ok m) same h = λ k. h k ∙ same k
    if_all other (err e) same h = tt

    -- What the function that is retried returns, and that it changes nothing.
    pub listed :
        (other : String → Option A) (p : Result (Rows A) × D)
        → ((k : String) → table k ≡ other k)
        → Listed table p.0
        → IfOk (λ m. (k : String) → get m k ≡ other k) (and_then p collected).0
    listed other (ok r, d) same h =
        if_all other _ same
          (collected-all table _ r.rows r.error h (collect_rows-fill r.rows r.error empty))
    listed other (err e, d) same h = tt

    pub listed-unchanged :
        (before : View) (p : Result (Rows A) × D)
        → SameView (view p.1) before
        → SameView (view (and_then p collected).1) before
    listed-unchanged before (ok r, d) h = h
    listed-unchanged before (err e, d) h = h
