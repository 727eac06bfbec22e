-- ===== src/Handler/Refusals.antt =====
-- When the API refuses a write (internal/handler/post, update, updates), and that a refused request
-- changes nothing.
use rtmetrics.Base.{
  ℕ, String, ◌≡◌, ◌≢◌, ◌⊎◌, ◌↔◌, inl, inr, refl, true, Option, none, some, arith, codes, ◌==◌,
  eq_iff, Bool-cases,
}
use rtmetrics.Base.Int64.{parse_int}
use rtmetrics.Model.{Float64, counter, gauge, counter-ne-gauge}
use rtmetrics.Repository.{Result, ok, err}
use rtmetrics.Service.{MetricsService}
use rtmetrics.Http.{Request, respond}
use rtmetrics.Api.{World, Formats, is_unknown}
use rtmetrics.Handler.Post
use rtmetrics.Handler.Post.{post}

-- The request names no metric type, or its value does not parse as the type asks.
abbrev pub IsMalformed : Formats → Request → Type 0
IsMalformed f r =
    ((r.param "mtype" ≢ counter) × (r.param "mtype" ≢ gauge))
    ⊎ (((r.param "mtype" ≡ counter) × (parse_int (codes (r.param "value")) ≡ none))
        ⊎ ((r.param "mtype" ≡ gauge) × (f.parse_float (codes (r.param "value")) ≡ none)))

module _ {S : Type 0} (svc : MetricsService S) (f : Formats) where
  counter_saved-status :
      (r : Request) (name : String) (w : World S) (p : Result ℕ × S)
      → (respond (Post.counter_saved svc f r name w p).0).status ≢ 400
  unfolding Post.counter_saved respond
  counter_saved-status r name w (ok v, s) h = omega arith
  counter_saved-status r name w (err e, s) h = omega arith

  gauge_saved-status :
      (r : Request) (name : String) (w : World S) (p : Result Float64 × S)
      → (respond (Post.gauge_saved svc f r name w p).0).status ≢ 400
  unfolding Post.gauge_saved respond
  gauge_saved-status r name w (ok v, s) h = omega arith
  gauge_saved-status r name w (err e, s) h = omega arith

  post_counter_refused :
      (r : Request) (name : String) (o : Option ℕ) (w : World S)
      → (((respond (Post.post_counter svc f r name o w).0).status ≡ 400)
          × ((Post.post_counter svc f r name o w).1 ≡ w))
        ↔ (o ≡ none)
  unfolding Post.post_counter respond
  post_counter_refused r name none w = (λ _. refl, λ _. (refl, refl))
  post_counter_refused r name (some d) w =
      (λ h. absurd (counter_saved-status r name w _ h.0), λ e. cc)

  post_gauge_refused :
      (r : Request) (name : String) (o : Option Float64) (w : World S)
      → (((respond (Post.post_gauge svc f r name o w).0).status ≡ 400)
          × ((Post.post_gauge svc f r name o w).1 ≡ w))
        ↔ (o ≡ none)
  unfolding Post.post_gauge respond
  post_gauge_refused r name none w = (λ _. refl, λ _. (refl, refl))
  post_gauge_refused r name (some x) w = (λ h. absurd (gauge_saved-status r name w _ h.0), λ e. cc)

  at_counter :
      (r : Request) (w : World S)
      → r.param "mtype" ≡ counter
      → post svc f r w
        ≡ Post.post_counter svc f r (r.param "name") (parse_int (codes (r.param "value"))) w
  unfolding post
  at_counter r w c = rw (c, post)

  at_gauge :
      (r : Request) (w : World S)
      → r.param "mtype" ≡ gauge
      → post svc f r w
        ≡ Post.post_gauge svc f r (r.param "name") (f.parse_float (codes (r.param "value"))) w
  unfolding post
  at_gauge r w g = rw (g, post)

  at_unknown :
      (r : Request) (w : World S)
      → r.param "mtype" ≢ counter
      → r.param "mtype" ≢ gauge
      → ((respond (post svc f r w).0).status ≡ 400) × ((post svc f r w).1 ≡ w)
  unfolding post respond
  at_unknown r w nc ng =
      let unknown : is_unknown (r.param "mtype") ≡ true =
        ground (arith, eq_iff (r.param "mtype") counter, eq_iff (r.param "mtype") gauge) in
      rw (unknown, post) (refl, refl)

  -- POST /update/{mtype}/{name}/{value} answers 400 and changes nothing, neither the store nor the
  -- audit queue, exactly when the request is malformed: the type is neither counter nor gauge, or the
  -- value is no int64 for a counter or no float64 for a gauge.
  pub post_refused_iff :
      (r : Request) (w : World S)
      → (((respond (post svc f r w).0).status ≡ 400) × ((post svc f r w).1 ≡ w)) ↔ IsMalformed f r
  post_refused_iff r w = elim (Bool-cases (r.param "mtype" == counter)) [
    | inl c ↦
        let kind : r.param "mtype" ≡ counter = (eq_iff _ _).0 c in
        let refused =
          post_counter_refused r (r.param "name") (parse_int (codes (r.param "value"))) w in
        rw (at_counter r w kind)
          (λ h. inr (inl (kind, refused.0 h)), λ m. refused.1 (ground (arith, counter-ne-gauge)))
    | inr nc ↦ elim (Bool-cases (r.param "mtype" == gauge)) [
      | inl g ↦
          let kind : r.param "mtype" ≡ gauge = (eq_iff _ _).0 g in
          let refused =
            post_gauge_refused r (r.param "name") (f.parse_float (codes (r.param "value"))) w in
          rw (at_gauge r w kind)
            (λ h. inr (inr (kind, refused.0 h)), λ m. refused.1 (ground (arith, counter-ne-gauge)))
      | inr ng ↦
          let not_counter : r.param "mtype" ≢ counter =
            ground (arith, eq_iff (r.param "mtype") counter) in
          let not_gauge : r.param "mtype" ≢ gauge =
            ground (arith, eq_iff (r.param "mtype") gauge) in
          (λ h. inl (not_counter, not_gauge), λ m. at_unknown r w not_counter not_gauge)
    ]
  ]
