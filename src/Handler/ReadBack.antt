-- ===== src/Handler/ReadBack.antt =====
-- What POST /update/{mtype}/{name}/{value} (internal/handler/post) answers, and what
-- GET /value/{mtype}/{name} (internal/handler/get) answers after it, over any repository that
-- implements its contract.
use rtmetrics.Base.{ℕ, String, ◌≡◌, refl, ◌∙◌, Option, none, some, Bytes, codes, or_else, eq_refl}
use rtmetrics.Base.Int64.{add64, parse_int}
use rtmetrics.Base.Decimal.{format_int}
use rtmetrics.Model.{Float64, counter, gauge}
use rtmetrics.Repository.{Result, ok, err, MetricsRepository}
use rtmetrics.Repository.Contract.{View, Implements, Found, FoundGauge}
use rtmetrics.Service
use rtmetrics.Http.{Request, Response, respond}
use rtmetrics.Api.{World, Formats}
use rtmetrics.Handler.Post
use rtmetrics.Handler.Post.{post}
use rtmetrics.Handler.Get
use rtmetrics.Handler.Get.{get, text_reply}

-- Status 200 and the body, in plain text.
pub record Answers (r : Response) (body : Bytes) : Type 0 where
  pub status : r.status ≡ 200
  pub sent : r.body ≡ body

-- The calls end in one text answer.
Answers-text_reply : (body : Bytes) → Answers (respond (text_reply body)) body
unfolding respond
Answers-text_reply body = record { status = refl; sent = refl }

module _ {S : Type 0} (repo : MetricsRepository S) (f : Formats) where
  post-counter_saved :
      (r : Request) (w : World S) (delta : ℕ)
      → r.param "mtype" ≡ counter
      → parse_int (codes (r.param "value")) ≡ some delta
      → post (Service.new repo) f r w
        ≡ Post.counter_saved
            (Service.new repo)
            f
            r
            (r.param "name")
            w
            (repo.save_counter (r.param "name") delta w.store)
  unfolding post
  post-counter_saved r w delta kind parsed = rw (kind, post) (rw parsed refl)

  post-gauge_saved :
      (r : Request) (w : World S) (value : Float64)
      → r.param "mtype" ≡ gauge
      → f.parse_float (codes (r.param "value")) ≡ some value
      → post (Service.new repo) f r w
        ≡ Post.gauge_saved
            (Service.new repo)
            f
            r
            (r.param "name")
            w
            (repo.save_gauge (r.param "name") value w.store)
  unfolding post
  post-gauge_saved r w value kind parsed = rw (kind, post) (rw parsed refl)

  counter_saved-ok :
      (r : Request) (name : String) (w : World S) (p : Result ℕ × S) (v : ℕ)
      → p.0 ≡ ok v
      → Answers (respond (Post.counter_saved (Service.new repo) f r name w p).0) (format_int v)
        × ((Post.counter_saved (Service.new repo) f r name w p).1.store ≡ p.1)
  unfolding Post.counter_saved
  counter_saved-ok r name w (ok x, s) v e =
      let same : x ≡ v = cc in (rw same (Answers-text_reply (format_int v)), refl)
  counter_saved-ok r name w (err x, s) v e = cc

  gauge_saved-ok :
      (r : Request) (name : String) (w : World S) (p : Result Float64 × S) (v : Float64)
      → p.0 ≡ ok v
      → Answers (respond (Post.gauge_saved (Service.new repo) f r name w p).0) (f.format_float v)
        × ((Post.gauge_saved (Service.new repo) f r name w p).1.store ≡ p.1)
  unfolding Post.gauge_saved
  gauge_saved-ok r name w (ok x, s) v e =
      let same : x ≡ v = cc in (rw same (Answers-text_reply (f.format_float v)), refl)
  gauge_saved-ok r name w (err x, s) v e = cc

  counter_read-ok :
      (w : World S) (p : Result ℕ × S) (v : ℕ)
      → p.0 ≡ ok v
      → Answers (respond (Get.counter_read (Service.new repo) f w p).0) (format_int v)
  unfolding Get.counter_read
  counter_read-ok w (ok x, s) v e =
      let same : x ≡ v = cc in rw same (Answers-text_reply (format_int v))
  counter_read-ok w (err x, s) v e = cc

  gauge_read-ok :
      (w : World S) (p : Result Float64 × S) (v : Float64)
      → p.0 ≡ ok v
      → Answers (respond (Get.gauge_read (Service.new repo) f w p).0) (f.format_float v)
  unfolding Get.gauge_read
  gauge_read-ok w (ok x, s) v e =
      let same : x ≡ v = cc in rw same (Answers-text_reply (f.format_float v))
  gauge_read-ok w (err x, s) v e = cc

  get-counter_read :
      (r : Request) (w : World S)
      → r.param "mtype" ≡ counter
      → get (Service.new repo) f r w
        ≡ Get.counter_read (Service.new repo) f w (repo.get_counter (r.param "name") w.store)
  unfolding get
  get-counter_read r w kind = rw (kind, get)

  get-gauge_read :
      (r : Request) (w : World S)
      → r.param "mtype" ≡ gauge
      → get (Service.new repo) f r w
        ≡ Get.gauge_read (Service.new repo) f w (repo.get_gauge (r.param "name") w.store)
  unfolding get
  get-gauge_read r w kind = rw (kind, get)

Found-some : (o : Option ℕ) (r : Result ℕ) (v : ℕ) → Found o r → o ≡ some v → r ≡ ok v
Found-some none r v h e = cc
Found-some (some x) r v h e = cc

FoundGauge-some :
    (o : Option Float64) (r : Result Float64) (v : Float64) → FoundGauge o r → o ≡ some v → r ≡ ok v
FoundGauge-some none r v h e = cc
FoundGauge-some (some x) r v h e = cc

module _ {S : Type 0} {repo : MetricsRepository S} {view : S → View} (imp : Implements repo view)
    (f : Formats) (r r' : Request) (w : World S)
    (same_name : r'.param "name" ≡ r.param "name") where
  -- Posting an increment to a counter answers 200 with the new value, the old one (0 if there was
  -- none) plus the increment in int64, and a GET of that counter then answers 200 with the same
  -- body. (The value parses as an int64.)
  pub post-get-counter :
      (delta : ℕ)
      → r.param "mtype" ≡ counter
      → r'.param "mtype" ≡ counter
      → parse_int (codes (r.param "value")) ≡ some delta
      → Answers
          (respond (post (Service.new repo) f r w).0)
          (format_int (add64 (or_else ((view w.store).counters (r.param "name")) 0) delta))
        × Answers
            (respond (get (Service.new repo) f r' (post (Service.new repo) f r w).1).0)
            (format_int (add64 (or_else ((view w.store).counters (r.param "name")) 0) delta))
  post-get-counter delta kind kind' parsed =
      let name = r.param "name" in
      let saved = imp.counter_saved name delta w.store in
      let (answer, kept) = counter_saved-ok repo f r name w _ _ saved.0 in
      let there = saved.1.counters name in
      rw (post-counter_saved repo f r w delta kind parsed) (
        answer,
        rw (get-counter_read repo f r' _ kind') (
            counter_read-ok repo f _ _ _ (
              Found-some _ _ _ (imp.counter_read _ _).0
                (rw (kept, same_name) (there ∙ rw (eq_refl name) refl)))),
      )

  -- Posting a gauge answers 200 with the value, and a GET of that gauge then answers 200 with the
  -- same body, whatever was there before. (The value parses as a float64.)
  pub post-get-gauge :
      (value : Float64)
      → r.param "mtype" ≡ gauge
      → r'.param "mtype" ≡ gauge
      → f.parse_float (codes (r.param "value")) ≡ some value
      → Answers (respond (post (Service.new repo) f r w).0) (f.format_float value)
        × Answers
            (respond (get (Service.new repo) f r' (post (Service.new repo) f r w).1).0)
            (f.format_float value)
  post-get-gauge value kind kind' parsed =
      let name = r.param "name" in
      let saved = imp.gauge_saved name value w.store in
      let (answer, kept) = gauge_saved-ok repo f r name w _ _ saved.0 in
      let there = saved.1.gauges name in
      rw (post-gauge_saved repo f r w value kind parsed) (
        answer,
        rw (get-gauge_read repo f r' _ kind') (
            gauge_read-ok repo f _ _ _ (
              FoundGauge-some _ _ _ (imp.gauge_read _ _).0
                (rw (kept, same_name) (there ∙ rw (eq_refl name) refl)))),
      )
