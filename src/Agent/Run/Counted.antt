-- ===== src/Agent/Run/Counted.antt =====
-- What becomes of the polls of the agent over a run (internal/agent/runner.go).
use rtmetrics.Base.{
  ℕ, suc, ◌+◌, ◌<◌, ◌≤◌, ◌≡◌, String, true, false, List, [], ◌∷◌, ◌++◌, length, concat, All, inl,
  inr, refl, sym, ap, ◌∙◌, arith,
}
use rtmetrics.Base.Int64.{add64, add64-lt, add64_assoc, two64}
use rtmetrics.Model.{Metrics}
use rtmetrics.Repository.{ok, err}
use rtmetrics.Agent.Collector.{GaugeMetrics}
use rtmetrics.Agent.Chunk.{chunk_batch}
use rtmetrics.Agent.Chunk.Partition.{chunk_batch-Partition}
use rtmetrics.Agent.Runner.{
  WorkerPool, Runner, Turn, submit, poll_all, with_pool, submit_chunks, submit_batch,
  submit_current_metrics, take_batch, current_batch, update_runtime_metrics, update_system_metrics,
}
use rtmetrics.Agent.Runner.Reports.{
  submit_current_metrics-Reported, polls_before, poll_all-pool, poll_all-poll_count,
}
use rtmetrics.Agent.Run.Deltas.{deltas, deltas-append, concat-append, deltas-current_batch}
use rtmetrics.Agent.Run.{Event, polls_runtime, polls_system, reports, flush, one_round, rounds, run}

-- What the queued batches report and what is still to be reported.
abbrev pub total : Runner → ℕ
total r = add64 (deltas (concat r.pool.jobs)) r.counters.poll_count

-- Submit accepts every chunk: the context of a report does not end.
abbrev pub Accepts : (ℕ → Turn) → Type 0
Accepts turn = (i : ℕ) → ((turn i).done ≡ false) × ((turn i).queued ≡ true)

abbrev pub AllAccept : List Event → Type 0
AllAccept [] = Unit
AllAccept (polls_runtime g ∷ es) = AllAccept es
AllAccept (polls_system s ∷ es) = AllAccept es
AllAccept (reports turn ∷ es) = Accepts turn × AllAccept es

submit-Accepts :
    (t : Turn) (chunk : List Metrics) (p : WorkerPool)
    → 1 ≤ length chunk
    → t.done ≡ false
    → t.queued ≡ true
    → submit t chunk p ≡ (true, record { workers = p.workers; jobs = p.jobs ++ chunk ∷ [] })
unfolding submit
submit-Accepts t [] p h hd hq = absurd (omega arith)
submit-Accepts t (m ∷ ms) p h hd hq = rw (hd, hq) refl

plain : (x : ℕ) → x < two64 → x ≡ add64 (add64 x 0) 0
unfolding add64
plain x h = omega arith

regrouped :
    (jobs chunk rest count polled later : ℕ)
    → add64 (add64 (add64 (add64 jobs (add64 chunk 0)) (add64 count polled)) rest) later
      ≡ add64 (add64 (add64 jobs count) (add64 chunk rest)) (polled + later)
unfolding add64
regrouped jobs chunk rest count polled later = omega arith

abbrev queued : List Metrics → Runner → Runner
queued chunk r = with_pool (record { workers = r.pool.workers; jobs = r.pool.jobs ++ chunk ∷ [] }) r

queued-total :
    (chunk : List Metrics) (polled : List GaugeMetrics) (r : Runner)
    → r.counters.poll_count < two64
    → total (queued chunk (poll_all polled r))
      ≡ add64
          (add64 (deltas (concat r.pool.jobs)) (add64 (deltas chunk) 0))
          (add64 r.counters.poll_count (length polled))
queued-total chunk polled r h =
    ap (λ p. add64 (deltas (concat (p.jobs ++ chunk ∷ []))) (poll_all polled r).counters.poll_count)
      (poll_all-pool polled r)
    ∙ ap (add64 (deltas (concat (r.pool.jobs ++ chunk ∷ [])))) (poll_all-poll_count polled r h)
    ∙ ap (λ n. add64 n (add64 r.counters.poll_count (length polled)))
        (concat-append r.pool.jobs (chunk ∷ [])
          ∙ ap (add64 (deltas (concat r.pool.jobs))) (deltas-append chunk []))

-- What the loop over the chunks adds to the total: the chunks and the polls meanwhile.
submit_chunks-total :
    (turn : ℕ → Turn) (polls : ℕ) (chunks : List (List Metrics)) (r : Runner)
    → Accepts turn
    → All (λ chunk. 1 ≤ length chunk) chunks
    → r.counters.poll_count < two64
    → total (submit_chunks turn polls chunks r)
      ≡ add64 (add64 (total r) (deltas (concat chunks))) (polls_before turn (length chunks))
unfolding submit_chunks
submit_chunks-total turn polls [] r accepts hs h =
    plain (total r) (add64-lt (deltas (concat r.pool.jobs)) r.counters.poll_count)
submit_chunks-total turn polls (chunk ∷ chunks) r accepts (h1, hs) h =
    let before = poll_all (turn 0).polled r in
    let sent = submit-Accepts (turn 0) chunk before.pool h1 (accepts 0).0 (accepts 0).1 in
    let counted = poll_all-poll_count (turn 0).polled r h in
    let later = polls_before (λ i. turn (suc i)) (length chunks) in
    let rest =
      submit_chunks-total (λ i. turn (suc i)) polls chunks (queued chunk before)
        (λ i. accepts (suc i)) hs
        (rw counted (add64-lt r.counters.poll_count (length (turn 0).polled))) in
    rw sent (
      rest
      ∙ ap (λ n. add64 (add64 n (deltas (concat chunks))) later)
          (queued-total chunk (turn 0).polled r h)
      ∙ regrouped (deltas (concat r.pool.jobs)) (deltas chunk) (deltas (concat chunks))
          r.counters.poll_count (length (turn 0).polled) later
      ∙ ap (λ n. add64 (add64 (total r) n) (length (turn 0).polled + later))
          (sym (deltas-append chunk (concat chunks))))

submit_batch-total :
    (turn : ℕ → Turn) (polls : ℕ) (batch : List Metrics) (r : Runner)
    → Accepts turn
    → r.counters.poll_count < two64
    → total (submit_batch turn polls batch r)
      ≡ add64
          (add64 (total r) (deltas batch))
          (polls_before turn (length (chunk_batch batch r.pool.workers)))
unfolding submit_batch chunk_batch
submit_batch-total turn polls [] r accepts h =
    plain (total r) (add64-lt (deltas (concat r.pool.jobs)) r.counters.poll_count)
submit_batch-total turn polls (m ∷ ms) r accepts h =
    let chunks = chunk_batch (m ∷ ms) r.pool.workers in
    let (whole, not_empty, few) = chunk_batch-Partition (m ∷ ms) r.pool.workers in
    submit_chunks-total turn polls chunks r accepts not_empty h
    ∙ ap (λ l. add64 (add64 (total r) (deltas l)) (polls_before turn (length chunks))) whole

-- The polls of other loops during a report.
abbrev pub meanwhile : (ℕ → String) → (ℕ → Turn) → Runner → ℕ
meanwhile core_name turn r =
    polls_before turn (length (chunk_batch (current_batch core_name r) r.pool.workers))

none_more : (x : ℕ) → x < two64 → x ≡ add64 x 0
unfolding add64
none_more x h = omega arith

added : (x a b : ℕ) → add64 (add64 x a) b ≡ add64 x (a + b)
unfolding add64
added x a b = omega arith

taken :
    (jobs count polled : ℕ)
    → add64 (add64 (add64 jobs 0) count) polled ≡ add64 (add64 jobs count) polled
unfolding add64
taken jobs count polled = omega arith

flush-total :
    (core_name : ℕ → String) (turn : ℕ → Turn) (r : Runner)
    → Accepts turn
    → r.counters.poll_count < two64
    → total (flush core_name turn r) ≡ add64 (total r) (meanwhile core_name turn r)
unfolding flush submit_current_metrics take_batch
flush-total core_name turn r accepts h =
    submit_batch-total turn r.counters.poll_count (current_batch core_name r)
      (take_batch core_name r).1 accepts (omega arith)
    ∙ ap (λ n. add64 (add64 (add64 (deltas (concat r.pool.jobs)) 0) n) (meanwhile core_name turn r))
        (deltas-current_batch core_name r h)
    ∙ taken (deltas (concat r.pool.jobs)) r.counters.poll_count (meanwhile core_name turn r)

module _ (core_name : ℕ → String) where
  -- The polls of a round.
  abbrev polls_of : Event → Runner → ℕ
  polls_of (polls_runtime gauges) r = 1
  polls_of (polls_system system) r = 0
  polls_of (reports turn) r = meanwhile core_name turn r

  abbrev pub polls_made : List Event → Runner → ℕ
  polls_made [] r = 0
  polls_made (e ∷ es) r = polls_of e r + polls_made es (one_round core_name e r)

  flush-lt :
      (turn : ℕ → Turn) (r : Runner)
      → r.counters.poll_count < two64
      → (flush core_name turn r).counters.poll_count < two64
  unfolding flush
  flush-lt turn r h =
      let (n, (jobs, before, counted)) = submit_current_metrics-Reported core_name turn r h in
      elim counted [
        | inl (all, count) ↦ rw count (add64-lt _ _)
        | inr (less, refused, count) ↦ rw count (add64-lt _ _)
      ]

  one_round-total :
      (e : Event) (r : Runner)
      → AllAccept (e ∷ [])
      → r.counters.poll_count < two64
      → (total (one_round core_name e r) ≡ add64 (total r) (polls_of e r))
        × ((one_round core_name e r).counters.poll_count < two64)
  unfolding one_round update_runtime_metrics update_system_metrics
  one_round-total (polls_runtime gauges) r accepts h = (
    sym (add64_assoc (deltas (concat r.pool.jobs)) r.counters.poll_count 1),
    add64-lt r.counters.poll_count 1,
  )
  one_round-total (polls_system (ok system)) r accepts h = (none_more (total r) (add64-lt _ _), h)
  one_round-total (polls_system (err e)) r accepts h = (none_more (total r) (add64-lt _ _), h)
  one_round-total (reports turn) r accepts h =
      (flush-total core_name turn r accepts.0 h, flush-lt turn r h)

  AllAccept-parts :
      (e : Event) (es : List Event) → AllAccept (e ∷ es) → AllAccept (e ∷ []) × AllAccept es
  AllAccept-parts (polls_runtime gauges) es h = (tt, h)
  AllAccept-parts (polls_system system) es h = (tt, h)
  AllAccept-parts (reports turn) es h = ((h.0, tt), h.1)

  rounds-total :
      (es : List Event) (r : Runner)
      → AllAccept es
      → r.counters.poll_count < two64
      → (total (rounds core_name es r) ≡ add64 (total r) (polls_made es r))
        × ((rounds core_name es r).counters.poll_count < two64)
  unfolding rounds
  rounds-total [] r accepts h = (none_more (total r) (add64-lt _ _), h)
  rounds-total (e ∷ es) r accepts h =
      let (first, others) = AllAccept-parts e es accepts in
      let (one, bounded) = one_round-total e r first h in
      let (rest, later) = rounds-total es (one_round core_name e r) others bounded in
      (
        rest
            ∙ ap (λ n. add64 n (polls_made es (one_round core_name e r))) one
            ∙ added (total r) (polls_of e r) (polls_made es (one_round core_name e r)),
        later,
      )

  -- Over a whole run of the agent, in whatever order the loops take their turns, no poll is lost and
  -- none is reported twice: if no call of Submit is refused, the increments of all queued batches
  -- together with the poll count left are those at the start and one for each update of the runtime
  -- metrics, in int64.
  pub run-total :
      (es : List Event) (last : ℕ → Turn) (r : Runner)
      → AllAccept es
      → Accepts last
      → r.counters.poll_count < two64
      → total (run core_name es last r)
        ≡ add64 (total r) (polls_made es r + meanwhile core_name last (rounds core_name es r))
  unfolding run
  run-total es last r accepts last_accepts h =
      let (all, bounded) = rounds-total es r accepts h in
      flush-total core_name last (rounds core_name es r) last_accepts bounded
      ∙ ap (λ n. add64 n (meanwhile core_name last (rounds core_name es r))) all
      ∙ added (total r) (polls_made es r) (meanwhile core_name last (rounds core_name es r))
