-- ===== src/Agent/Runner/Reports.antt =====
-- What one report of the runner (submitCurrentMetrics, internal/agent/runner.go) leaves behind.
use mathlib.Core.List.{append_assoc, append-nil}
use rtmetrics.Base.{
  ℕ, zero, suc, ◌+◌, ◌≡◌, ◌≤◌, ◌<◌, String, true, false, List, [], ◌∷◌, ◌++◌, nat_eq, length, take,
  All, arith, refl, sym, ap, ◌∙◌, ◌⊎◌, inl, inr, Bool-cases,
}
use rtmetrics.Base.Int64.{add64, add64-lt, two64}
use rtmetrics.Model.{Metrics}
use rtmetrics.Agent.Collector.{GaugeMetrics}
use rtmetrics.Agent.Chunk.{chunk_batch}
use rtmetrics.Agent.Chunk.Partition.{chunk_batch-Partition}
use rtmetrics.Agent.Runner.{
  WorkerPool, Runner, Turn, submit, add_poll_count, poll_all, update_runtime_metrics, with_pool,
  submit_chunks, submit_batch, submit_current_metrics, take_batch, current_batch,
}

abbrev queue_more : List Metrics → WorkerPool → WorkerPool
queue_more chunk p = record { workers = p.workers; jobs = p.jobs ++ chunk ∷ [] }

-- The context is not done before, and the channel takes the batch; and the contrary.
abbrev pub IsTaken : Turn → Type 0
IsTaken t = (t.done ≡ false) × (t.queued ≡ true)

abbrev pub IsRefused : Turn → Type 0
IsRefused t = (t.done ≡ true) ⊎ (t.queued ≡ false)

submit-cases :
    (t : Turn) (chunk : List Metrics) (p : WorkerPool)
    → 1 ≤ length chunk
    → (IsTaken t × (submit t chunk p ≡ (true, queue_more chunk p)))
      ⊎ (IsRefused t × (submit t chunk p ≡ (false, p)))
unfolding submit
submit-cases t [] p h = absurd (omega arith)
submit-cases t (m ∷ ms) p h = elim (Bool-cases t.done) [
  | inl e ↦ inr (inl e, rw e refl)
  | inr e ↦ elim (Bool-cases t.queued) [
    | inl f ↦ inl ((e, f), rw (e, f) refl)
    | inr f ↦ inr (inr f, rw (e, f) refl)
  ]
]

pub poll_all-pool : (gs : List GaugeMetrics) (r : Runner) → (poll_all gs r).pool ≡ r.pool
unfolding update_runtime_metrics
poll_all-pool [] r = refl
poll_all-pool (g ∷ gs) r = poll_all-pool gs (update_runtime_metrics g r)

-- Each update counts once.
pub poll_all-poll_count :
    (gs : List GaugeMetrics) (r : Runner)
    → r.counters.poll_count < two64
    → (poll_all gs r).counters.poll_count ≡ add64 r.counters.poll_count (length gs)
unfolding update_runtime_metrics add64
poll_all-poll_count [] r h = omega arith
poll_all-poll_count (g ∷ gs) r h =
    let rest = poll_all-poll_count gs (update_runtime_metrics g r) (omega arith) in omega arith

add_poll_count-pool : (n : ℕ) (r : Runner) → (add_poll_count n r).pool ≡ r.pool
unfolding add_poll_count
add_poll_count-pool n r = elim (Bool-cases (nat_eq n 0)) [ inl e ↦ rw e refl | inr e ↦ rw e refl ]

add_poll_count-poll_count :
    (n : ℕ) (r : Runner)
    → r.counters.poll_count < two64
    → (add_poll_count n r).counters.poll_count ≡ add64 r.counters.poll_count n
unfolding add_poll_count add64
add_poll_count-poll_count n r h = elim (Bool-cases (nat_eq n 0)) [
  | inl e ↦ rw e (ground arith)
  | inr e ↦ rw e refl
]

-- The updates of the runtime metrics before the first `n` calls of Submit.
abbrev pub polls_before : (ℕ → Turn) → ℕ → ℕ
polls_before turn zero = 0
polls_before turn (suc n) = length (turn 0).polled + polls_before (λ i. turn (suc i)) n

abbrev pub TakenBefore : (ℕ → Turn) → ℕ → Type 0
TakenBefore turn zero = Unit
TakenBefore turn (suc n) = IsTaken (turn 0) × TakenBefore (λ i. turn (suc i)) n

-- The first `n` chunks are queued, and their calls of Submit found room before the context was done.
-- Either that is all of them, or the next call did not, and the polls taken came back.
abbrev pub Reported : (ℕ → Turn) → ℕ → List (List Metrics) → Runner → Runner → ℕ → Type 0
Reported turn polls chunks r r' n =
    (r'.pool.jobs ≡ r.pool.jobs ++ take n chunks)
    × TakenBefore turn n
    × ((n ≡ length chunks)
          × (r'.counters.poll_count ≡ add64 r.counters.poll_count (polls_before turn n))
        ⊎ (n < length chunks)
          × IsRefused (turn n)
          × (r'.counters.poll_count
              ≡ add64 (add64 r.counters.poll_count (polls_before turn (suc n))) polls))

add64-none : (a : ℕ) → a < two64 → a ≡ add64 a 0
unfolding add64
add64-none a h = omega arith

add64-shift : (a b c : ℕ) → add64 (add64 a b) c ≡ add64 a (b + c)
unfolding add64
add64-shift a b c = omega arith

Reported-cons :
    (turn : ℕ → Turn) (polls : ℕ) (chunk : List Metrics) (chunks : List (List Metrics)) (r : Runner)
    (r' : Runner) (n : ℕ)
    → r.counters.poll_count < two64
    → IsTaken (turn 0)
    → Reported
        (λ i. turn (suc i))
        polls
        chunks
        (with_pool
          (queue_more chunk (poll_all (turn 0).polled r).pool)
          (poll_all (turn 0).polled r))
        r'
        n
    → Reported turn polls (chunk ∷ chunks) r r' (suc n)
Reported-cons turn polls chunk chunks r r' n h taken (jobs, before, counted) =
    let pool = poll_all-pool (turn 0).polled r in
    let count = poll_all-poll_count (turn 0).polled r h in
    (
      jobs ∙ rw pool (append_assoc r.pool.jobs (chunk ∷ []) (take n chunks)),
      (taken, before),
      elim counted [
        | inl (e, c) ↦ inl (
          omega arith,
          c
              ∙ rw count (
                  add64-shift r.counters.poll_count (length (turn 0).polled)
                    (polls_before (λ i. turn (suc i)) n)),
        )
        | inr (e, refused, c) ↦ inr (
          omega arith,
          refused,
          c
              ∙ rw count (
                  rw
                    (add64-shift r.counters.poll_count (length (turn 0).polled)
                      (polls_before (λ i. turn (suc i)) (suc n)))
                    refl),
        )
      ],
    )

submit_chunks-Reported :
    (turn : ℕ → Turn) (polls : ℕ) (chunks : List (List Metrics)) (r : Runner)
    → All (λ chunk. 1 ≤ length chunk) chunks
    → r.counters.poll_count < two64
    → (n : ℕ) × Reported turn polls chunks r (submit_chunks turn polls chunks r) n
unfolding submit_chunks
submit_chunks-Reported turn polls [] r hs h =
    (0, (sym (append-nil r.pool.jobs), tt, inl (refl, add64-none r.counters.poll_count h)))
submit_chunks-Reported turn polls (chunk ∷ chunks) r (h1, hs) h =
    let before = poll_all (turn 0).polled r in
    let counted = poll_all-poll_count (turn 0).polled r h in
    elim (submit-cases (turn 0) chunk before.pool h1) [
      | inl (taken, e) ↦
          let next = with_pool (queue_more chunk before.pool) before in
          let rest =
            submit_chunks-Reported (λ i. turn (suc i)) polls chunks next hs
              (rw counted (add64-lt r.counters.poll_count (length (turn 0).polled))) in
          rw e (
            suc rest.0,
            Reported-cons turn polls chunk chunks r
                (submit_chunks (λ i. turn (suc i)) polls chunks next) rest.0 h taken rest.1,
          )
      | inr (refused, e) ↦
          let one : polls_before turn 1 ≡ length (turn 0).polled = omega arith in
          let back = add_poll_count-pool polls before in
          let added =
            add_poll_count-poll_count polls before
              (rw counted (add64-lt r.counters.poll_count (length (turn 0).polled))) in
          rw e (
            0,
            (
              ap (λ p. p.jobs) (back ∙ poll_all-pool (turn 0).polled r)
                  ∙ sym (append-nil r.pool.jobs),
              tt,
              inr (omega arith, refused, added ∙ rw (counted, one) refl),
            ),
          )
    ]

submit_batch-Reported :
    (turn : ℕ → Turn) (polls : ℕ) (batch : List Metrics) (r : Runner)
    → r.counters.poll_count < two64
    → (n : ℕ) × Reported turn polls
        (chunk_batch batch r.pool.workers)
        r
        (submit_batch turn polls batch r)
        n
unfolding submit_batch chunk_batch
submit_batch-Reported turn polls [] r h =
    (0, (sym (append-nil r.pool.jobs), tt, inl (refl, add64-none r.counters.poll_count h)))
submit_batch-Reported turn polls (m ∷ ms) r h =
    submit_chunks-Reported turn polls (chunk_batch (m ∷ ms) r.pool.workers) r
      (chunk_batch-Partition (m ∷ ms) r.pool.workers).1 h

-- A report cuts the batch at hand into chunks, and queues a first part of them in order, each once.
-- That is all of them, each call of Submit finding room in the channel before the context is done,
-- and then the poll count is that of the updates made meanwhile. Or it is those before the first call
-- that does not, and then the polls taken are added back. (The poll count is below 2 ^ 64.)
pub submit_current_metrics-Reported :
    (core_name : ℕ → String) (turn : ℕ → Turn) (r : Runner)
    → r.counters.poll_count < two64
    → (n : ℕ) × Reported turn r.counters.poll_count
        (chunk_batch (current_batch core_name r) r.pool.workers)
        (take_batch core_name r).1
        (submit_current_metrics core_name turn r)
        n
unfolding submit_current_metrics take_batch
submit_current_metrics-Reported core_name turn r h =
    submit_batch-Reported turn r.counters.poll_count (current_batch core_name r)
      (take_batch core_name r).1 (omega arith)
