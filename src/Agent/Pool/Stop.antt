-- ===== src/Agent/Pool/Stop.antt =====
-- Stop of internal/agent/pool.go: the workers return.
use rtmetrics.Base.{
  ℕ, zero, suc, ◌+◌, ◌*◌, ◌≤◌, ◌<◌, ◌≡◌, ◌⊎◌, inl, inr, refl, ap, true, Option, List, [], ◌∷◌,
  length, length-append, arith,
}
use rtmetrics.Model.{Metrics}
use rtmetrics.Repository.{Error}
use rtmetrics.Agent.Pool.{
  Running, start, accept, close_jobs, take, finish, leave, Step, accepts, closes, takes, finishes,
  leaves, Reach, next,
}
use rtmetrics.Agent.Pool.Delivery.{Reach-Invariant}

module _ {T : Type 0} (send_batch : List Metrics → T → Option Error × T) where
  -- `n` steps in a row.
  pub data Runs : ℕ → Running T → Running T → Type 0 where
    done : {s : Running T} → Runs 0 s s
    one_more : {n : ℕ} {s t u : Running T} → Step send_batch s t → Runs n t u → Runs (suc n) s u

  -- What is left to do: a batch on the channel is taken, sent, and its worker returns.
  abbrev pub work_left : Running T → ℕ
  work_left s = 3 * length s.jobs + 2 * length s.busy + s.idle

  -- On a closed channel every step leaves less to do.
  Step-less :
      (s t : Running T)
      → Step send_batch s t
      → s.closed ≡ true
      → (t.closed ≡ true) × (work_left t < work_left s)
  unfolding accept close_jobs take finish leave
  Step-less s t (accepts batch some_ open_ room eq) ended = absurd (cc (open_, ended))
  Step-less s t (closes open_ eq) ended = absurd (cc (open_, ended))
  Step-less s t (takes batch jobs has waiting eq) ended =
      let jobs_length = ap length has in rw eq (ended, omega arith)
  Step-less s t (finishes batch before after has eq) ended =
      let busy_length = ap length has in
      let with_batch = length-append before (batch ∷ after) in
      let without = length-append before after in rw eq (ended, omega arith)
  Step-less s t (leaves empty closed waiting eq) ended = rw eq (ended, omega arith)

  Runs-bounded :
      {n : ℕ} {s t : Running T} → Runs n s t → s.closed ≡ true → n + work_left t ≤ work_left s
  Runs-bounded done ended = omega arith
  Runs-bounded {s = s} (one_more {t = t} step rest) ended =
      let (still, less) = Step-less s t step ended in
      let later = Runs-bounded rest still in omega arith

  Runs-closed : {n : ℕ} {s t : Running T} → Runs n s t → s.closed ≡ true → t.closed ≡ true
  Runs-closed done ended = ended
  Runs-closed {s = s} (one_more {t = t} step rest) ended =
      Runs-closed rest (Step-less s t step ended).0

  Reach-Runs :
      {n : ℕ} {r s t : Running T} → Reach send_batch r s → Runs n s t → Reach send_batch r t
  Reach-Runs reach done = reach
  Reach-Runs reach (one_more step rest) = Reach-Runs (next reach step) rest

  -- On a closed channel, some worker can go on until all have returned.
  progress :
      (s : Running T) (jobs busy : List (List Metrics)) (idle : ℕ)
      → s.jobs ≡ jobs
      → s.busy ≡ busy
      → s.idle ≡ idle
      → s.closed ≡ true
      → s.idle + length s.busy + s.gone ≡ s.workers
      → length s.jobs ≤ s.workers
      → (s.gone ≡ 0) ⊎ ((s.closed ≡ true) × (s.jobs ≡ []))
      → (s.gone ≡ s.workers) ⊎ ((t : Running T) × Step send_batch s t)
  progress s jobs (batch ∷ busy) idle hj hb hi ended all most drained =
      inr (finish send_batch batch busy s, finishes batch [] busy hb refl)
  progress s [] [] (suc idle) hj hb hi ended all most drained =
      inr (leave s, leaves hj ended (omega arith) refl)
  progress s (batch ∷ jobs) [] (suc idle) hj hb hi ended all most drained =
      inr (take batch jobs s, takes batch jobs hj (omega arith) refl)
  progress s [] [] zero hj hb hi ended all most drained =
      let busy_length = ap length hb in inl (omega arith)
  progress s (batch ∷ jobs) [] zero hj hb hi ended all most drained =
      let busy_length = ap length hb in
      let jobs_length = ap length hj in
      elim drained [
        | inl none_gone ↦ absurd (omega arith)
        | inr (closed, empty) ↦ absurd (cc (hj, empty))
      ]

  -- Once the channel of a started pool is closed, Stop returns: no schedule of the workers takes more
  -- steps than three for each batch on the channel, two for each one being sent and one for each
  -- waiting worker, and after any steps either all workers have returned or another step is possible.
  -- (A call of SendBatch returns.)
  pub stop-Terminates :
      (workers : ℕ) (net : T) (s t : Running T) (n : ℕ)
      → Reach send_batch (start workers net) s
      → s.closed ≡ true
      → Runs n s t
      → (n ≤ work_left s) × ((t.gone ≡ t.workers) ⊎ ((u : Running T) × Step send_batch t u))
  stop-Terminates workers net s t n reach ended runs =
      let few = Runs-bounded runs ended in
      let h = Reach-Invariant send_batch workers net (Reach-Runs reach runs) in
      (
        omega arith,
        progress t t.jobs t.busy t.idle refl refl refl (Runs-closed runs ended) h.counted h.bounded
            h.drained,
      )
