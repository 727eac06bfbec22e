-- ===== src/Agent/Pool.antt =====
-- internal/agent/pool.go: the worker pool as it runs. Callers of Submit, the workers and Stop are
-- goroutines, and a step is what one of them does to the channel or the sender. The transport `T` is
-- the state on which client.SendBatch acts.
pub mod Delivery
pub mod Stop
use rtmetrics.Base.{
  ℕ, zero, suc, ◌+◌, ◌-◌, ◌<◌, ◌≡◌, ◌≢◌, Bool, true, false, Option, List, [], ◌∷◌, ◌++◌, length,
}
use rtmetrics.Model.{Metrics}
use rtmetrics.Repository.{Error}

-- The channel `jobs` with what it holds, whether it is closed, and the workers: those that wait for a
-- job, the batches that others are sending, and how many have returned. `accepted` and `sent` are
-- histories, the last one first: the batches that Submit put on the channel, and those for which
-- SendBatch has returned.
pub record Running (T : Type 0) : Type 0 where
  pub workers : ℕ
  pub jobs : List (List Metrics)
  pub closed : Bool
  pub idle : ℕ
  pub busy : List (List Metrics)
  pub gone : ℕ
  pub net : T
  pub accepted : List (List Metrics)
  pub sent : List (List Metrics)

module _ {T : Type 0} where
  -- NewWorkerPool, then Start
  unfoldable pub start : ℕ → T → Running T
  start workers net = record {
    workers = workers;
    jobs = [];
    closed = false;
    idle = workers;
    busy = [];
    gone = 0;
    net = net;
    accepted = [];
    sent = [];
  }

  -- `case p.jobs <- batch` of Submit
  unfoldable pub accept : List Metrics → Running T → Running T
  accept batch s = record s { jobs = s.jobs ++ batch ∷ []; accepted = batch ∷ s.accepted }

  -- close(p.jobs) of Stop
  unfoldable pub close_jobs : Running T → Running T
  close_jobs s = record s { closed = true }

  -- work: a waiting worker receives `batch`, and leaves `jobs`.
  unfoldable pub take : List Metrics → List (List Metrics) → Running T → Running T
  take batch jobs s = record s { jobs = jobs; idle = s.idle - 1; busy = batch ∷ s.busy }

  -- work: SendBatch returns; an error is logged and dropped. `others` are sent by other workers.
  unfoldable pub finish :
      (List Metrics → T → Option Error × T)
      → List Metrics
      → List (List Metrics)
      → Running T
      → Running T
  finish send_batch batch others s = record s {
    idle = suc s.idle;
    busy = others;
    net = (send_batch batch s.net).1;
    sent = batch ∷ s.sent;
  }

  -- work: the channel is closed and empty, and the loop over it ends.
  unfoldable pub leave : Running T → Running T
  leave s = record s { idle = s.idle - 1; gone = suc s.gone }

  module _ (send_batch : List Metrics → T → Option Error × T) where
    -- What the goroutines can do. Submit does not put an empty batch on the channel, which holds as
    -- many batches as there are workers; Stop closes it once.
    pub data Step (s u : Running T) : Type 0 where
      accepts :
          (batch : List Metrics)
          → batch ≢ []
          → s.closed ≡ false
          → length s.jobs < s.workers
          → u ≡ accept batch s
          → Step s u
      closes : s.closed ≡ false → u ≡ close_jobs s → Step s u
      takes :
          (batch : List Metrics) (jobs : List (List Metrics))
          → s.jobs ≡ batch ∷ jobs
          → 0 < s.idle
          → u ≡ take batch jobs s
          → Step s u
      finishes :
          (batch : List Metrics) (before after : List (List Metrics))
          → s.busy ≡ before ++ batch ∷ after
          → u ≡ finish send_batch batch (before ++ after) s
          → Step s u
      leaves : s.jobs ≡ [] → s.closed ≡ true → 0 < s.idle → u ≡ leave s → Step s u

    pub data Reach (s : Running T) : Running T → Type 0 where
      here : Reach s s
      next : {t u : Running T} → Reach s t → Step t u → Reach s u
