-- ===== src/Examples/Pool.antt =====
-- The theorems on the worker pool of internal/agent/pool.go at a pool of one worker.
use mathlib.Core.List.{nil≢cons}
use rtmetrics.Base.{
  ℕ, ◌+◌, ◌≤◌, ◌≡◌, ◌⊎◌, refl, sym, true, Option, none, List, [], ◌∷◌, length, arith,
}
use rtmetrics.Model.{Metrics}
use rtmetrics.Repository.{Error}
use rtmetrics.Agent.Pool.{
  Running, start, accept, close_jobs, take, finish, leave, Step, accepts, closes, takes, finishes,
  leaves, Reach, here, next,
}
use rtmetrics.Agent.Pool.Delivery.{Delivered, Reach-Delivered}
use rtmetrics.Agent.Pool.Stop.{done, one_more, work_left, stop-Terminates}
use rtmetrics.Examples.Toolkit.{two_metrics}

-- A sender that counts the metrics.
abbrev count_sent : List Metrics → ℕ → Option Error × ℕ
count_sent batch n = (none, n + length batch)

abbrev accepted_one : Running ℕ
accepted_one = accept two_metrics (start 1 0)

abbrev closed_one : Running ℕ
closed_one = close_jobs accepted_one

abbrev taken_one : Running ℕ
taken_one = take two_metrics [] closed_one

abbrev finished_one : Running ℕ
finished_one = finish count_sent two_metrics [] taken_one

abbrev stopped_one : Running ℕ
stopped_one = leave finished_one

closed_reached : Reach count_sent (start 1 0) closed_one
unfolding start accept
closed_reached =
    next (next here (accepts two_metrics (λ e. nil≢cons (sym e)) refl (omega arith) refl))
      (closes refl refl)

taking : Step count_sent closed_one taken_one
unfolding start accept close_jobs
taking = takes two_metrics [] refl (omega arith) refl

finishing : Step count_sent taken_one finished_one
unfolding start accept close_jobs take
finishing = finishes two_metrics [] [] refl refl

leaving : Step count_sent finished_one stopped_one
unfolding start accept close_jobs take finish
leaving = leaves refl refl (omega arith) refl

all_gone : stopped_one.gone ≡ stopped_one.workers
unfolding start accept close_jobs take finish leave
all_gone = refl

-- The batch of two metrics has been sent.
sent_test : (stopped_one.net ≡ 2) × (stopped_one.sent ≡ two_metrics ∷ [])
unfolding start accept close_jobs take finish leave
sent_test = (refl, refl)

Reach-Delivered_example : Delivered count_sent 0 stopped_one
Reach-Delivered_example =
    Reach-Delivered count_sent 1 0 stopped_one (omega arith)
      (next (next (next closed_reached taking) finishing) leaving) all_gone

closed_is : closed_one.closed ≡ true
unfolding close_jobs
closed_is = refl

stop-Terminates_example :
    (2 ≤ work_left count_sent closed_one)
    × ((finished_one.gone ≡ finished_one.workers)
        ⊎ ((u : Running ℕ) × Step count_sent finished_one u))
stop-Terminates_example =
    stop-Terminates count_sent 1 0 closed_one finished_one 2 closed_reached closed_is
      (one_more taking (one_more finishing done))
