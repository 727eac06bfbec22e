-- ===== src/Examples/Pipeline.antt =====
-- The theorems on internal/audit and internal/retry at concrete inputs.
use rtmetrics.Base.{
  ℕ, zero, suc, ◌≡◌, ◌≤◌, ◌⊎◌, ◌↔◌, Bool, true, false, Option, none, some, List, [], ◌∷◌, ◌++◌,
  arith, length,
}
use rtmetrics.Repository.{Error, net_error}
use rtmetrics.Audit.{Subject, new_subject, new_event, notify, close, event_buffer_size}
use rtmetrics.Audit.Delivery.{
  Action, notifies, dispatches, run, accepted, deliveries, close-run, notify_bounded,
}
use rtmetrics.Retry.{default_delays, do_retry}
use rtmetrics.Retry.Attempts.{Done, do_retry-Done}

abbrev two_observers : Subject
two_observers = record new_subject { observers = 1 ∷ 2 ∷ [] }

abbrev some_actions : List Action
some_actions =
    notifies (new_event 10 ("hits" ∷ []) "10.0.0.1")
    ∷ dispatches
    ∷ notifies (new_event 11 ("temp" ∷ []) "10.0.0.1")
    ∷ []

close-run_example :
    ((close (run some_actions two_observers)).events ≡ [])
    × ((close (run some_actions two_observers)).delivered
        ≡ two_observers.delivered
          ++ deliveries two_observers.observers
              (two_observers.events ++ accepted some_actions two_observers))
close-run_example = close-run some_actions two_observers

notify_bounded_example :
    (length (notify (new_event 10 ("hits" ∷ []) "10.0.0.1") two_observers).events
      ≤ event_buffer_size)
    × ((notify (new_event 10 ("hits" ∷ []) "10.0.0.1") two_observers ≡ two_observers)
        ↔ ((two_observers.closed ≡ true) ⊎ (length two_observers.events ≡ event_buffer_size)))
notify_bounded_example =
    notify_bounded (new_event 10 ("hits" ∷ []) "10.0.0.1") two_observers (omega arith)

abbrev is_net : Error → Bool
is_net net_error = true
is_net e = false

-- Two failures of the network, then a success.
abbrev flaky : ℕ → Option Error × ℕ
flaky zero = (none, 0)
flaky (suc n) = (some net_error, n)

do_retry-Done_example :
    Done is_net flaky (λ d. false) default_delays 2 (do_retry is_net flaky none (λ d. false) 2)
do_retry-Done_example = do_retry-Done is_net flaky (λ d. false) 2
