-- ===== src/Agent/Pool/Delivery.antt =====
-- What the worker pool of internal/agent/pool.go does with the batches it accepted.
use mathlib.Core.List.{Perm, perm_middle, append_assoc, perm-append_left_iff, perm-append_right_iff}
use mathlib.Core.List.Perm
use rtmetrics.Base.{
  ℕ, ◌+◌, ◌≤◌, ◌<◌, ◌≡◌, ◌⊎◌, inl, inr, refl, ap, sym, true, false, Option, List, [], ◌∷◌, ◌++◌,
  length, length-append, arith,
}
use rtmetrics.Model.{Metrics}
use rtmetrics.Repository.{Error}
use rtmetrics.Agent.Pool.{
  Running, start, accept, close_jobs, take, finish, leave, Step, accepts, closes, takes, finishes,
  leaves, Reach, here, next,
}

module _ {T : Type 0} (send_batch : List Metrics → T → Option Error × T) where
  -- The transport after SendBatch of the batches, the last one first.
  abbrev pub sent_to : T → List (List Metrics) → T
  sent_to net [] = net
  sent_to net (batch ∷ batches) = (send_batch batch (sent_to net batches)).1

  -- Every worker waits, sends or has returned; the channel keeps to its capacity; a worker that has
  -- returned found the channel closed and empty; and every accepted batch is on the channel, with
  -- one worker, or sent.
  pub record Invariant (workers : ℕ) (net : T) (s : Running T) : Type 0 where
    pub fixed : s.workers ≡ workers
    pub counted : s.idle + length s.busy + s.gone ≡ s.workers
    pub bounded : length s.jobs ≤ s.workers
    pub drained : (s.gone ≡ 0) ⊎ ((s.closed ≡ true) × (s.jobs ≡ []))
    pub conserved : Perm (s.jobs ++ (s.busy ++ s.sent)) s.accepted
    pub transported : s.net ≡ sent_to net s.sent

  start-Invariant : (workers : ℕ) (net : T) → Invariant workers net (start workers net)
  unfolding start
  start-Invariant workers net = record {
    fixed = refl;
    counted = omega arith;
    bounded = omega arith;
    drained = inl refl;
    conserved = Perm.refl [];
    transported = refl;
  }

  finished :
      (batch : List Metrics) (before after sent busy : List (List Metrics))
      → busy ≡ before ++ batch ∷ after
      → Perm (before ++ after ++ batch ∷ sent) (busy ++ sent)
  finished batch before after sent busy eq = rw eq (
      Perm.trans (perm_middle (before ++ after) sent)
        (Perm.symm ((perm-append_right_iff sent).1 (perm_middle before after))))

  module _ (workers : ℕ) (net : T) (s : Running T) (h : Invariant workers net s) where
    accept-Invariant :
        (batch : List Metrics)
        → s.closed ≡ false
        → length s.jobs < s.workers
        → Invariant workers net (accept batch s)
    unfolding accept
    accept-Invariant batch open_ room = record {
      fixed = h.fixed;
      counted = h.counted;
      bounded = let grown = length-append s.jobs (batch ∷ []) in omega arith;
      drained = elim h.drained [
        | inl none_gone ↦ inl none_gone
        | inr (ended, empty) ↦ absurd (cc (open_, ended))
      ];
      conserved =
          rw (append_assoc s.jobs (batch ∷ []) (s.busy ++ s.sent))
            (Perm.trans (perm_middle s.jobs (s.busy ++ s.sent)) (Perm.cons' refl h.conserved));
      transported = h.transported;
    }

    close_jobs-Invariant : Invariant workers net (close_jobs s)
    unfolding close_jobs
    close_jobs-Invariant = record {
      fixed = h.fixed;
      counted = h.counted;
      bounded = h.bounded;
      drained = elim h.drained [
        | inl none_gone ↦ inl none_gone
        | inr (ended, empty) ↦ inr (refl, empty)
      ];
      conserved = h.conserved;
      transported = h.transported;
    }

    take-Invariant :
        (batch : List Metrics) (jobs : List (List Metrics))
        → s.jobs ≡ batch ∷ jobs
        → 0 < s.idle
        → Invariant workers net (take batch jobs s)
    unfolding take
    take-Invariant batch jobs eq waiting = record {
      fixed = h.fixed;
      counted = let all = h.counted in omega arith;
      bounded = let jobs_length = ap length eq in let most = h.bounded in omega arith;
      drained = elim h.drained [
        | inl none_gone ↦ inl none_gone
        | inr (ended, empty) ↦ absurd (cc (eq, empty))
      ];
      conserved =
          let same : batch ∷ (jobs ++ (s.busy ++ s.sent)) ≡ s.jobs ++ (s.busy ++ s.sent) =
            ap (λ l. l ++ (s.busy ++ s.sent)) (sym eq) in
          Perm.trans (perm_middle jobs (s.busy ++ s.sent)) (rw same h.conserved);
      transported = h.transported;
    }

    finish-Invariant :
        (batch : List Metrics) (before after : List (List Metrics))
        → s.busy ≡ before ++ batch ∷ after
        → Invariant workers net (finish send_batch batch (before ++ after) s)
    unfolding finish
    finish-Invariant batch before after eq = record {
      fixed = h.fixed;
      counted =
          let busy_length = ap length eq in
          let with_batch = length-append before (batch ∷ after) in
          let without = length-append before after in let all = h.counted in omega arith;
      bounded = h.bounded;
      drained = h.drained;
      conserved =
          Perm.trans
            ((perm-append_left_iff s.jobs).1 (finished batch before after s.sent s.busy eq))
            h.conserved;
      transported = ap (λ t. (send_batch batch t).1) h.transported;
    }

    leave-Invariant : s.jobs ≡ [] → s.closed ≡ true → 0 < s.idle → Invariant workers net (leave s)
    unfolding leave
    leave-Invariant empty ended waiting = record {
      fixed = h.fixed;
      counted = let all = h.counted in omega arith;
      bounded = h.bounded;
      drained = inr (ended, empty);
      conserved = h.conserved;
      transported = h.transported;
    }

    Step-Invariant : (u : Running T) → Step send_batch s u → Invariant workers net u
    Step-Invariant u (accepts batch some_ open_ room eq) = rw eq (accept-Invariant batch open_ room)
    Step-Invariant u (closes open_ eq) = rw eq close_jobs-Invariant
    Step-Invariant u (takes batch jobs has waiting eq) =
        rw eq (take-Invariant batch jobs has waiting)
    Step-Invariant u (finishes batch before after has eq) =
        rw eq (finish-Invariant batch before after has)
    Step-Invariant u (leaves empty ended waiting eq) = rw eq (leave-Invariant empty ended waiting)

  -- The invariant holds at every moment of a pool that was started.
  pub Reach-Invariant :
      (workers : ℕ) (net : T) {s : Running T}
      → Reach send_batch (start workers net) s
      → Invariant workers net s
  Reach-Invariant workers net here = start-Invariant workers net
  Reach-Invariant workers net (next {t = t} reach step) =
      Step-Invariant workers net t (Reach-Invariant workers net reach) _ step

  -- What Stop leaves: the channel is empty, and the accepted batches are those sent, each as often as
  -- it was accepted.
  pub record Delivered (net : T) (s : Running T) : Type 0 where
    pub no_jobs : s.jobs ≡ []
    pub not_busy : s.busy ≡ []
    pub all_sent : Perm s.sent s.accepted
    pub transported : s.net ≡ sent_to net s.sent

  is_empty : (l : List (List Metrics)) → length l ≡ 0 → l ≡ []
  is_empty [] h = refl
  is_empty (x ∷ l) h = absurd (omega arith)

  left_over :
      (jobs busy sent accepted : List (List Metrics))
      → jobs ≡ []
      → busy ≡ []
      → Perm (jobs ++ (busy ++ sent)) accepted
      → Perm sent accepted
  left_over jobs busy sent accepted no_jobs none_busy h =
      let same : sent ≡ jobs ++ (busy ++ sent) = rw (no_jobs, none_busy) refl in rw same h

  -- When the workers of a started pool, at least one, have all returned, so that Stop returns, every
  -- batch that Submit accepted has been handed to SendBatch exactly once, in whatever order the
  -- callers and the workers ran and whatever SendBatch returned; nothing else has been sent.
  pub Reach-Delivered :
      (workers : ℕ) (net : T) (s : Running T)
      → 0 < workers
      → Reach send_batch (start workers net) s
      → s.gone ≡ s.workers
      → Delivered net s
  Reach-Delivered workers net s some_ reach all_gone =
      let h = Reach-Invariant workers net reach in
      let all = h.counted in
      let fixed = h.fixed in
      let none_busy : s.busy ≡ [] = is_empty s.busy (omega arith) in
      elim h.drained [
        | inl none_gone ↦ absurd (omega arith)
        | inr (ended, no_jobs) ↦ record {
          no_jobs = no_jobs;
          not_busy = none_busy;
          all_sent = left_over s.jobs s.busy s.sent s.accepted no_jobs none_busy h.conserved;
          transported = h.transported;
        }
      ]
