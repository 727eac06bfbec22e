-- ===== src/Audit/Delivery.antt =====
-- What becomes of audit events (internal/audit/observer.go) under any interleaving of the handlers
-- with the worker.
use mathlib.Core.List.{append_assoc, append-nil}
use rtmetrics.Base.{
  ℕ, ◌⊎◌, ◌↔◌, ◌≤◌, ◌≡◌, refl, ap, ◌∙◌, sym, Bool, true, false, ◌&&◌, not, List, [], ◌∷◌, ◌++◌,
  arith, length, length-append, ltb, if◌then◌else◌, Bool-cases, inl, inr,
}
use rtmetrics.Audit.{
  Event, Subject, event_buffer_size, notify, observe_all, take_event, dispatch, drain, close,
}

-- What happens to an open subject: a handler notifies it, or its worker takes an event.
pub data Action : Type 0 where
  notifies : Event → Action
  dispatches : Action

unfoldable pub act : Action → Subject → Subject
act (notifies event) s = notify event s
act dispatches s = dispatch s

unfoldable pub run : List Action → Subject → Subject
run [] s = s
run (a ∷ acts) s = run acts (act a s)

-- The events that found room in the queue.
abbrev pub has_room : Subject → Bool
has_room s = not s.closed && ltb (length s.events) event_buffer_size

abbrev taken : Action → Subject → List Event
taken (notifies event) s = if has_room s then event ∷ [] else []
taken dispatches s = []

unfoldable pub accepted : List Action → Subject → List Event
accepted [] s = []
accepted (a ∷ acts) s = taken a s ++ accepted acts (act a s)

-- Each event once for every observer, in order.
abbrev pub deliveries : List ℕ → List Event → List (ℕ × Event)
deliveries os [] = []
deliveries os (e ∷ es) = observe_all os e ++ deliveries os es

deliveries-append :
    (os : List ℕ) (es es' : List Event)
    → deliveries os (es ++ es') ≡ deliveries os es ++ deliveries os es'
deliveries-append os [] es' = refl
deliveries-append os (e ∷ es) es' = simp (deliveries-append os es es', append_assoc)

-- What has been delivered, with what the queue still holds.
abbrev pub due : Subject → List (ℕ × Event)
due s = s.delivered ++ deliveries s.observers s.events

notify_room :
    (event : Event) (s : Subject)
    → has_room s ≡ true
    → notify event s ≡ record s { events = s.events ++ event ∷ [] }
unfolding notify
notify_room event s room = ground arith

notify_full : (event : Event) (s : Subject) → has_room s ≡ false → notify event s ≡ s
unfolding notify
notify_full event s full = ground arith

due-notify :
    (event : Event) (s : Subject)
    → due (notify event s) ≡ due s ++ deliveries s.observers (taken (notifies event) s)
due-notify event s = elim (Bool-cases (has_room s)) [
  | inl room ↦
      rw (room, notify_room event s room)
        (simp (deliveries-append s.observers s.events (event ∷ []), append_assoc, append-nil))
  | inr full ↦ rw (full, notify_full event s full) (sym (append-nil (due s)))
]

due-take_event : (es : List Event) (s : Subject) → s.events ≡ es → due (take_event es s) ≡ due s
unfolding take_event
due-take_event [] s e = refl
due-take_event (event ∷ es) s e =
    rw e (append_assoc s.delivered (observe_all s.observers event) (deliveries s.observers es))

due-act : (a : Action) (s : Subject) → due (act a s) ≡ due s ++ deliveries s.observers (taken a s)
unfolding act dispatch
due-act (notifies event) s = due-notify event s
due-act dispatches s = due-take_event s.events s refl ∙ sym (append-nil (due s))

observers-act : (a : Action) (s : Subject) → (act a s).observers ≡ s.observers
unfolding act notify dispatch take_event
observers-act (notifies event) s = ground arith
observers-act dispatches s = ground arith

-- Until the subject is closed, what is due is what was due and the accepted events.
due-run :
    (acts : List Action) (s : Subject)
    → due (run acts s) ≡ due s ++ deliveries s.observers (accepted acts s)
unfolding run accepted act
due-run [] s = sym (append-nil (due s))
due-run (a ∷ acts) s =
    due-run acts (act a s)
    ∙ rw
        (
          due-act a s,
          observers-act a s,
          deliveries-append s.observers (taken a s) (accepted acts (act a s)),
        )
        (append_assoc (due s) _ _)

observers-run : (acts : List Action) (s : Subject) → (run acts s).observers ≡ s.observers
unfolding run
observers-run [] s = refl
observers-run (a ∷ acts) s = observers-run acts (act a s) ∙ observers-act a s

delivered-drain :
    (es : List Event) (s : Subject)
    → (drain es s).delivered ≡ s.delivered ++ deliveries s.observers es
unfolding drain take_event
delivered-drain [] s = sym (append-nil s.delivered)
delivered-drain (event ∷ es) s =
    delivered-drain es _
    ∙ append_assoc s.delivered (observe_all s.observers event) (deliveries s.observers es)

drain-empty : (es : List Event) (s : Subject) → s.events ≡ es → (drain es s).events ≡ []
unfolding drain take_event
drain-empty [] s e = e
drain-empty (event ∷ es) s e = drain-empty es _ refl

-- No accepted event is lost, duplicated or reordered: whatever the interleaving of handlers and
-- worker before it, Close returns with the queue empty, and every observer has seen, in the order
-- of their arrival and once each, the events that were queued at first and those that found room
-- since.
pub close-run :
    (acts : List Action) (s : Subject)
    → ((close (run acts s)).events ≡ [])
      × ((close (run acts s)).delivered
          ≡ s.delivered ++ deliveries s.observers (s.events ++ accepted acts s))
unfolding close
close-run acts s = (
  drain-empty (run acts s).events _ refl,
  delivered-drain (run acts s).events _
      ∙ due-run acts s
      ∙ rw (deliveries-append s.observers s.events (accepted acts s))
          (append_assoc s.delivered _ _),
)

-- The queue never holds more than 64 events, and an event is turned away exactly when the queue is
-- full or the subject closed: then Notify changes nothing.
pub notify_bounded :
    (event : Event) (s : Subject)
    → length s.events ≤ event_buffer_size
    → (length (notify event s).events ≤ event_buffer_size)
      × ((notify event s ≡ s) ↔ ((s.closed ≡ true) ⊎ (length s.events ≡ event_buffer_size)))
unfolding notify
notify_bounded event s h = (
  ground (arith, length-append s.events (event ∷ [])),
  (
    λ same.
        ground
          (arith, length-append s.events (event ∷ []), ap (λ (t : Subject). length t.events) same),
    λ full. ground arith,
  ),
)
