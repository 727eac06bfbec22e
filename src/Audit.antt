-- ===== src/Audit.antt =====
-- internal/audit: events of accepted metrics, queued by the handlers and delivered to observers by
-- a worker. A nil *Subject is `none`.
pub mod Delivery
pub mod Observers
use rtmetrics.Base.{
  ℕ, suc, String, Bool, true, false, not, ◌||◌, Option, none, some, List, [], ◌∷◌, ◌++◌, length,
  ltb, if◌then◌else◌,
}

pub record Event : Type 0 where
  pub ts : ℕ
  pub metrics : List String
  pub ip_address : String

-- const eventBufferSize
abbrev pub event_buffer_size : ℕ
event_buffer_size = 64

-- An observer is a name here; the child Observers has what Observe does with an event. `events` is the
-- channel, oldest first; `delivered` lists the calls of Observe that the worker has made.
pub record Subject : Type 0 where
  pub observers : List ℕ
  pub events : List Event
  pub closed : Bool
  pub delivered : List (ℕ × Event)

abbrev pub new_subject : Subject
new_subject = record { observers = []; events = []; closed = false; delivered = [] }

-- Subscribe; a nil observer is `none`.
unfoldable pub subscribe : Option ℕ → Subject → Subject
subscribe none s = s
subscribe (some o) s = record s { observers = s.observers ++ o ∷ [] }

-- Notify: a full queue, or a closed subject, drops the event.
unfoldable pub notify : Event → Subject → Subject
notify event s =
    if s.closed
    then s
    else if ltb (length s.events) event_buffer_size
    then record s { events = s.events ++ event ∷ [] }
    else s

-- One event goes to every observer, in the order of their subscriptions.
unfoldable pub observe_all : List ℕ → Event → List (ℕ × Event)
observe_all [] event = []
observe_all (o ∷ os) event = (o, event) ∷ observe_all os event

-- One round of dispatch, with what the channel holds.
unfoldable pub take_event : List Event → Subject → Subject
unfolding observe_all
take_event [] s = s
take_event (event ∷ events) s = record s {
  events = events;
  delivered = s.delivered ++ observe_all s.observers event;
}

unfoldable pub dispatch : Subject → Subject
unfolding take_event
dispatch s = take_event s.events s

-- `for event := range s.events` on a closed channel: to the last event.
unfoldable pub drain : List Event → Subject → Subject
unfolding take_event
drain [] s = s
drain (event ∷ events) s = drain events (take_event (event ∷ events) s)

-- Close: the channel is closed once, and the call returns when the worker has ended.
unfoldable pub close : Subject → Subject
unfolding drain
close s = drain s.events (record s { closed = true })

-- NewEvent; the host is that of clientIP.
abbrev pub new_event : ℕ → List String → String → Event
new_event now names host = record { ts = now; metrics = names; ip_address = host }

-- clientIP, with what net.SplitHostPort made of the remote address: `none` is an error.
unfoldable pub client_ip : Option String → String → String
client_ip (some host) remote_addr = host
client_ip none remote_addr = remote_addr

-- NotifyRequest: nothing for a nil subject or no names.
unfoldable pub notify_request : ℕ → List String → String → Option Subject → Option Subject
unfolding notify
notify_request now names host none = none
notify_request now [] host (some s) = some s
notify_request now (name ∷ names) host (some s) =
    some (notify (new_event now (name ∷ names) host) s)
