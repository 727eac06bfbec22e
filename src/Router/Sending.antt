-- ===== src/Router/Sending.antt =====
-- SendBatch of the agent's HTTP client (internal/agent/client.go) on a connection to createRouter
-- (cmd/server/main.go).
use rtmetrics.Base.{
  ℕ, Bool, true, false, ◌≡◌, refl, ap, ◌∙◌, inl, inr, ◌&&◌, Option, none, some, List, [], ◌∷◌,
  Bytes, All, Bool-cases, leb, ltb, String,
}
use rtmetrics.Model.{Metrics}
use rtmetrics.Repository.{Error, ok, MetricsRepository}
use rtmetrics.Repository.Contract.{View, SameView, Implements, apply_batch}
use rtmetrics.Service
use rtmetrics.Http.{respond}
use rtmetrics.Api.{World}
use rtmetrics.Crypto.{Rsa, Draw, encrypt}
use rtmetrics.Crypto.RoundTrip.{ReadsHex, IsKeyPair, IsGcm, Fills}
use rtmetrics.Retry.{default_delays, retry_loop, do_retry}
use rtmetrics.Middleware.Subnet.{allowed}
use rtmetrics.Handler.Batches.{IsComplete}
use rtmetrics.Agent.Client.{
  Client, Route, Transport, Encoders, request_for, batch_headers, is_retriable_network_error,
  answered, sent, attempt, post, wrapped, send_batch,
}
use rtmetrics.Router.{Library, to_updates, create_router}
use rtmetrics.Router.Delivery.{create_router-Delivery}

-- Nil, or an error that is not retried.
abbrev IsFinal : Option Error → Type 0
IsFinal none = Unit
IsFinal (some e) = is_retriable_network_error e ≡ false

retry_loop-IsFinal :
    {S : Type 0} (fn : S → Option Error × S) (cancelled : ℕ → Bool) (delays : List ℕ)
    (answer : Option Error) (s : S)
    → IsFinal answer
    → retry_loop is_retriable_network_error fn cancelled delays (answer, s) ≡ (answer, s)
unfolding retry_loop
retry_loop-IsFinal fn cancelled delays none s h = refl
retry_loop-IsFinal fn cancelled [] (some e) s h = refl
retry_loop-IsFinal fn cancelled (d ∷ delays) (some e) s h = rw (h, retry_loop) refl

module _ {T : Type 0} (transport : Transport T) (enc : Encoders) (c : Client) (via : Route) where
  answered-IsFinal : (status : ℕ) (t : T) → IsFinal (answered transport enc c via (ok status, t)).0
  unfolding answered is_retriable_network_error
  answered-IsFinal status t = elim (Bool-cases (leb 200 status && ltb status 300)) [
    | inl success ↦ rw success tt
    | inr other_status ↦ rw other_status refl
  ]

  -- The request of an attempt whose encryption gives `wire`.
  sent_request :
      (d : Draw) (path : String) (headers : List (String × String)) (body payload wire : Bytes)
      (key : Option Rsa) (t : T)
      → transport.draw t ≡ (d, t)
      → encrypt enc.gcm key d body ≡ some wire
      → sent transport enc c via path headers body payload key t
        ≡ answered transport enc c via
            (transport.deliver (request_for enc.mac c via path headers wire payload) t)
  unfolding encrypt
  sent_request d path headers body payload wire none t drawing encrypted =
      let same : body ≡ wire = cc (encrypted) in rw (← same) refl
  sent_request d path headers body payload wire (some rsa) t drawing encrypted =
      rw drawing (rw encrypted refl)

  module _ (cancelled : ℕ → Bool) where
    wrapped-state :
        (msg : String) (p : Option Error × T)
        → (wrapped transport enc c via none cancelled msg p).1 ≡ p.1
    wrapped-state msg (none, t) = refl
    wrapped-state msg (some e, t) = refl

    -- An answer, whatever its status, is the end: the request has been delivered once.
    post-once :
        (d : Draw) (path msg : String) (headers : List (String × String))
        (body payload wire : Bytes) (t t' : T) (status : ℕ)
        → transport.draw t ≡ (d, t)
        → encrypt enc.gcm c.public_key d body ≡ some wire
        → transport.deliver (request_for enc.mac c via path headers wire payload) t
          ≡ (ok status, t')
        → (wrapped transport enc c via none cancelled msg
            (post transport enc c via none cancelled path headers body payload t)).1
          ≡ t'
    unfolding post do_retry attempt answered
    post-once d path msg headers body payload wire t t' status drawing encrypted delivered =
        let fn = attempt transport enc c via path headers body payload in
        let first : fn t ≡ answered transport enc c via (ok status, t') =
          sent_request d path headers body payload wire c.public_key t drawing encrypted
          ∙ ap (answered transport enc c via) delivered in
        wrapped-state msg _
        ∙ ap (λ p. (retry_loop is_retriable_network_error fn cancelled default_delays p).1) first
        ∙ ap (λ p. p.1)
            (retry_loop-IsFinal fn cancelled default_delays
              (answered transport enc c via (ok status, t')).0 t' (answered-IsFinal status t'))

module _ {S : Type 0} {repo : MetricsRepository S} {view : S → View} (imp : Implements repo view)
    (lib : Library) (pinger : Option Bool) (trusted : Option lib.net.Network) (c : Client)
    (via : Route) (encode_metric : Metrics → Option Bytes)
    (encode_batch : List Metrics → Option Bytes) where
  -- The agent has the server's libraries.
  abbrev pub encoders : Encoders
  encoders = record {
    mac = lib.mac;
    gcm = lib.gcm;
    gzip = lib.gzip;
    encode_metric = encode_metric;
    encode_batch = encode_batch;
  }

  -- A connection to the server, where the random source gives `d`.
  abbrev pub connection : Draw → Transport (World S)
  connection d = record {
    draw = λ w. (d, w);
    deliver = λ req w.
        let answer = create_router lib (Service.new repo) pinger trusted c.key c.public_key req w in
        (ok (respond answer.0).status, answer.1);
  }

  -- A batch that the agent sends reaches the store whole and once: SendBatch, with the server at the
  -- other end of its connection, leaves the store with the effect of all the metrics, one after
  -- another, through compression, signature and encryption on the one side and decryption,
  -- decompression, signature and subnet on the other. (Agent and server have the same key, and the
  -- two RSA keys are a pair or absent; RSA, GCM, gzip and hexadecimal undo what they do, the random
  -- source fills its buffers, and encryption succeeds; the agent's address is in the trusted subnet,
  -- chi routes /updates/ to the handler, the context is not done, the network loses nothing, and the
  -- JSON of the batch decodes to the batch, whose metrics have a known type and the value for it.)
  pub send_batch-Delivery :
      (d : Draw) (cancelled : ℕ → Bool) (wire json : Bytes) (w : World S) (m : Metrics)
      (ms : List Metrics)
      → IsGcm lib.gcm
      → ((k : Rsa) → c.public_key ≡ some k → IsKeyPair k)
      → Fills lib.gcm d
      → ReadsHex lib.mac
      → lib.gzip.opens (lib.gzip.deflate json) ≡ true
      → lib.gzip.inflate (lib.gzip.deflate json) ≡ (json, true)
      → lib.route "POST" "/updates/" ≡ to_updates
      → allowed lib.net trusted c.real_ip ≡ true
      → encode_batch (m ∷ ms) ≡ some json
      → lib.formats.decode_batch json ≡ some (m ∷ ms)
      → All IsComplete (m ∷ ms)
      → encrypt lib.gcm c.public_key d (lib.gzip.deflate json) ≡ some wire
      → SameView
          (view (send_batch (connection d) encoders c via none cancelled (m ∷ ms) w).1.store)
          (apply_batch (m ∷ ms) (view w.store))
  unfolding send_batch
  send_batch-Delivery d cancelled wire json w m ms sound pair fills reads opens inflates to_route
        trust encoding decoded complete encrypted =
      let arrived =
        create_router-Delivery imp lib pinger trusted c via d wire json w m ms sound pair fills
          reads opens inflates to_route trust decoded complete encrypted in
      let world =
        post-once (connection d) encoders c via cancelled d "/updates/"
          "failed to send metrics batch" batch_headers (lib.gzip.deflate json) json wire w _ _ refl
          encrypted refl in
      rw encoding (rw world arrived)
