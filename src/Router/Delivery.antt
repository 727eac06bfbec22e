-- ===== src/Router/Delivery.antt =====
-- From the agent's SendBatch (internal/agent/client.go) through the middleware of createRouter
-- (cmd/server/main.go) to the store.
use rtmetrics.Base.{Bool, ◌≡◌, refl, ap, ◌∙◌, inl, inr, true, Option, some, List, ◌∷◌, Bytes, All}
use rtmetrics.Model.{Metrics}
use rtmetrics.Repository.{MetricsRepository}
use rtmetrics.Repository.Contract.{View, SameView, Implements, apply_batch}
use rtmetrics.Service
use rtmetrics.Service.{MetricsService}
use rtmetrics.Http.{contains}
use rtmetrics.Api.{World}
use rtmetrics.Crypto.{Rsa, Draw, encrypt}
use rtmetrics.Crypto.RoundTrip.{ReadsHex, IsKeyPair, IsGcm, Fills}
use rtmetrics.Middleware.Subnet.{allowed}
use rtmetrics.Middleware.Compress.{compressing}
use rtmetrics.Handler.Updates.{updates}
use rtmetrics.Handler.Batches.{IsComplete, updates-AllOrNothing}
use rtmetrics.Agent.Client.{Client, Route, request_for, batch_headers}
use rtmetrics.Router.{Library, to_updates, signing_if, routed, handle, create_router}
use rtmetrics.Router.Chain.{
  guarded-allowed, content_type, real_ip, decrypting-world, compressing-world, signing_if-world,
}

module _ {S : Type 0} {repo : MetricsRepository S} {view : S → View} (imp : Implements repo view)
    (lib : Library) (pinger : Option Bool) (trusted : Option lib.net.Network) (c : Client)
    (via : Route) where
  routed-updates :
      (json : Bytes) (w : World S)
      → lib.route "POST" "/updates/" ≡ to_updates
      → allowed lib.net trusted c.real_ip ≡ true
      → routed lib
          (Service.new repo)
          pinger
          trusted
          (request_for lib.mac c via "/updates/" batch_headers json json)
          w
        ≡ updates
            (Service.new repo)
            lib.formats
            (request_for lib.mac c via "/updates/" batch_headers json json)
            w
  unfolding handle request_for
  routed-updates json w to_route trust = rw to_route (
      guarded-allowed lib (Service.new repo) pinger trusted c via trusted
        (updates (Service.new repo) lib.formats)
        (request_for lib.mac c via "/updates/" batch_headers json json) w
        (ap (allowed lib.net trusted)
            (real_ip lib (Service.new repo) pinger trusted c via json json)
          ∙ trust))

  stored :
      (json : Bytes) (w : World S) (m : Metrics) (ms : List Metrics)
      → lib.formats.decode_batch json ≡ some (m ∷ ms)
      → All IsComplete (m ∷ ms)
      → SameView
          (view
            (updates
              (Service.new repo)
              lib.formats
              (request_for lib.mac c via "/updates/" batch_headers json json)
              w).1.store)
          (apply_batch (m ∷ ms) (view w.store))
  unfolding request_for
  stored json w m ms decoded complete =
      elim (updates-AllOrNothing imp lib.formats
        (request_for lib.mac c via "/updates/" batch_headers json json) w m ms
        (ap (λ h. contains h "application/json")
          (content_type lib (Service.new repo) pinger trusted c via json json))
        decoded) [ inl (_, _, same) ↦ same | inr (partial, _, _) ↦ absurd (partial complete) ]

  -- The store after the request of a batch: `wire` is the compressed JSON, encrypted.
  pub create_router-Delivery :
      (d : Draw) (wire json : Bytes) (w : World S) (m : Metrics) (ms : List Metrics)
      → IsGcm lib.gcm
      → ((k : Rsa) → c.public_key ≡ some k → IsKeyPair k)
      → Fills lib.gcm d
      → ReadsHex lib.mac
      → lib.gzip.opens (lib.gzip.deflate json) ≡ true
      → lib.gzip.inflate (lib.gzip.deflate json) ≡ (json, true)
      → lib.route "POST" "/updates/" ≡ to_updates
      → allowed lib.net trusted c.real_ip ≡ true
      → lib.formats.decode_batch json ≡ some (m ∷ ms)
      → All IsComplete (m ∷ ms)
      → encrypt lib.gcm c.public_key d (lib.gzip.deflate json) ≡ some wire
      → SameView
          (view
            (create_router lib
              (Service.new repo)
              pinger
              trusted
              c.key
              c.public_key
              (request_for lib.mac c via "/updates/" batch_headers wire json)
              w).1.store)
          (apply_batch (m ∷ ms) (view w.store))
  unfolding create_router
  create_router-Delivery d wire json w m ms sound pair fills reads opens inflates to_route trust
        decoded complete encrypted =
      let svc = Service.new repo in
      let inner = routed lib svc pinger trusted in
      let signing_next = signing_if lib svc pinger trusted c.key inner in
      let zipped = lib.gzip.deflate json in
      let plain =
        decrypting-world lib svc pinger trusted c via (compressing lib.gzip signing_next) d zipped
          wire json w c.public_key refl sound pair fills encrypted in
      let open_text =
        compressing-world lib svc pinger trusted c via signing_next zipped json w opens inflates in
      let checked = signing_if-world lib svc pinger trusted c via inner json w reads in
      let world =
        ap (λ p. p.1) plain
        ∙ open_text
        ∙ checked
        ∙ ap (λ p. p.1) (routed-updates json w to_route trust) in
      rw world (stored json w m ms decoded complete)
