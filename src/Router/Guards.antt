-- ===== src/Router/Guards.antt =====
-- The trusted subnet (internal/middleware/subnet) as createRouter (cmd/server/main.go) uses it.
use rtmetrics.Base.{
  String, ◌≡◌, ◌⊎◌, inl, inr, refl, ◌∙◌, Bool, true, false, Option, none, some, Bytes, arith, ◌==◌,
  Bool-cases,
}
use rtmetrics.Http.{Request}
use rtmetrics.Api.{World}
use rtmetrics.Service.{MetricsService}
use rtmetrics.Crypto.{Mac, Rsa, Gcm, decrypt}
use rtmetrics.Middleware.{HandlerFunc, with_body}
use rtmetrics.Middleware.Decrypt.{decrypting, decrypted}
use rtmetrics.Middleware.Subnet.{allowed, trusting, real_ip_header}
use rtmetrics.Middleware.Sign.{signing}
use rtmetrics.Middleware.Compress.{Gzip, compressing, answering}
use rtmetrics.Router.{
  Library, Route, to_update, to_updates, to_post, used, signing_if, routed, handle, create_router,
}
use rtmetrics.Router.Chain.{answering-world}

-- Whatever its body, the request leaves the state as it is.
abbrev Keeps : {S : Type 0} → Request → World S → HandlerFunc S → Type 0
Keeps r w next = (body : Bytes) (body_ok : Bool) → (next (with_body r body body_ok) w).1 ≡ w

module _ {S : Type 0} (r : Request) (w : World S) (next : HandlerFunc S)
    (keeps : Keeps r w next) where
  decrypted-Keeps :
      (body : Bytes) (body_ok : Bool) (o : Option Bytes)
      → (decrypted next (with_body r body body_ok) w o).1 ≡ w
  decrypted-Keeps body body_ok none = refl
  decrypted-Keeps body body_ok (some plain) = keeps plain true

  decrypting-Keeps : (gcm : Gcm) (priv : Rsa) → Keeps r w (decrypting gcm priv next)
  unfolding decrypting
  decrypting-Keeps gcm priv body body_ok =
      ground
        (arith, keeps body body_ok, decrypted-Keeps body body_ok (decrypt gcm (some priv) body))

  signing-Keeps : (mac : Mac) (key : String) → Keeps r w (signing mac key next)
  unfolding signing
  signing-Keeps mac key body body_ok = ground (arith, keeps body true)

  answering-Keeps : (gzip : Gzip) → Keeps r w (answering gzip next)
  answering-Keeps gzip body body_ok =
      answering-world gzip next (with_body r body body_ok) w ∙ keeps body body_ok

  compressing-Keeps : (gzip : Gzip) → Keeps r w (compressing gzip next)
  unfolding compressing
  compressing-Keeps gzip body body_ok = ground (
    arith,
    keeps body body_ok,
    answering-Keeps gzip body body_ok,
    answering-Keeps gzip (gzip.inflate body).0 (gzip.inflate body).1,
  )

-- The routes of the group that writes.
abbrev pub Writes : Route → Type 0
Writes route = (route ≡ to_update) ⊎ ((route ≡ to_updates) ⊎ (route ≡ to_post))

module _ {S : Type 0} (lib : Library) (svc : MetricsService S) (pinger : Option Bool)
    (network : lib.net.Network) where
  trusting-Keeps :
      (r : Request) (w : World S) (next : HandlerFunc S)
      → allowed lib.net (some network) (r.header real_ip_header) ≡ false
      → Keeps r w (trusting lib.net network next)
  unfolding trusting
  trusting-Keeps r w next out body body_ok = rw out refl

  routed-Keeps :
      (r : Request) (w : World S)
      → Writes (lib.route r.method r.path)
      → allowed lib.net (some network) (r.header real_ip_header) ≡ false
      → Keeps r w (routed lib svc pinger (some network))
  unfolding handle
  routed-Keeps r w (inl e) out body body_ok = rw e (trusting-Keeps r w _ out body body_ok)
  routed-Keeps r w (inr (inl e)) out body body_ok = rw e (trusting-Keeps r w _ out body body_ok)
  routed-Keeps r w (inr (inr e)) out body body_ok = rw e (trusting-Keeps r w _ out body body_ok)

  signing_if-Keeps :
      (r : Request) (w : World S) (key : String) (next : HandlerFunc S)
      → Keeps r w next
      → Keeps r w (signing_if lib svc pinger (some network) key next)
  signing_if-Keeps r w key next keeps body body_ok = elim (Bool-cases (key == "")) [
    | inl e ↦ rw e (keeps body body_ok)
    | inr e ↦ rw e (signing-Keeps r w next keeps lib.mac key body body_ok)
  ]

  used-Keeps :
      (r : Request) (w : World S) (priv : Option Rsa) (next : HandlerFunc S)
      → Keeps r w next
      → Keeps r w (used priv (decrypting lib.gcm) next)
  used-Keeps r w none next keeps = keeps
  used-Keeps r w (some rsa) next keeps = decrypting-Keeps r w next keeps lib.gcm rsa

  -- Where a trusted subnet is set, no request from outside it changes the store or the audit queue
  -- through a route that writes, whatever its body, its encoding, its encryption and its signature,
  -- and whatever keys the server has.
  pub create_router-Guarded :
      (key : String) (priv : Option Rsa) (r : Request) (w : World S)
      → Writes (lib.route r.method r.path)
      → allowed lib.net (some network) (r.header real_ip_header) ≡ false
      → (create_router lib svc pinger (some network) key priv r w).1 ≡ w
  unfolding create_router
  create_router-Guarded key priv r w writes out =
      used-Keeps r w priv _
        (compressing-Keeps r w _ (signing_if-Keeps r w key _ (routed-Keeps r w writes out))
          lib.gzip)
        r.body r.body_ok
