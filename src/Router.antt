-- ===== src/Router.antt =====
-- createRouter (cmd/server/main.go): the handlers behind the middleware. Which of the registered
-- patterns a request matches is chi's affair and an argument.
pub mod Chain
pub mod Delivery
pub mod Sending
pub mod Guards
use rtmetrics.Base.{String, Bool, Option, none, some, List, if◌then◌else◌, ◌==◌}
use rtmetrics.Http.{Request, Act, error}
use rtmetrics.Api.{World, Formats}
use rtmetrics.Service.{MetricsService}
use rtmetrics.Crypto.{Mac, Rsa, Gcm}
use rtmetrics.Middleware.{HandlerFunc}
use rtmetrics.Middleware.Decrypt.{decrypting}
use rtmetrics.Middleware.Subnet.{Net, trusting}
use rtmetrics.Middleware.Sign.{signing}
use rtmetrics.Middleware.Compress.{Gzip, compressing}
use rtmetrics.Handler.Update.{update}
use rtmetrics.Handler.Updates.{updates}
use rtmetrics.Handler.Post.{post}
use rtmetrics.Handler.Value.{value}
use rtmetrics.Handler.Get.{get}
use rtmetrics.Handler.Html.{Page, PageData, html}
use rtmetrics.Handler.Ping.{ping}

-- The pattern matched: /debug, GET /ping, POST /update and /update/, POST /updates and /updates/,
-- POST /update/{mtype}/{name}/{value} and /{mtype}/{name}/{value}, POST /value and /value/,
-- GET /value/{mtype}/{name}, GET /, and the two /*.
pub data Route : Type 0 where
  to_debug to_ping to_update to_updates to_post to_value to_get to_html to_nothing : Route

-- What the routes get from outside: JSON and numbers, signatures, AES-GCM, gzip, addresses, the
-- dashboard's template, the profiler, and the choice of the pattern.
pub record Library : Type 1 where
  pub formats : Formats
  pub mac : Mac
  pub gcm : Gcm
  pub gzip : Gzip
  pub net : Net
  pub execute : PageData → Page
  pub profiler : Request → List Act
  -- Of the method and the path.
  pub route : String → String → Route

-- `if v != nil { router.Use(…) }`
abbrev pub used {ℓ} :
    {S : Type 0} {A : Type ℓ}
    → Option A
    → (A → HandlerFunc S → HandlerFunc S)
    → HandlerFunc S
    → HandlerFunc S
used none m next = next
used (some a) m next = m a next

-- http.NotFound
abbrev pub not_found : List Act
not_found = error "404 page not found" 404

module _ {S : Type 0} (lib : Library) (svc : MetricsService S) (pinger : Option Bool)
    (trusted : Option lib.net.Network) where
  -- The group of the routes that write.
  abbrev pub guarded : HandlerFunc S → HandlerFunc S
  guarded next = used trusted (trusting lib.net) next

  unfoldable pub handle : Route → HandlerFunc S
  handle to_debug r w = (lib.profiler r, w)
  handle to_ping r w = (ping pinger, w)
  handle to_update r w = guarded (update svc lib.formats) r w
  handle to_updates r w = guarded (updates svc lib.formats) r w
  handle to_post r w = guarded (post svc lib.formats) r w
  handle to_value r w = value svc lib.formats r w
  handle to_get r w = get svc lib.formats r w
  handle to_html r w = html svc lib.execute r w
  handle to_nothing r w = (not_found, w)

  abbrev pub routed : HandlerFunc S
  routed r w = handle (lib.route r.method r.path) r w

  -- if key != ""
  abbrev pub signing_if : String → HandlerFunc S → HandlerFunc S
  signing_if key next = if key == "" then next else signing lib.mac key next

  -- createRouter
  unfoldable pub create_router : String → Option Rsa → HandlerFunc S
  create_router key priv =
      used priv (decrypting lib.gcm) (compressing lib.gzip (signing_if key routed))
