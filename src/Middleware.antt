-- ===== src/Middleware.antt =====
-- internal/middleware and internal/realip: what wraps the handlers. A handler is a function from a
-- request and the state to its calls of the ResponseWriter and the new state; a middleware is a
-- function on handlers.
pub mod Decrypt
pub mod Subnet
pub mod Sign
pub mod Compress
use rtmetrics.Base.{Bytes, Bool}
use rtmetrics.Http.{Request, Act}
use rtmetrics.Api.{World}
use rtmetrics.Base.{List}

abbrev pub HandlerFunc : Type 0 → Type 0
HandlerFunc S = Request → World S → List Act × World S

-- The request with another body.
abbrev pub with_body : Request → Bytes → Bool → Request
with_body r body body_ok = record r { body = body; body_ok = body_ok }
