-- ===== src/Middleware/Subnet.antt =====
-- internal/middleware/subnet/subnet.go and Allowed of internal/realip: only addresses of the trusted
-- subnet. net.ParseIP and Contains are an argument.
use rtmetrics.Base.{String, Bool, true, false, Option, none, some, if◌then◌else◌}
use rtmetrics.Http.{error}
use rtmetrics.Middleware.{HandlerFunc}

-- realip.Header
abbrev pub real_ip_header : String
real_ip_header = "X-Real-IP"

-- net.ParseIP, and whether a network contains an address.
pub record Net : Type 1 where
  pub Network : Type 0
  pub Address : Type 0
  pub parse_ip : String → Option Address
  pub contains : Network → Address → Bool

abbrev pub within : (net : Net) → net.Network → Option net.Address → Bool
within net network none = false
within net network (some ip) = net.contains network ip

-- Allowed; a nil network is `none`.
unfoldable pub allowed : (net : Net) → Option net.Network → String → Bool
allowed net none raw = true
allowed net (some network) raw = within net network (net.parse_ip raw)

-- New
unfoldable pub trusting : {S : Type 0} → (net : Net) → net.Network → HandlerFunc S → HandlerFunc S
trusting net network next r w =
    if allowed net (some network) (r.header real_ip_header)
    then next r w
    else (error "forbidden" 403, w)
