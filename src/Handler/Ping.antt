-- ===== src/Handler/Ping.antt =====
-- internal/handler/ping/ping.go: GET /ping. The pinger is `none` without a database; else it says
-- whether the ping succeeded within its three seconds.
use rtmetrics.Base.{Bool, true, false, Option, none, some, List, [], ◌∷◌}
use rtmetrics.Http.{Act, write_header, error}

-- New
unfoldable pub ping : Option Bool → List Act
ping none = error "Database is not configured" 500
ping (some false) = error "Database connection failed" 500
ping (some true) = write_header 200 ∷ []
