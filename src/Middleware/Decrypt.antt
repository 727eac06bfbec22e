-- ===== src/Middleware/Decrypt.antt =====
-- internal/middleware/decrypt/decrypt.go: bodies that the agent encrypted.
use rtmetrics.Base.{String, Bytes, true, Option, none, some, List, ◌==◌, if◌then◌else◌}
use rtmetrics.Http.{Request, Act, error}
use rtmetrics.Api.{World}
use rtmetrics.Crypto.{Rsa, Gcm, decrypt}
use rtmetrics.Middleware.{HandlerFunc, with_body}

-- rsaenc.Header
abbrev pub encrypted_header : String
encrypted_header = "X-Encrypted"

-- rsaenc.HeaderValue
abbrev pub encrypted_value : String
encrypted_value = "1"

abbrev pub decrypted :
    {S : Type 0} → HandlerFunc S → Request → World S → Option Bytes → List Act × World S
decrypted next r w none = (error "failed to decrypt request body" 400, w)
decrypted next r w (some plain) = next (with_body r plain true) w

-- New; a request without the header passes unchanged.
unfoldable pub decrypting : {S : Type 0} → Gcm → Rsa → HandlerFunc S → HandlerFunc S
decrypting gcm priv next r w =
    if r.header encrypted_header == ""
    then next r w
    else if r.body_ok
    then decrypted next r w (decrypt gcm (some priv) r.body)
    else (error "failed to read request body" 400, w)
