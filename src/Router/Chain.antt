-- ===== src/Router/Chain.antt =====
-- The request of the agent's SendBatch (internal/agent/client.go), layer by layer through the
-- middleware of createRouter (cmd/server/main.go).
use rtmetrics.Base.{
  String, Bool, ◌≡◌, refl, ap, ◌∙◌, inl, inr, true, false, Option, none, some, List, ◌∷◌, ◌++◌,
  Bytes, codes, ◌==◌, arith, Bool-cases,
}
use rtmetrics.Base.GoMap.{lookup}
use rtmetrics.Service.{MetricsService}
use rtmetrics.Http.{Request}
use rtmetrics.Api.{World}
use rtmetrics.Crypto.{Mac, Rsa, Draw, sign, valid, encrypt}
use rtmetrics.Crypto.RoundTrip.{ReadsHex, IsKeyPair, IsGcm, Fills, valid-sign, decrypt-encrypt}
use rtmetrics.Middleware.{HandlerFunc, with_body}
use rtmetrics.Middleware.Decrypt.{encrypted_header, decrypting}
use rtmetrics.Middleware.Subnet.{allowed, trusting, real_ip_header}
use rtmetrics.Middleware.Sign.{hash_header, signing}
use rtmetrics.Middleware.Compress.{Gzip, compressing, answering, has_prefix}
use rtmetrics.Agent.Client.{
  Client, Route, request_for, header_of, with_mark, with_signature, batch_headers,
}
use rtmetrics.Router.{Library, used, signing_if}

-- Of an answer the middleware changes the calls of the ResponseWriter, not the state.
pub answering-world :
    {S : Type 0} (gzip : Gzip) (next : HandlerFunc S) (r : Request) (w : World S)
    → (answering gzip next r w).1 ≡ (next r w).1
unfolding answering
answering-world gzip next r w = ground arith

-- The client's own two headers leave the others as they are.
header-with_signature :
    (mac : Mac) (payload : Bytes) (hs : List (String × String)) (k : String) (c : Client)
    → (hash_header == k) ≡ false
    → header_of (with_signature mac c payload hs) k ≡ header_of hs k
unfolding lookup
header-with_signature mac payload hs k c no_hash = elim (Bool-cases (c.key == "")) [
  | inl e ↦ rw e refl
  | inr e ↦ rw e (rw no_hash refl)
]

header-with_mark :
    (rsa : Option Rsa) (hs : List (String × String)) (k : String)
    → (encrypted_header == k) ≡ false
    → header_of (with_mark rsa hs) k ≡ header_of hs k
unfolding lookup
header-with_mark none hs k no_mark = refl
header-with_mark (some rsa) hs k no_mark = rw no_mark refl

header_kept :
    (mac : Mac) (payload : Bytes) (hs : List (String × String)) (k : String) (c : Client)
    → (encrypted_header == k) ≡ false
    → (hash_header == k) ≡ false
    → header_of (with_mark c.public_key (with_signature mac c payload hs)) k ≡ header_of hs k
header_kept mac payload hs k c no_mark no_hash =
    header-with_mark c.public_key _ k no_mark ∙ header-with_signature mac payload hs k c no_hash

module _ {S : Type 0} (mac : Mac) (key : String) (next : HandlerFunc S) (r : Request)
    (w : World S) where
  signing-world :
      r.body_ok ≡ true
      → valid mac r.body key (r.header hash_header) ≡ true
      → (signing mac key next r w).1 ≡ (next (with_body r r.body true) w).1
  unfolding signing
  signing-world whole good = ground arith

module _ {S : Type 0} (lib : Library) (svc : MetricsService S) (pinger : Option Bool)
    (trusted : Option lib.net.Network) (c : Client) (via : Route) where
  pub guarded-allowed :
      (t : Option lib.net.Network) (next : HandlerFunc S) (r : Request) (w : World S)
      → allowed lib.net t (r.header real_ip_header) ≡ true
      → used t (trusting lib.net) next r w ≡ next r w
  unfolding trusting
  guarded-allowed none next r w h = refl
  guarded-allowed (some network) next r w h = rw h refl

  -- The request of SendBatch with the body `body`, of which all can be read.
  abbrev batch_request : Bytes → Bytes → Request
  batch_request body json = request_for lib.mac c via "/updates/" batch_headers body json

  pub content_type :
      (body json : Bytes) → (batch_request body json).header "Content-Type" ≡ "application/json"
  unfolding request_for lookup
  content_type body json = header_kept lib.mac json _ "Content-Type" c refl refl

  content_encoding :
      (body json : Bytes) → (batch_request body json).header "Content-Encoding" ≡ "gzip"
  unfolding request_for lookup
  content_encoding body json = header_kept lib.mac json _ "Content-Encoding" c refl refl

  pub real_ip : (body json : Bytes) → (batch_request body json).header real_ip_header ≡ c.real_ip
  unfolding request_for lookup
  real_ip body json = header_kept lib.mac json _ real_ip_header c refl refl

  signature :
      (body json : Bytes)
      → (c.key == "") ≡ false
      → (batch_request body json).header hash_header ≡ sign lib.mac json c.key
  unfolding request_for lookup
  signature body json keyed = header-with_mark c.public_key _ hash_header refl ∙ rw keyed refl

  abbrev base_headers : List (String × String)
  base_headers = batch_headers ++ (real_ip_header, c.real_ip) ∷ via.added

  mark_some :
      (body json : Bytes) (rsa : Rsa)
      → c.public_key ≡ some rsa
      → (batch_request body json).header encrypted_header ≡ "1"
  unfolding request_for lookup
  mark_some body json rsa keyed =
      ap
        (λ rsa'.
          header_of (with_mark rsa' (with_signature lib.mac c json base_headers)) encrypted_header)
        keyed

  -- Decryption hands on the gzip stream.
  pub decrypting-world :
      (next : HandlerFunc S) (d : Draw) (zipped wire json : Bytes) (w : World S)
      (pub_key : Option Rsa)
      → c.public_key ≡ pub_key
      → IsGcm lib.gcm
      → ((k : Rsa) → pub_key ≡ some k → IsKeyPair k)
      → Fills lib.gcm d
      → encrypt lib.gcm pub_key d zipped ≡ some wire
      → used pub_key (decrypting lib.gcm) next (batch_request wire json) w
        ≡ next (batch_request zipped json) w
  unfolding decrypting encrypt request_for
  decrypting-world next d zipped wire json w none key sound pair fills e =
      let same : zipped ≡ wire = cc in rw same refl
  decrypting-world next d zipped wire json w (some rsa) key sound pair fills e =
      let opens = decrypt-encrypt lib.gcm sound (some rsa) d zipped wire pair fills e in
      rw (mark_some wire json rsa key) (rw opens refl)

  -- The compress middleware hands on the JSON.
  pub compressing-world :
      (next : HandlerFunc S) (zipped json : Bytes) (w : World S)
      → lib.gzip.opens zipped ≡ true
      → lib.gzip.inflate zipped ≡ (json, true)
      → (compressing lib.gzip next (batch_request zipped json) w).1
        ≡ (next (batch_request json json) w).1
  unfolding compressing has_prefix codes request_for
  compressing-world next zipped json w opens inflates =
      rw (content_encoding zipped json)
        (rw opens (rw inflates (answering-world lib.gzip next (batch_request json json) w)))

  signing_kept :
      (next : HandlerFunc S) (json : Bytes) (w : World S)
      → ReadsHex lib.mac
      → (c.key == "") ≡ false
      → (signing lib.mac c.key next (batch_request json json) w).1
        ≡ (next (batch_request json json) w).1
  unfolding request_for
  signing_kept next json w reads keyed =
      signing-world lib.mac c.key next (batch_request json json) w refl (
        ap (valid lib.mac json c.key) (signature json json keyed)
        ∙ valid-sign lib.mac reads json c.key)

  -- The signature is valid, so the sign middleware hands the request on.
  pub signing_if-world :
      (next : HandlerFunc S) (json : Bytes) (w : World S)
      → ReadsHex lib.mac
      → (signing_if lib svc pinger trusted c.key next (batch_request json json) w).1
        ≡ (next (batch_request json json) w).1
  signing_if-world next json w reads = elim (Bool-cases (c.key == "")) [
    | inl e ↦ rw e refl
    | inr e ↦ rw e (signing_kept next json w reads e)
  ]
