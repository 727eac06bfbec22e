-- ===== src/Crypto.antt =====
-- internal/hash/hash.go and internal/rsaenc/rsaenc.go: the signature of a body, and the format of an
-- encrypted body. HMAC-SHA256, hexadecimal, RSA-OAEP and AES-GCM are arguments.
pub mod RoundTrip
use rtmetrics.Base.{
  ℕ, String, Bool, true, false, ◌&&◌, ◌||◌, Option, none, some, List, [], ◌∷◌, ◌++◌, if◌then◌else◌,
  nat_eq, ltb, length, take, drop, Bytes, codes,
}

-- crypto/hmac over crypto/sha256, and encoding/hex.
pub record Mac : Type 0 where
  pub sum : Bytes → Bytes → Bytes
  pub hex : Bytes → String
  pub unhex : String → Option Bytes

-- hmac.Equal
unfoldable pub bytes_eq : Bytes → Bytes → Bool
bytes_eq [] [] = true
bytes_eq [] (b ∷ bs) = false
bytes_eq (a ∷ rest_a) [] = false
bytes_eq (a ∷ rest_a) (b ∷ bs) = let rest = bytes_eq rest_a bs in nat_eq a b && rest

-- Sign
unfoldable pub sign : Mac → Bytes → String → String
sign mac text key = mac.hex (mac.sum (codes key) text)

-- Valid
unfoldable pub valid : Mac → Bytes → String → String → Bool
valid mac text key signature = elim (mac.unhex signature) [
  | none ↦ false
  | some got ↦ bytes_eq got (mac.sum (codes key) text)
]

-- The public and the private key of one pair: OAEP encryption draws on a random source, which is its
-- first argument.
pub record Rsa : Type 0 where
  pub size : ℕ
  pub encrypt_oaep : ℕ → Bytes → Option Bytes
  pub decrypt_oaep : Bytes → Option Bytes

-- cipher.NewGCM over aes.NewCipher, which refuses a key of another length than 16, 24 or 32.
pub record Gcm : Type 0 where
  pub nonce_size : ℕ
  pub seal : Bytes → Bytes → Bytes → Bytes
  pub unseal : Bytes → Bytes → Bytes → Option Bytes

-- What the random source gives in one call of Encrypt; `none` is an error.
pub record Draw : Type 0 where
  pub aes_key : Option Bytes
  pub nonce : Option Bytes
  pub oaep : ℕ

abbrev pub is_aes_key : Bytes → Bool
is_aes_key key = nat_eq (length key) 16 || (nat_eq (length key) 24 || nat_eq (length key) 32)

module _ (gcm : Gcm) where
  -- sealAESGCM
  unfoldable pub seal_aes_gcm : Option Bytes → Bytes → Bytes → Option (Bytes × Bytes)
  seal_aes_gcm none aes_key plaintext = none
  seal_aes_gcm (some nonce) aes_key plaintext =
      if is_aes_key aes_key then some (nonce, gcm.seal aes_key nonce plaintext) else none

  -- openAESGCM
  unfoldable pub open_aes_gcm : Bytes → Bytes → Option Bytes
  open_aes_gcm aes_key rest =
      if is_aes_key aes_key
      then if ltb (length rest) gcm.nonce_size
        then none
        else gcm.unseal aes_key (take gcm.nonce_size rest) (drop gcm.nonce_size rest)
      else none

  -- out
  abbrev pub joined : Bytes → Option (Bytes × Bytes) → Option Bytes
  joined enc_key none = none
  joined enc_key (some (nonce, sealed)) = some (enc_key ++ (nonce ++ sealed))

  abbrev pub with_key : Draw → Bytes → Bytes → Option Bytes → Option Bytes
  with_key d aes_key plaintext none = none
  with_key d aes_key plaintext (some enc_key) =
      joined enc_key (seal_aes_gcm d.nonce aes_key plaintext)

  abbrev pub with_draw : Rsa → Draw → Bytes → Option Bytes → Option Bytes
  with_draw rsa d plaintext none = none
  with_draw rsa d plaintext (some aes_key) =
      with_key d aes_key plaintext (rsa.encrypt_oaep d.oaep aes_key)

  -- Encrypt; a nil key is `none`.
  unfoldable pub encrypt : Option Rsa → Draw → Bytes → Option Bytes
  encrypt none d plaintext = some plaintext
  encrypt (some rsa) d plaintext = with_draw rsa d plaintext d.aes_key

  abbrev pub opened : Option Bytes → Bytes → Option Bytes
  opened none rest = none
  opened (some aes_key) rest =
      if nat_eq (length aes_key) 32 then open_aes_gcm aes_key rest else none

  -- Decrypt
  unfoldable pub decrypt : Option Rsa → Bytes → Option Bytes
  decrypt none ciphertext = some ciphertext
  decrypt (some rsa) ciphertext =
      if ltb (length ciphertext) rsa.size
      then none
      else opened (rsa.decrypt_oaep (take rsa.size ciphertext)) (drop rsa.size ciphertext)
