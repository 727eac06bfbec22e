-- ===== src/Crypto/RoundTrip.antt =====
-- What was signed is valid, and what was encrypted decrypts (internal/hash, internal/rsaenc).
use rtmetrics.Base.{
  ℕ, String, true, false, Option, none, some, List, [], ◌∷◌, ◌++◌, ltb, length, take, drop, Bytes,
  codes, arith, ◌≡◌, refl, ap, sym, ◌∙◌, length-append,
}
use rtmetrics.Crypto.{
  Mac, Rsa, Gcm, Draw, bytes_eq, sign, valid, seal_aes_gcm, open_aes_gcm, encrypt, decrypt,
  with_key, with_draw, opened,
}

-- DecodeString reads what EncodeToString wrote of a sum.
abbrev pub ReadsHex : Mac → Type 0
ReadsHex mac = (key text : Bytes) → mac.unhex (mac.hex (mac.sum key text)) ≡ some (mac.sum key text)

bytes_eq_refl : (b : Bytes) → bytes_eq b b ≡ true
unfolding bytes_eq
bytes_eq_refl [] = refl
bytes_eq_refl (b ∷ bs) = ground (arith, bytes_eq_refl bs)

pub valid-sign :
    (mac : Mac)
    → ReadsHex mac
    → (text : Bytes) (key : String) → valid mac text key (sign mac text key) ≡ true
unfolding valid sign
valid-sign mac reads text key =
    rw (reads (codes key) text, valid) (bytes_eq_refl (mac.sum (codes key) text))

-- OAEP makes texts of the size of the key, which the other key of the pair decrypts.
abbrev pub IsKeyPair : Rsa → Type 0
IsKeyPair rsa =
    (random : ℕ) (m c : Bytes)
    → rsa.encrypt_oaep random m ≡ some c
    → (length c ≡ rsa.size) × (rsa.decrypt_oaep c ≡ some m)

-- GCM opens what it sealed under the same key and nonce.
abbrev pub IsGcm : Gcm → Type 0
IsGcm gcm = (key nonce text : Bytes) → gcm.unseal key nonce (gcm.seal key nonce text) ≡ some text

-- rand.Read fills the buffers, of 32 bytes and of the size of a nonce.
abbrev pub Fills : Gcm → Draw → Type 0
Fills gcm d =
    (key : Bytes) × (nonce : Bytes) × (d.aes_key ≡ some key)
    × (d.nonce ≡ some nonce)
    × (length key ≡ 32)
    × (length nonce ≡ gcm.nonce_size)

module _ {ℓ} {A : Type ℓ} where
  take_of_append : (xs ys : List A) → take (length xs) (xs ++ ys) ≡ xs
  take_of_append [] ys = refl
  take_of_append (x ∷ xs) ys = rw (take_of_append xs ys)

  drop_of_append : (xs ys : List A) → drop (length xs) (xs ++ ys) ≡ ys
  drop_of_append [] ys = refl
  drop_of_append (x ∷ xs) ys = drop_of_append xs ys

module _ (gcm : Gcm) (sound : IsGcm gcm) where
  opened_again :
      (key nonce text : Bytes)
      → length key ≡ 32
      → length nonce ≡ gcm.nonce_size
      → opened gcm (some key) (nonce ++ gcm.seal key nonce text) ≡ some text
  unfolding open_aes_gcm
  opened_again key nonce text h n =
      let sealed = gcm.seal key nonce text in
      let long = length-append nonce sealed in
      let cut : take gcm.nonce_size (nonce ++ sealed) ≡ nonce =
        rw (← n) (take_of_append nonce sealed) in
      let left : drop gcm.nonce_size (nonce ++ sealed) ≡ sealed =
        rw (← n) (drop_of_append nonce sealed) in
      ground (arith, h, n, long, cut, left, sound key nonce text)

  with_key-shape :
      (d : Draw) (key nonce text c : Bytes) (o : Option Bytes)
      → d.nonce ≡ some nonce
      → length key ≡ 32
      → with_key gcm d key text o ≡ some c
      → (k : Bytes) × (o ≡ some k) × (k ++ (nonce ++ gcm.seal key nonce text) ≡ c)
  unfolding seal_aes_gcm
  with_key-shape d key nonce text c none drawn h e = cc
  with_key-shape d key nonce text c (some k) drawn h e = (k, refl, ground (arith, drawn, h))

  decrypt-layout :
      (rsa : Rsa) (k rest key : Bytes)
      → length k ≡ rsa.size
      → rsa.decrypt_oaep k ≡ some key
      → decrypt gcm (some rsa) (k ++ rest) ≡ opened gcm (some key) rest
  unfolding decrypt
  decrypt-layout rsa k rest key long back =
      let front : take rsa.size (k ++ rest) ≡ k = rw (← long) (take_of_append k rest) in
      let behind : drop rsa.size (k ++ rest) ≡ rest = rw (← long) (drop_of_append k rest) in
      let enough : ltb (length (k ++ rest)) rsa.size ≡ false =
        ground (arith, length-append k rest, long) in
      rw enough (rw (front, behind) (rw back refl))

  -- What Encrypt made under the public key Decrypt opens under the private one, and without a key both
  -- leave the text as it is. (The keys are a pair, GCM is sound, and the random source fills the
  -- buffers.)
  pub decrypt-encrypt :
      (rsa : Option Rsa) (d : Draw) (text c : Bytes)
      → ((k : Rsa) → rsa ≡ some k → IsKeyPair k)
      → Fills gcm d
      → encrypt gcm rsa d text ≡ some c
      → decrypt gcm rsa c ≡ some text
  unfolding encrypt decrypt
  decrypt-encrypt none d text c pair fills e = cc
  decrypt-encrypt (some rsa) d text c pair (key, nonce, drawn, other, h, n) e =
      let (k, encrypted, shape) =
        with_key-shape d key nonce text c (rsa.encrypt_oaep d.oaep key) other h
          (ap (with_draw gcm rsa d text) (sym drawn) ∙ e) in
      let (long, back) = pair rsa refl d.oaep key k encrypted in
      ap (decrypt gcm (some rsa)) (sym shape)
      ∙ decrypt-layout rsa k (nonce ++ gcm.seal key nonce text) key long back
      ∙ opened_again key nonce text h n
