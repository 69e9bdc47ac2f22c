-- ===== src/CardLock/Recovery.antt =====
-- An escrow opens with its password, and what opens is valid.
use nuri_passkey_prf_smartca.Base.{
  none, some, Bytes, ◌≡◌, refl, ◌∙◌, if◌then◌else◌, length, from_hex, All, IsByte, from_hex-to_hex,
}
use nuri_passkey_prf_smartca.CardLock.Escrow.{
  escrow_format, Payload, Envelope, scrypt_params, validate_payload, Cipher, sealed_envelope,
  encrypt, open_envelope, decrypt,
}

module _ {K : Type 0} (cipher : Cipher K) where
  -- What is documented of json, which reads back the two values that it writes, and of AES-GCM, which
  -- opens with the tag of 16 bytes what it sealed.
  pub record Documented (salt nonce password : Bytes) (p : Payload) : Type 0 where
    pub json_payload : cipher.load_payload (cipher.dump_payload p) ≡ some p
    pub json_envelope :
        cipher.load_envelope (cipher.dump_envelope (sealed_envelope cipher salt nonce p password))
        ≡ some (sealed_envelope cipher salt nonce p password)
    pub gcm :
        (k : K) (aad : Bytes)
        → let (ciphertext, tag) = cipher.seal k nonce aad (cipher.dump_payload p) in
          (length tag ≡ 16)
          × All IsByte ciphertext
          × All IsByte tag
          × (cipher.unseal k nonce aad ciphertext tag ≡ some (cipher.dump_payload p))

  -- An envelope of this format, whose four fields decode, is opened by them.
  decrypt-envelope :
      (content password : Bytes) (e : Envelope)
      → cipher.load_envelope content ≡ some e
      → e.format ≡ escrow_format
      → e.kdf ≡ scrypt_params
      → decrypt cipher content password
        ≡ open_envelope cipher
            (from_hex e.salt)
            (from_hex e.nonce)
            (from_hex e.tag)
            (from_hex e.ciphertext)
            password
  unfolding decrypt
  decrypt-envelope content password e l f k = rw (l, decrypt) (rw (f, k) refl)

  open_envelope-sealed :
      (salt nonce tag ciphertext password plain : Bytes) (p : Payload)
      → length salt ≡ 32
      → length nonce ≡ 12
      → length tag ≡ 16
      → cipher.unseal (cipher.scrypt password salt) nonce escrow_format ciphertext tag ≡ some plain
      → cipher.load_payload plain ≡ some p
      → open_envelope cipher (some salt) (some nonce) (some tag) (some ciphertext) password
        ≡ (if validate_payload p then some p else none)
  unfolding open_envelope
  open_envelope-sealed salt nonce tag ciphertext password plain p sl nl tl u l =
      rw (sl, nl, tl) (rw u (rw l refl))

  -- Under the documented behaviour of json and AES-GCM, what `encrypt` writes, with a salt of 32 random
  -- bytes and a nonce of 12, `decrypt` opens under the same password to just the payload, if that is
  -- valid; and to nothing, if it is not.
  pub decrypt-encrypt :
      (salt nonce password : Bytes) (p : Payload)
      → Documented salt nonce password p
      → length salt ≡ 32
      → All IsByte salt
      → length nonce ≡ 12
      → All IsByte nonce
      → decrypt cipher (encrypt cipher salt nonce p password) password
        ≡ (if validate_payload p then some p else none)
  unfolding encrypt sealed_envelope
  decrypt-encrypt salt nonce password p d sl sb nl nb =
      let k = cipher.scrypt password salt in
      let (tl, cb, tb, u) = d.gcm k escrow_format in
      decrypt-envelope _ password (sealed_envelope cipher salt nonce p password) d.json_envelope
        refl refl
      ∙ rw
          (
            from_hex-to_hex salt sb,
            from_hex-to_hex nonce nb,
            from_hex-to_hex _ cb,
            from_hex-to_hex _ tb,
          )
          (open_envelope-sealed salt nonce _ _ password _ p sl nl tl u d.json_payload)
