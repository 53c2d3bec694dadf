-- ===== src/V2/Crypto.antt =====
-- The cryptographic primitives that v2.rs calls (the argon2, hkdf, chacha20poly1305 and blake3 crates)
-- as a parameter, and the functions of v2.rs that wrap them.
use cipher_fs.Base.{◌+◌, ◌≡◌, Bool, Option, some, ◌++◌, not, length}
use cipher_fs.Base.Words.{Bytes, codes}
use cipher_fs.Errors.{context-eq-ok, Result, ok, ◌>>◌, bail_if, context}
use cipher_fs.V2.Types.{Argon2Params, tag_bytes}
use cipher_fs.V2.Limits.{validate_argon2}

pub record Crypto : Type 0 where
  -- `Params::new` accepts the costs, and `hash_password_into` from password and salt.
  pub argon2_accepts : Argon2Params → Bool
  pub argon2_hash : Bytes → Bytes → Argon2Params → Option Bytes
  -- `Hkdf::<Sha256>::new(Some(salt), key).expand(info)`
  pub hkdf_expand : Bytes → Bytes → Bytes → Option Bytes
  -- `ChaCha20Poly1305` at key, nonce, associated data and message.
  pub aead_encrypt : Bytes → Bytes → Bytes → Bytes → Option Bytes
  pub aead_decrypt : Bytes → Bytes → Bytes → Bytes → Option Bytes
  pub blake3 : Bytes → Bytes

-- What the documentation of the AEAD promises: a ciphertext opens under the key, nonce and data that
-- sealed it, and is one tag longer than the message.
pub record IsAead (c : Crypto) : Type 0 where
  pub decrypt-encrypt :
      (key nonce aad text sealed : Bytes)
      → c.aead_encrypt key nonce aad text ≡ some sealed
      → c.aead_decrypt key nonce aad sealed ≡ some text
  pub length-encrypt :
      (key nonce aad text sealed : Bytes)
      → c.aead_encrypt key nonce aad text ≡ some sealed
      → length sealed ≡ length text + tag_bytes

module _ (c : Crypto) where
  unfoldable pub derive_kek : Bytes → Bytes → Argon2Params → Result Bytes
  derive_kek password salt params = do
    validate_argon2 params
    bail_if (not (c.argon2_accepts params)) "Invalid Argon2 parameters"
    context (c.argon2_hash password salt params) "Argon2 failed"

  unfoldable pub hkdf_key : Bytes → Bytes → Bytes → Result Bytes
  hkdf_key dek container_id info =
      context (c.hkdf_expand container_id dek info) "HKDF output length is invalid"

  unfoldable pub derive_index_key : Bytes → Bytes → Result Bytes
  unfolding hkdf_key
  derive_index_key dek container_id = hkdf_key dek container_id (codes "cipherfs-v2/index-key")

  unfoldable pub derive_file_key : Bytes → Bytes → Bytes → Result Bytes
  unfolding hkdf_key
  derive_file_key dek container_id file_id =
      hkdf_key dek container_id (codes "cipherfs-v2/file-key" ++ file_id)

  unfoldable pub encrypt_aead : Bytes → Bytes → Bytes → Bytes → Result Bytes
  encrypt_aead key nonce aad text = context (c.aead_encrypt key nonce aad text) "Encryption failed"

  unfoldable pub decrypt_aead : Bytes → Bytes → Bytes → Bytes → Result Bytes
  decrypt_aead key nonce aad text =
      context (c.aead_decrypt key nonce aad text) "Authentication failed"

module _ {c : Crypto} (law : IsAead c) where
  pub decrypt_aead-encrypt_aead :
      (key nonce aad text sealed : Bytes)
      → encrypt_aead c key nonce aad text ≡ ok sealed
      → decrypt_aead c key nonce aad sealed ≡ ok text
  unfolding encrypt_aead decrypt_aead
  decrypt_aead-encrypt_aead key nonce aad text sealed h =
      rw (law.decrypt-encrypt key nonce aad text sealed (context-eq-ok _ _ h))

  pub length-encrypt_aead :
      (key nonce aad text sealed : Bytes)
      → encrypt_aead c key nonce aad text ≡ ok sealed
      → length sealed ≡ length text + tag_bytes
  unfolding encrypt_aead
  length-encrypt_aead key nonce aad text sealed h =
      law.length-encrypt key nonce aad text sealed (context-eq-ok _ _ h)
