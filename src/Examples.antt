-- ===== src/Examples.antt =====
-- Concrete data on which the theorems are applied: small stand-ins for the primitives of cryptography,
-- and containers with one or two files.
pub mod Plain
pub mod Encoding
pub mod Packing
pub mod Extracting
pub mod Frames
pub mod Indexes
pub mod Slots
pub mod Chunks
pub mod Containers
use cipher_fs.Base.{
  ℕ, ◌+◌, ◌-◌, ◌≡◌, refl, Bool, true, false, Option, none, some, List, [], ◌∷◌, ◌++◌, length, take,
  drop, replicate, All, if◌then◌else◌, arith, length-append, length-take, length-replicate,
  take-append_left, drop-append_left,
}
use cipher_fs.Base.Words.{Bytes, IsByte, bytes_eq, bytes_eq_iff}
use cipher_fs.V2.Types.{
  KeySlot, DuressSlot, Header, magic_bytes, version_number, header_bytes, chunk_bytes,
  default_params, tag_bytes,
}
use cipher_fs.V2.Crypto.{Crypto, IsAead}

-- The tag of a key: its first 16 bytes.
abbrev pub tag : Bytes → Bytes
tag key = take 16 (key ++ replicate 16 0)

abbrev pub open_tagged : ℕ → Bytes → Bytes → Option Bytes
open_tagged len key sealed =
    if bytes_eq (drop len sealed) (tag key) then some (take len sealed) else none

abbrev pub toy : Crypto
toy = record {
  argon2_accepts = λ params. true;
  argon2_hash = λ password salt params. some password;
  hkdf_expand = λ salt key info. some key;
  aead_encrypt = λ key nonce aad text. some (text ++ tag key);
  aead_decrypt = λ key nonce aad sealed. open_tagged (length sealed - 16) key sealed;
  blake3 = λ bytes. replicate 32 7;
}

length-tag : (key : Bytes) → length (tag key) ≡ 16
length-tag key =
    let a = length-take 16 (key ++ replicate 16 0) in
    let b : length (key ++ replicate {A = ℕ} 16 0) ≡ length key + 16 =
      length-append key (replicate {A = ℕ} 16 0) in
    omega arith

open_tagged-tag :
    (len : ℕ) (key text : Bytes)
    → len ≡ length text
    → open_tagged len key (text ++ tag key) ≡ some text
open_tagged-tag len key text e =
    let same : bytes_eq (tag key) (tag key) ≡ true = (bytes_eq_iff (tag key) (tag key)).1 refl in
    rw (e, drop-append_left text (tag key), same, take-append_left text (tag key)) refl

pub toy-IsAead : IsAead toy
toy-IsAead = record {
  decrypt-encrypt = λ key nonce aad text sealed h. opens key text sealed h;
  length-encrypt = λ key nonce aad text sealed h. sized key text sealed h;
}
  where
    sized :
        (key text sealed : Bytes)
        → some (text ++ tag key) ≡ some sealed
        → length sealed ≡ length text + tag_bytes
    sized key text sealed h =
        let e : text ++ tag key ≡ sealed = cc in
        let a = length-append text (tag key) in let b = length-tag key in rw⁻¹ e (omega arith)

    opens :
        (key text sealed : Bytes)
        → some (text ++ tag key) ≡ some sealed
        → open_tagged (length sealed - 16) key sealed ≡ some text
    opens key text sealed h =
        let e : text ++ tag key ≡ sealed = cc in
        let a = length-append text (tag key) in
        let b = length-tag key in
        rw⁻¹ e (open_tagged-tag (length (text ++ tag key) - 16) key text (omega arith))
