-- ===== src/V2/Aad/Domains.antt =====
-- No associated data of one kind can stand for another kind's: the kinds differ in length.
use cipher_fs.Base.{ℕ, ◌≡◌, ◌≢◌, ap, length, length-append, arith}
use cipher_fs.Base.Words.{Bytes, length-le_bytes}
use cipher_fs.V2.Types.{KeySlot, Header, Entry}
use cipher_fs.V2.Typed.{IsSlotTyped, IsHeaderTyped, IsEntryTyped}
use cipher_fs.V2.Crypto.{Crypto}
use cipher_fs.V2.Aad.{immutable_aad, slot_aad, index_aad, duress_aad, chunk_aad}
use cipher_fs.V2.Aad.Binding.{length-argon_bytes}

-- `blake3::hash` has 32 bytes.
abbrev pub IsHash : Crypto → Type 0
IsHash c = (text : Bytes) → length (c.blake3 text) ≡ 32

module _ (c : Crypto) (hash : IsHash c) where
  length-immutable_aad : (h : Header) → IsHeaderTyped h → length (immutable_aad c h) ≡ 139
  unfolding immutable_aad
  length-immutable_aad h t = simp (
    length-append, length-le_bytes, t.magic.0, t.container_id.0, t.index_nonce.0, t.duress.salt.0,
    t.duress.nonce.0, hash,
  )

  length-slot_aad :
      (h : Header) (s : KeySlot) → IsHeaderTyped h → IsSlotTyped s → length (slot_aad c h s) ≡ 196
  unfolding slot_aad
  length-slot_aad h s t ts = simp (
    length-append,
    length-le_bytes,
    length-argon_bytes,
    length-immutable_aad h t,
    ts.salt.0,
    ts.nonce.0,
  )

  length-index_aad : (h : Header) → IsHeaderTyped h → length (index_aad c h) ≡ 145
  unfolding index_aad
  length-index_aad h t = simp (length-append, length-immutable_aad h t)

length-duress_aad : (h : Header) → IsHeaderTyped h → length (duress_aad h) ≡ 106
unfolding duress_aad
length-duress_aad h t = simp (
  length-append, length-le_bytes, length-argon_bytes, t.magic.0, t.container_id.0, t.duress.salt.0,
  t.duress.nonce.0,
)

length-chunk_aad :
    (h : Header) (e : Entry) (i len : ℕ)
    → IsHeaderTyped h
    → IsEntryTyped e
    → length (chunk_aad h e i len) ≡ 70
unfolding chunk_aad
length-chunk_aad h e i len t te =
    simp (length-append, length-le_bytes, t.magic.0, t.container_id.0, te.file_id.0)

module _ (c : Crypto) (hash : IsHash c) where
  -- The associated data of a key slot, the index, the duress slot and a chunk are never the same bytes,
  -- whatever headers, slot and entry they are made from.
  pub aad_domains :
      (h₀ h₁ h₂ h₃ : Header) (s : KeySlot) (e : Entry) (i len : ℕ)
      → IsHeaderTyped h₀
      → IsHeaderTyped h₁
      → IsHeaderTyped h₂
      → IsHeaderTyped h₃
      → IsSlotTyped s
      → IsEntryTyped e
      → (slot_aad c h₀ s ≢ index_aad c h₁)
        × (slot_aad c h₀ s ≢ duress_aad h₂)
        × (slot_aad c h₀ s ≢ chunk_aad h₃ e i len)
        × (index_aad c h₁ ≢ duress_aad h₂)
        × (index_aad c h₁ ≢ chunk_aad h₃ e i len)
        × (duress_aad h₂ ≢ chunk_aad h₃ e i len)
  aad_domains h₀ h₁ h₂ h₃ s e i len t₀ t₁ t₂ t₃ ts te =
      let slot = length-slot_aad c hash h₀ s t₀ ts in
      let index = length-index_aad c hash h₁ t₁ in
      let marker = length-duress_aad h₂ t₂ in
      let chunk = length-chunk_aad h₃ e i len t₃ te in
      (
        λ p. omega (arith, ap (length {A = ℕ}) p),
        λ p. omega (arith, ap (length {A = ℕ}) p),
        λ p. omega (arith, ap (length {A = ℕ}) p),
        λ p. omega (arith, ap (length {A = ℕ}) p),
        λ p. omega (arith, ap (length {A = ℕ}) p),
        λ p. omega (arith, ap (length {A = ℕ}) p),
      )
