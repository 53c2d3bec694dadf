-- ===== src/V2/Keys.antt =====
-- The key slots of v2.rs: sealing the data key under a password, the duress slot, and unlocking.
pub mod Unlocking
use cipher_fs.Base.{
  ℕ, Bool, true, false, Option, none, some, List, [], ◌∷◌, ◌++◌, ltb, ◌==◌, if◌then◌else◌, length,
}
use cipher_fs.Base.Words.{Bytes, codes, bytes_eq}
use cipher_fs.Base.Sort.{sort_by_key_reverse}
use cipher_fs.Errors.{Error, Result, ok, err, ◌>>=◌, ◌>>◌}
use cipher_fs.V2.Types.{
  Argon2Params, KeySlot, DuressSlot, Header, SlotRandom, KeySlot_random_disabled,
  DuressSlot_random_disabled, UnlockResult, unlocked, duress, failed,
}
use cipher_fs.V2.Limits.{validate_header_basic}
use cipher_fs.V2.Crypto.{Crypto, derive_kek, encrypt_aead, decrypt_aead}
use cipher_fs.V2.Aad.{slot_aad, duress_aad}

abbrev pub duress_marker_context : Bytes
duress_marker_context = codes "cipherfs-v2/duress-marker"

-- `.filter(|slot| slot.generation > 0)`
abbrev pub active : List KeySlot → List KeySlot
active [] = []
active (s ∷ slots) = if ltb 0 s.generation then s ∷ active slots else active slots

-- The slots that `unlock` tries, newest generation first.
unfoldable pub candidates : Header → List KeySlot
unfolding sort_by_key_reverse
candidates header =
    sort_by_key_reverse (λ (s : KeySlot). s.generation)
      (active (header.slot_0 ∷ header.slot_1 ∷ []))

-- A data key that opened and has 32 bytes.
abbrev pub usable : Result Bytes → Option Bytes
usable (ok dek) = if length dek == 32 then some dek else none
usable (err e) = none

abbrev pub or_next : Option Bytes → Result (Option Bytes) → Result (Option Bytes)
or_next (some dek) rest = ok (some dek)
or_next none rest = rest

-- A slot before its key is sealed into it.
abbrev pub blank_slot : ℕ → Argon2Params → SlotRandom → KeySlot
blank_slot generation params r = record (KeySlot_random_disabled r) {
  generation = generation;
  params = params;
}

module _ (c : Crypto) where
  unfoldable pub marker : Header → Bytes
  marker header = c.blake3 (duress_marker_context ++ header.container_id)

  -- The header whose duress slot is set, from the bytes of the generator.
  unfoldable pub configure_duress :
      Header → Option Bytes → Argon2Params → SlotRandom → Result Header
  unfolding marker
  configure_duress header none params r =
      ok (record header { duress = record (DuressSlot_random_disabled r) { params = params } })
  configure_duress header (some password) params r =
      let slot = record (DuressSlot_random_disabled r) { params = params; enabled = true } in
      let enabled_header = record header { duress = slot } in
      do
        kek ← derive_kek c password slot.salt slot.params
        encrypted ←
            encrypt_aead c kek slot.nonce (duress_aad enabled_header) (marker enabled_header)
        ok (record enabled_header { duress = record slot { encrypted_marker = encrypted } })

  unfoldable pub make_key_slot :
      Header → Bytes → Bytes → ℕ → Argon2Params → SlotRandom → Result KeySlot
  make_key_slot header password dek generation params r =
      let slot = blank_slot generation params r in
      do
        kek ← derive_kek c password slot.salt slot.params
        encrypted ← encrypt_aead c kek slot.nonce (slot_aad c header slot) dek
        ok (record slot { encrypted_dek = encrypted })

  -- One slot under one password: an error stops `unlock`, `none` goes on to the next slot.
  unfoldable pub try_slot : Header → Bytes → KeySlot → Result (Option Bytes)
  try_slot header password slot = do
    kek ← derive_kek c password slot.salt slot.params
    ok (usable (decrypt_aead c kek slot.nonce (slot_aad c header slot) slot.encrypted_dek))

  unfoldable pub try_slots : Header → Bytes → List KeySlot → Result (Option Bytes)
  unfolding try_slot
  try_slots header password [] = ok none
  try_slots header password (slot ∷ rest) = do
    found ← try_slot header password slot
    or_next found (try_slots header password rest)

  abbrev pub matches_marker : Header → Result Bytes → Bool
  matches_marker header (ok opened) = bytes_eq opened (marker header)
  matches_marker header (err e) = false

  -- The second half of `unlock`, after no slot has opened.
  unfoldable pub unlock_duress : Header → Bytes → Result UnlockResult
  unfolding marker
  unlock_duress header password =
      if header.duress.enabled
      then (do
        kek ← derive_kek c password header.duress.salt header.duress.params
        let opened =
            decrypt_aead c kek header.duress.nonce (duress_aad header)
              header.duress.encrypted_marker
        if matches_marker header opened then ok duress else ok failed)
      else ok failed

  abbrev pub unlock_found : Header → Bytes → Option Bytes → Result UnlockResult
  unlock_found header password (some dek) = ok (unlocked dek)
  unlock_found header password none = unlock_duress header password

  unfoldable pub unlock : Header → Bytes → Result UnlockResult
  unfolding candidates try_slots unlock_duress
  unlock header password = do
    validate_header_basic header none
    found ← try_slots header password (candidates header)
    unlock_found header password found
