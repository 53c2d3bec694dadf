-- ===== src/V2/Keys/Unlocking.antt =====
-- What `unlock` answers: the key that a slot was sealed over, and nothing else.
use cipher_fs.Base.{
  ℕ, ◌≤◌, ◌<◌, ◌≡◌, refl, ◌≢◌, ◌⊎◌, inl, inr, Option, none, some, List, [], ◌∷◌, arith, ltb, leb,
  if◌then◌else◌, length,
}
use cipher_fs.Base.Words.{Bytes}
use cipher_fs.Base.Sort.{insert_by_reverse}
use mathlib.Core.Path.{subst}
use cipher_fs.Errors.{Result, ok, >>=-eq-ok, >>-eq-ok}
use cipher_fs.V2.Types.{Argon2Params, KeySlot, Header, SlotRandom, unlocked}
use cipher_fs.V2.Limits.{validate_header_basic}
use cipher_fs.V2.Crypto.{
  Crypto, IsAead, derive_kek, encrypt_aead, decrypt_aead, decrypt_aead-encrypt_aead,
}
use cipher_fs.V2.Aad.{slot_aad}
use cipher_fs.V2.Keys.{
  blank_slot, candidates, usable, or_next, make_key_slot, try_slot, try_slots, unlock_duress,
  unlock_found, unlock,
}

-- The slot opens: its generation counts, and under the password's key it holds this 32-byte key.
pub record Opens (c : Crypto) (h : Header) (password : Bytes) (s : KeySlot) (dek : Bytes)
    : Type 0 where
  pub active : 0 < s.generation
  pub kek : Bytes
  pub derived : derive_kek c password s.salt s.params ≡ ok kek
  pub decrypted : decrypt_aead c kek s.nonce (slot_aad c h s) s.encrypted_dek ≡ ok dek
  pub key_length : length dek ≡ 32

abbrev MemSlot : KeySlot → List KeySlot → Type 0
MemSlot s [] = ⊥
MemSlot s (x ∷ xs) = (s ≡ x) ⊎ MemSlot s xs

module _ (c : Crypto) where
  usable-eq-some :
      (r : Result Bytes) (dek : Bytes) → usable r ≡ some dek → (r ≡ ok dek) × (length dek ≡ 32)
  usable-eq-some r dek h = ground arith

  try_slot-eq-some :
      (h : Header) (password : Bytes) (s : KeySlot) (dek : Bytes)
      → 0 < s.generation
      → try_slot c h password s ≡ ok (some dek)
      → Opens c h password s dek
  unfolding try_slot
  try_slot-eq-some h password s dek g e =
      let (kek, derived, rest) = >>=-eq-ok _ _ e in
      let (decrypted, len) = usable-eq-some _ dek (cc rest) in
      record { active = g; kek = kek; derived = derived; decrypted = decrypted; key_length = len }

  -- An open slot opens when it is tried.
  try_slot-Opens :
      (h : Header) (password : Bytes) (s : KeySlot) (dek : Bytes)
      → Opens c h password s dek
      → try_slot c h password s ≡ ok (some dek)
  unfolding try_slot
  try_slot-Opens h password s dek o = rw (o.derived, o.decrypted) (ground arith)

  or_next-eq-some :
      (found : Option Bytes) (rest : Result (Option Bytes)) (dek : Bytes)
      → or_next found rest ≡ ok (some dek)
      → (found ≡ some dek) ⊎ ((found ≡ none) × (rest ≡ ok (some dek)))
  or_next-eq-some (some d) rest dek h = inl (cc)
  or_next-eq-some none rest dek h = inr (refl, h)

  try_slots-eq-some :
      (h : Header) (password : Bytes) (slots : List KeySlot) (dek : Bytes)
      → try_slots c h password slots ≡ ok (some dek)
      → (s : KeySlot) × MemSlot s slots × (try_slot c h password s ≡ ok (some dek))
  unfolding try_slots
  try_slots-eq-some h password [] dek e = cc
  try_slots-eq-some h password (s ∷ slots) dek e =
      let (found, tried, rest) = >>=-eq-ok (try_slot c h password s) _ e in
      elim (or_next-eq-some found (try_slots c h password slots) dek rest) [
        | inl p ↦ (s, inl refl, rw p at tried)
        | inr (p, q) ↦ let (s', m, t) = try_slots-eq-some h password slots dek q in (s', inr m, t)
      ]

-- `candidates`, written out: the active slots, the newer one first.
pub candidates_lem :
    (h : Header)
    → candidates h ≡ (
        if ltb 0 h.slot_0.generation
        then (if ltb 0 h.slot_1.generation
            then (if leb h.slot_1.generation h.slot_0.generation
                then h.slot_0 ∷ h.slot_1 ∷ []
                else h.slot_1 ∷ h.slot_0 ∷ [])
            else h.slot_0 ∷ [])
        else (if ltb 0 h.slot_1.generation then h.slot_1 ∷ [] else []))
unfolding candidates insert_by_reverse
candidates_lem h = ground arith

candidates_mem :
    (h : Header) (s : KeySlot)
    → MemSlot s (candidates h)
    → ((s ≡ h.slot_0) ⊎ (s ≡ h.slot_1)) × (0 < s.generation)
candidates_mem h s m = let m' = rw (candidates_lem h) at m in ground arith

module _ (c : Crypto) (h : Header) (password : Bytes) where
  unlock_duress-ne-unlocked : (dek : Bytes) → unlock_duress c h password ≢ ok (unlocked dek)
  unfolding unlock_duress
  unlock_duress-ne-unlocked dek e = ground arith

  found-eq-some :
      (found : Option Bytes) (dek : Bytes)
      → unlock_found c h password found ≡ ok (unlocked dek)
      → found ≡ some dek
  found-eq-some (some d) dek e = cc
  found-eq-some none dek e = absurd (unlock_duress-ne-unlocked dek e)

module _ (c : Crypto) where
  -- `unlock` hands out a key only if one of the two slots is active and opens to that key under the
  -- password.
  pub unlock_sound :
      (h : Header) (password dek : Bytes)
      → unlock c h password ≡ ok (unlocked dek)
      → Opens c h password h.slot_0 dek ⊎ Opens c h password h.slot_1 dek
  unfolding unlock
  unlock_sound h password dek e =
      let (_, e1) = >>-eq-ok (validate_header_basic h none) _ e in
      let (found, tried, rest) = >>=-eq-ok (try_slots c h password (candidates h)) _ e1 in
      let some_dek = found-eq-some c h password found dek rest in
      let (s, m, opened) =
        try_slots-eq-some c h password (candidates h) dek (rw some_dek at tried) in
      let (place, act) = candidates_mem h s m in
      let o = try_slot-eq-some c h password s dek act opened in
      elim place [
        | inl p ↦ inl (subst (λ x. Opens c h password x dek) p o)
        | inr p ↦ inr (subst (λ x. Opens c h password x dek) p o)
      ]

  -- The header is valid and its newest slot opens to the key. Of two slots with one generation the
  -- first counts as newer.
  abbrev pub NewestOpens : Header → Bytes → Bytes → Type 0
  NewestOpens h password dek =
      (Opens c h password h.slot_0 dek × (h.slot_1.generation ≤ h.slot_0.generation))
      ⊎ (Opens c h password h.slot_1 dek × (h.slot_0.generation < h.slot_1.generation))

  try_slots_first :
      (h : Header) (password dek : Bytes) (s : KeySlot) (rest : List KeySlot)
      → Opens c h password s dek
      → try_slots c h password (s ∷ rest) ≡ ok (some dek)
  unfolding try_slots
  try_slots_first h password dek s rest o = rw (try_slot-Opens c h password s dek o)

  newest_first :
      (h : Header) (password dek : Bytes)
      → NewestOpens h password dek
      → try_slots c h password (candidates h) ≡ ok (some dek)
  newest_first h password dek (inl (o, le)) = rw candidates_lem (
      ground (
        arith,
        o.active,
        try_slots_first h password dek h.slot_0 (h.slot_1 ∷ []) o,
        try_slots_first h password dek h.slot_0 [] o,
      ))
  newest_first h password dek (inr (o, lt)) = rw candidates_lem (
      ground (
        arith,
        o.active,
        try_slots_first h password dek h.slot_1 (h.slot_0 ∷ []) o,
        try_slots_first h password dek h.slot_1 [] o,
      ))

  -- If the newest slot of a valid header opens under the password, `unlock` hands out its key, whatever
  -- the older slot and the duress slot hold.
  pub unlock_newest :
      (h : Header) (password dek : Bytes)
      → validate_header_basic h none ≡ ok tt
      → NewestOpens h password dek
      → unlock c h password ≡ ok (unlocked dek)
  unfolding unlock
  unlock_newest h password dek valid o = rw (valid, newest_first h password dek o)

  slot_aad-sealed :
      (h : Header) (s : KeySlot) (sealed : Bytes)
      → slot_aad c h (record s { encrypted_dek = sealed }) ≡ slot_aad c h s
  unfolding slot_aad
  slot_aad-sealed h s sealed = refl

  -- At a generation above zero, `make_key_slot` makes a slot that opens to the key of 32 bytes it was
  -- given, under the password it was given, in every header with the same immutable data.
  pub make_key_slot-Opens :
      IsAead c
      → (h h' : Header) (password dek : Bytes) (generation : ℕ) (params : Argon2Params)
        (r : SlotRandom) (s : KeySlot)
      → 0 < generation
      → length dek ≡ 32
      → ((t : KeySlot) → slot_aad c h' t ≡ slot_aad c h t)
      → make_key_slot c h password dek generation params r ≡ ok s
      → Opens c h' password s dek
  unfolding make_key_slot
  make_key_slot-Opens law h h' password dek generation params r s g len same e =
      let slot = blank_slot generation params r in
      let (kek, derived, e1) = >>=-eq-ok (derive_kek c password slot.salt slot.params) _ e in
      let (encrypted, sealed, e2) =
        >>=-eq-ok (encrypt_aead c kek slot.nonce (slot_aad c h slot) dek) _ e1 in
      let full = record slot { encrypted_dek = encrypted } in
      let p : full ≡ s = cc e2 in
      subst (λ x. Opens c h' password x dek) p
        (record {
          active = g;
          kek = kek;
          derived = derived;
          decrypted =
              rw (same full, slot_aad-sealed h slot encrypted)
                (decrypt_aead-encrypt_aead law kek slot.nonce (slot_aad c h slot) dek encrypted
                  sealed);
          key_length = len;
        })
