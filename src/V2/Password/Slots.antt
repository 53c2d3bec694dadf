-- ===== src/V2/Password/Slots.antt =====
-- The headers that a password change writes: both are valid, and in both the newest slot is the new one.
use cipher_fs.V2.Keys.Unlocking.{make_key_slot-Opens, NewestOpens, Opens}
use cipher_fs.Base.{
  ◌∙◌, length, ℕ, ◌+◌, ◌<◌, ◌≡◌, refl, ap, sym, inl, inr, Bool, true, false, Option, arith,
  Bool-cases,
}
use cipher_fs.Base.Words.{checked_add-eq-some, checked_add, Bytes}
use cipher_fs.Errors.{context-eq-ok, context, ok, >>=-eq-ok}
use cipher_fs.V2.Types.{Argon2Params, KeySlot, Header, SlotRandom, KeySlot_random_disabled}
use cipher_fs.V2.Limits.{validate_header_basic}
use cipher_fs.V2.Limits.HeaderChecks.{IsHeaderSafe, IsArgonSafe, validate_header_basic_iff}
use cipher_fs.V2.Crypto.{IsAead, Crypto, derive_kek, encrypt_aead}
use cipher_fs.V2.Aad.{immutable_aad, slot_aad}
use cipher_fs.V2.Keys.{blank_slot, make_key_slot}
use cipher_fs.V2.Password.{
  next_slot, first_is_inactive, set_inactive, set_previous, previous_slot, highest_generation,
}

module _ (c : Crypto) where
  make_key_slot_fields :
      (h : Header) (password dek : Bytes) (generation : ℕ) (params : Argon2Params) (r : SlotRandom)
      (s : KeySlot)
      → make_key_slot c h password dek generation params r ≡ ok s
      → (s.generation ≡ generation) × (s.params ≡ params)
  unfolding make_key_slot
  make_key_slot_fields h password dek generation params r s e =
      let slot = blank_slot generation params r in
      let (kek, _, e1) = >>=-eq-ok (derive_kek c password slot.salt slot.params) _ e in
      let (encrypted, _, e2) =
        >>=-eq-ok (encrypt_aead c kek slot.nonce (slot_aad c h slot) dek) _ e1 in
      let p : record slot { encrypted_dek = encrypted } ≡ s = cc e2 in
      (ap (λ (x : KeySlot). x.generation) (sym p), ap (λ (x : KeySlot). x.params) (sym p))

  -- The slots of a header do not enter what they authenticate.
  pub slot_aad-set_inactive :
      (b : Bool) (s t : KeySlot) (h : Header) → slot_aad c (set_inactive b s h) t ≡ slot_aad c h t
  unfolding slot_aad
  slot_aad-set_inactive true s t h = unfold immutable_aad in refl
  slot_aad-set_inactive false s t h = unfold immutable_aad in refl

  pub slot_aad-set_previous :
      (b : Bool) (s t : KeySlot) (h : Header) → slot_aad c (set_previous b s h) t ≡ slot_aad c h t
  unfolding slot_aad
  slot_aad-set_previous true s t h = unfold immutable_aad in refl
  slot_aad-set_previous false s t h = unfold immutable_aad in refl

-- The header before the change: valid, with an active slot.
pub record Before (h : Header) (file_len : Option ℕ) : Type 0 where
  pub safe : IsHeaderSafe h file_len
  pub active : 0 < highest_generation h

-- A slot that may take the inactive place: newer than both, with costs that the previous slot had.
pub record IsNext (h : Header) (s : KeySlot) : Type 0 where
  pub generation : s.generation ≡ highest_generation h + 1
  pub params : s.params ≡ (previous_slot (first_is_inactive h) h).params

module _ (h : Header) (file_len : Option ℕ) (before : Before h file_len) (s : KeySlot)
    (next : IsNext h s) where
  previous_safe : IsArgonSafe (previous_slot (first_is_inactive h) h).params
  previous_safe = elim (Bool-cases (first_is_inactive h)) [
    | inl e ↦ rw e (before.safe.slot_1 (ground (arith, before.active)))
    | inr e ↦ rw e (before.safe.slot_0 (ground (arith, before.active)))
  ]

  next_safe : IsArgonSafe s.params
  next_safe = rw next.params previous_safe

  set_inactive-safe : (b : Bool) → IsHeaderSafe (set_inactive b s h) file_len
  set_inactive-safe true =
      let o = before.safe in
      record {
        magic = o.magic;
        version = o.version;
        header_size = o.header_size;
        chunk_size = o.chunk_size;
        index_low = o.index_low;
        index_high = o.index_high;
        entries = o.entries;
        slot_0 = λ g. next_safe;
        slot_1 = o.slot_1;
        duress = o.duress;
        length = o.length;
      }
  set_inactive-safe false =
      let o = before.safe in
      record {
        magic = o.magic;
        version = o.version;
        header_size = o.header_size;
        chunk_size = o.chunk_size;
        index_low = o.index_low;
        index_high = o.index_high;
        entries = o.entries;
        slot_0 = o.slot_0;
        slot_1 = λ g. next_safe;
        duress = o.duress;
        length = o.length;
      }

  pub first_valid : validate_header_basic (set_inactive (first_is_inactive h) s h) file_len ≡ ok tt
  first_valid =
      (validate_header_basic_iff (set_inactive (first_is_inactive h) s h) file_len).1
        (set_inactive-safe (first_is_inactive h))

set_previous-safe :
    (b : Bool) (r : SlotRandom) (h : Header) (file_len : Option ℕ)
    → IsHeaderSafe h file_len
    → IsHeaderSafe (set_previous b (KeySlot_random_disabled r) h) file_len
set_previous-safe true r h file_len o = record {
  magic = o.magic;
  version = o.version;
  header_size = o.header_size;
  chunk_size = o.chunk_size;
  index_low = o.index_low;
  index_high = o.index_high;
  entries = o.entries;
  slot_0 = o.slot_0;
  slot_1 = λ g. absurd (omega arith);
  duress = o.duress;
  length = o.length;
}
set_previous-safe false r h file_len o = record {
  magic = o.magic;
  version = o.version;
  header_size = o.header_size;
  chunk_size = o.chunk_size;
  index_low = o.index_low;
  index_high = o.index_high;
  entries = o.entries;
  slot_0 = λ g. absurd (omega arith);
  slot_1 = o.slot_1;
  duress = o.duress;
  length = o.length;
}

pub second_valid :
    (b : Bool) (r : SlotRandom) (h : Header) (file_len : Option ℕ)
    → validate_header_basic h file_len ≡ ok tt
    → validate_header_basic (set_previous b (KeySlot_random_disabled r) h) file_len ≡ ok tt
second_valid b r h file_len valid =
    (validate_header_basic_iff _ file_len).1
      (set_previous-safe b r h file_len ((validate_header_basic_iff h file_len).0 valid))

module _ (c : Crypto) (h : Header) (s : KeySlot) (password dek : Bytes)
    (newer : highest_generation h < s.generation)
    (opens : (h' : Header)
      → ((t : KeySlot) → slot_aad c h' t ≡ slot_aad c h t)
      → Opens c h' password s dek) where
  pub first_newest : (b : Bool) → NewestOpens c (set_inactive b s h) password dek
  first_newest true =
      inl (opens (set_inactive true s h) (λ t. slot_aad-set_inactive c true s t h), omega arith)
  first_newest false =
      inr (opens (set_inactive false s h) (λ t. slot_aad-set_inactive c false s t h), omega arith)

  pub second_newest :
      (b : Bool) (r : SlotRandom)
      → NewestOpens c (set_previous b (KeySlot_random_disabled r) (set_inactive b s h)) password dek
  second_newest true r = inl (
    opens (set_previous true (KeySlot_random_disabled r) (set_inactive true s h)) (λ t.
        slot_aad-set_previous c true (KeySlot_random_disabled r) t (set_inactive true s h)
        ∙ slot_aad-set_inactive c true s t h),
    omega arith,
  )
  second_newest false r = inr (
    opens (set_previous false (KeySlot_random_disabled r) (set_inactive false s h)) (λ t.
        slot_aad-set_previous c false (KeySlot_random_disabled r) t (set_inactive false s h)
        ∙ slot_aad-set_inactive c false s t h),
    omega arith,
  )

module _ (c : Crypto) (aead : IsAead c) where
  -- What `next_slot` makes: a slot newer than both, which opens to the key in every header with the same
  -- immutable data.
  pub next_slot_lem :
      (h : Header) (password dek : Bytes) (r : SlotRandom) (s : KeySlot)
      → length dek ≡ 32
      → next_slot c h password dek r ≡ ok s
      → IsNext h s
        × ((h' : Header)
            → ((t : KeySlot) → slot_aad c h' t ≡ slot_aad c h t)
            → Opens c h' password s dek)
  unfolding next_slot
  next_slot_lem h password dek r s len e =
      let params = (previous_slot (first_is_inactive h) h).params in
      let (generation, fits, e1) =
        >>=-eq-ok (context (checked_add (highest_generation h) 1) "Keyslot generation overflow") _
          e in
      let (g, _) = checked_add-eq-some _ _ generation (context-eq-ok _ _ fits) in
      let (same_g, same_p) = make_key_slot_fields c h password dek generation params r s e1 in
      (
        record { generation = same_g ∙ g; params = same_p },
        λ h' same.
            make_key_slot-Opens c aead h h' password dek generation params r s (omega arith) len
              same e1,
      )
