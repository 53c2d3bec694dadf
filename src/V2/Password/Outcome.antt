-- ===== src/V2/Password/Outcome.antt =====
-- Whatever goes wrong during a password change, the container stays open to the old or to the new
-- password.
use cipher_fs.Base.{ℕ, ◌<◌, ◌≡◌, refl, inl, inr, Option, none, some, ◌++◌, length, drop, arith}
use cipher_fs.Base.Words.{Bytes}
use cipher_fs.Errors.{ok}
use cipher_fs.Operation.{phase_started, key_derivation, mutation_started}
use cipher_fs.Operation.World.{file-check, World, lift, check, report}
use cipher_fs.V2.Types.{KeySlot, Header, SlotRandom, KeySlot_random_disabled, unlocked}
use cipher_fs.V2.Limits.{validate_header_basic}
use cipher_fs.V2.Limits.HeaderChecks.{validate_header_basic_iff}
use cipher_fs.V2.Aad.{slot_aad}
use cipher_fs.V2.Crypto.{Crypto, IsAead}
use cipher_fs.V2.Keys.{unlock}
use cipher_fs.V2.Keys.Unlocking.{unlock_sound, Opens}
use cipher_fs.V2.Container.{Codec, IsCodec, read_header}
use cipher_fs.V2.Container.Storage.{read_header-eq-ok}
use cipher_fs.V2.Password.{
  refuse_duress, ChangeRandom, first_is_inactive, set_inactive, set_previous, install, next_slot,
  with_old, change_password_inner,
}
use cipher_fs.V2.Password.{highest_generation}
use cipher_fs.V2.Password.Slots.{
  first_newest, second_newest, next_slot_lem, Before, IsNext, first_valid, second_valid,
}
use cipher_fs.V2.Password.Writes.{
  Holds, IsFinal, bind_unchanged, access_written, length_written, writes-IsFinal,
}

-- An unlocked container has an active slot.
unlock_active :
    (c : Crypto) (h : Header) (password dek : Bytes)
    → unlock c h password ≡ ok (unlocked dek)
    → 0 < highest_generation h
unlock_active c h password dek e = elim (unlock_sound c h password dek e) [
  | inl o ↦ omega (arith, o.active)
  | inr o ↦ omega (arith, o.active)
]

module _ (c : Crypto) (codec : Codec) (aead : IsAead c) (law : IsCodec codec) where
  no_length :
      (h : Header) (file_len : Option ℕ)
      → validate_header_basic h file_len ≡ ok tt
      → validate_header_basic h none ≡ ok tt
  no_length h file_len valid =
      let s = (validate_header_basic_iff h file_len).0 valid in
      (validate_header_basic_iff h none).1 (record {
        magic = s.magic;
        version = s.version;
        header_size = s.header_size;
        chunk_size = s.chunk_size;
        index_low = s.index_low;
        index_high = s.index_high;
        entries = s.entries;
        slot_0 = s.slot_0;
        slot_1 = s.slot_1;
        duress = s.duress;
        length = λ len e. cc;
      })

  install-IsFinal :
      (before old new dek : Bytes) (held : Holds c codec before old dek) (s : KeySlot)
      (r : SlotRandom) (w : World)
      → w.file ≡ before
      → Before held.header (some (length before))
      → IsNext held.header s
      → ((h' : Header)
          → ((t : KeySlot) → slot_aad c h' t ≡ slot_aad c held.header t)
          → Opens c h' new s dek)
      → IsFinal c codec before old new dek (install codec held.header s r w)
  unfolding install report
  install-IsFinal before old new dek held s r w same b next opens =
      let h = held.header in
      let inactive = first_is_inactive h in
      let first = set_inactive inactive s h in
      let second = set_previous inactive (KeySlot_random_disabled r) first in
      let big = (read_header-eq-ok codec before h held.read).0 in
      let newer : highest_generation h < s.generation = omega (arith, next.generation) in
      let valid_1 = first_valid h (some (length before)) b s next in
      let valid_2 = second_valid inactive r first (some (length before)) valid_1 in
      let newest_1 = first_newest c h s new dek newer opens inactive in
      let newest_2 = second_newest c h s new dek newer opens inactive r in
      bind_unchanged c codec before old new dek held check _ w same (file-check w) (λ _ w₁ _ same₁.
        writes-IsFinal c codec law before old new dek held first second
          (report mutation_started w₁).1 same₁
          (λ bytes e.
            access_written c codec law first bytes before new dek e big valid_1
              (no_length first _ valid_1) newest_1)
          (λ bytes bytes' e e'.
            let len = length_written c codec law first bytes before e big in
            access_written c codec law second bytes' (bytes ++ drop (length bytes) before) new dek
              e' (rw len big) (rw len valid_2) (no_length second _ valid_2) newest_2))

  with_old-IsFinal :
      (before old new dek : Bytes) (held : Holds c codec before old dek) (r : ChangeRandom)
      (w : World)
      → length dek ≡ 32
      → w.file ≡ before
      → IsFinal c codec before old new dek (with_old c codec held.header new r (unlocked dek) w)
  unfolding with_old
  with_old-IsFinal before old new dek held r w len same =
      let h = held.header in
      let valid = (read_header-eq-ok codec before h held.read).1 in
      let b : Before h (some (length before)) = record {
        safe = (validate_header_basic_iff h (some (length before))).0 valid;
        active = unlock_active c h old dek held.opens;
      } in
      bind_unchanged c codec before old new dek held (lift (next_slot c h new dek r.fresh)) _ w same
        refl
        λ s w₁ made same₁.
          let (next, opens) = next_slot_lem c aead h new dek r.fresh s len made in
          install-IsFinal before old new dek held s r.disabled w₁ same₁ b next opens

  -- If the old password opens the container, then whatever the system refuses and wherever the change is
  -- cancelled, afterwards the container opens to the same key under the old or the new password; it does
  -- under the new one if the change reports success; and every byte behind the header is as it was.
  pub change_password_keeps_access :
      (w : World) (old new dek : Bytes) (r : ChangeRandom)
      → length dek ≡ 32
      → Holds c codec w.file old dek
      → IsFinal c codec w.file old new dek (change_password_inner c codec old new r w)
  unfolding change_password_inner report
  change_password_keeps_access w old new dek r len held =
      bind_unchanged c codec w.file old new dek held check _ w refl (file-check w) λ _ w₁ _ same₁.
        bind_unchanged c codec w.file old new dek held (λ v. (read_header codec v.file, v)) _ w₁
          same₁ refl
          λ header w₂ read₂ same₂.
            let is_held : header ≡ held.header = cc (rw same₁ at read₂, held.read) in
            bind_unchanged c codec w.file old new dek held (report (phase_started key_derivation)) _
              w₂ same₂ refl
              λ _ w₃ _ same₃.
                bind_unchanged c codec w.file old new dek held (lift (unlock c header new)) _ w₃
                  same₃ refl
                  λ u w₄ _ same₄.
                    bind_unchanged c codec w.file old new dek held (lift (refuse_duress u)) _ w₄
                      same₄ refl
                      λ _ w₅ _ same₅.
                        bind_unchanged c codec w.file old new dek held check _ w₅ same₅
                          (file-check w₅)
                          λ _ w₆ _ same₆.
                            bind_unchanged c codec w.file old new dek held
                              (lift (unlock c header old)) (with_old c codec header new r) w₆ same₆
                              refl
                              λ v w₇ opened same₇.
                                let is_unlocked : v ≡ unlocked dek =
                                  cc (rw is_held at opened, held.opens) in
                                rw (is_held, is_unlocked)
                                  (with_old-IsFinal w.file old new dek held r w₇ len same₇)
