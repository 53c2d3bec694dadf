-- ===== src/V2/Password/Wipe.antt =====
-- After a wipe no password unlocks the container, and the duress password still answers.
use cipher_fs.V2.Aad.{duress_aad}
use cipher_fs.Base.{◌∙◌, ◌≡◌, refl, ◌≢◌, inl, inr, none, arith}
use cipher_fs.Base.Words.{Bytes}
use cipher_fs.Errors.{ok}
use cipher_fs.V2.Types.{Header, SlotRandom, unlocked, duress}
use cipher_fs.V2.Limits.{validate_header_basic}
use cipher_fs.V2.Limits.HeaderChecks.{validate_header_basic_iff}
use cipher_fs.V2.Crypto.{Crypto}
use cipher_fs.V2.Keys.{try_slots, unlock_duress, unlock}
use cipher_fs.V2.Keys.Unlocking.{unlock_sound}
use cipher_fs.V2.Password.{wiped_header}

module _ (c : Crypto) where
  -- `unlock` on a wiped header never hands out a key, whatever the password and whatever bytes replaced the
  -- slots.
  pub unlock-wiped_header :
      (h : Header) (r_0 r_1 : SlotRandom) (password dek : Bytes)
      → unlock c (wiped_header h r_0 r_1) password ≢ ok (unlocked dek)
  unfolding wiped_header
  unlock-wiped_header h r_0 r_1 password dek e =
      elim (unlock_sound c (wiped_header h r_0 r_1) password dek e) [
        | inl o ↦ absurd (omega (arith, o.active))
        | inr o ↦ absurd (omega (arith, o.active))
      ]

  unlock_duress_same :
      (h : Header) (r_0 r_1 : SlotRandom) (password : Bytes)
      → unlock_duress c (wiped_header h r_0 r_1) password ≡ unlock_duress c h password
  unfolding unlock_duress wiped_header duress_aad
  unlock_duress_same h r_0 r_1 password = refl

  -- A password that opened the duress slot of a valid header is still answered as the duress password
  -- after the wipe.
  pub unlock-wiped_header_duress :
      (h : Header) (r_0 r_1 : SlotRandom) (password : Bytes)
      → validate_header_basic h none ≡ ok tt
      → unlock_duress c h password ≡ ok duress
      → unlock c (wiped_header h r_0 r_1) password ≡ ok duress
  unfolding unlock wiped_header try_slots
  unlock-wiped_header_duress h r_0 r_1 password valid e =
      let h' = wiped_header h r_0 r_1 in
      let s = (validate_header_basic_iff h none).0 valid in
      let valid' : validate_header_basic h' none ≡ ok tt =
        (validate_header_basic_iff h' none).1 (record {
          magic = s.magic;
          version = s.version;
          header_size = s.header_size;
          chunk_size = s.chunk_size;
          index_low = s.index_low;
          index_high = s.index_high;
          entries = s.entries;
          slot_0 = λ g. absurd (omega arith);
          slot_1 = λ g. absurd (omega arith);
          duress = s.duress;
          length = s.length;
        }) in
      rw valid' (unlock_duress_same h r_0 r_1 password ∙ e)
