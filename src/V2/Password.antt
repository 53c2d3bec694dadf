-- ===== src/V2/Password.antt =====
-- Changing the master password, and the wipe that the duress password triggers.
pub mod Wipe
pub mod Slots
pub mod Writes
pub mod Outcome
use cipher_fs.Base.{ℕ, ◌-◌, Bool, true, false, leb, max, if◌then◌else◌, List, [], ◌∷◌}
use cipher_fs.Base.Words.{Bytes, checked_add}
use cipher_fs.Errors
use cipher_fs.Errors.{Result, ok, err, bail, context}
use cipher_fs.Operation.{OperationEvent, phase_started, mutation_started, key_derivation, map_typed}
use cipher_fs.Operation.World.{World, Op, ◌>>=◌, ◌>>◌, lift, check, report}
use cipher_fs.V2.Types.{
  Argon2Params, KeySlot, Header, SlotRandom, KeySlot_random_disabled, UnlockResult, unlocked,
  duress, failed,
}
use cipher_fs.V2.Crypto.{Crypto}
use cipher_fs.V2.Keys.{make_key_slot, unlock}
use cipher_fs.V2.Container.{Codec, read_header, write_header}

-- What the generator hands out in one change: a new slot, the slot that replaces the old one, and the two
-- slots of a wipe.
pub record ChangeRandom : Type 0 where
  pub fresh : SlotRandom
  pub disabled : SlotRandom
  pub wiped_0 : SlotRandom
  pub wiped_1 : SlotRandom

-- `slots[0].generation <= slots[1].generation`: slot 0 is the inactive one.
abbrev pub first_is_inactive : Header → Bool
first_is_inactive header = leb header.slot_0.generation header.slot_1.generation

-- `header.slots[inactive] = slot` and `header.slots[previous] = slot`, by the first header's choice.
abbrev pub set_inactive : Bool → KeySlot → Header → Header
set_inactive true slot header = record header { slot_0 = slot }
set_inactive false slot header = record header { slot_1 = slot }

abbrev pub set_previous : Bool → KeySlot → Header → Header
set_previous true slot header = record header { slot_1 = slot }
set_previous false slot header = record header { slot_0 = slot }

abbrev pub previous_slot : Bool → Header → KeySlot
previous_slot true header = header.slot_1
previous_slot false header = header.slot_0

abbrev pub highest_generation : Header → ℕ
highest_generation header = max header.slot_0.generation header.slot_1.generation

-- One slot of the wiped header: its costs stay.
abbrev pub wiped_slot : SlotRandom → KeySlot → KeySlot
wiped_slot r slot = record slot {
  generation = 0;
  salt = r.salt;
  nonce = r.nonce;
  encrypted_dek = r.sealed;
}

unfoldable pub wiped_header : Header → SlotRandom → SlotRandom → Header
wiped_header header r_0 r_1 = record header {
  slot_0 = wiped_slot r_0 header.slot_0;
  slot_1 = wiped_slot r_1 header.slot_1;
}

module _ (c : Crypto) where
  -- The new slot: one generation above both, with the costs of the slot that stays.
  unfoldable pub next_slot : Header → Bytes → Bytes → SlotRandom → Result KeySlot
  next_slot header new_password dek r =
      Errors.◌>>=◌
        (context (checked_add (highest_generation header) 1) "Keyslot generation overflow")
        λ generation.
          make_key_slot c header new_password dek generation
            (previous_slot (first_is_inactive header) header).params r

module _ (codec : Codec) where
  unfoldable pub wipe_for_duress : Header → SlotRandom → SlotRandom → Op (Unit {0})
  unfolding wiped_header
  wipe_for_duress header r_0 r_1 = write_header codec (wiped_header header r_0 r_1)

  -- The end of the change: the header with the new slot is written first, and then the one without the
  -- previous slot.
  unfoldable pub install : Header → KeySlot → SlotRandom → Op (Unit {0})
  install header slot r =
      let first = set_inactive (first_is_inactive header) slot header in
      do
        check
        report mutation_started
        write_header codec first
        write_header codec
            (set_previous (first_is_inactive header) (KeySlot_random_disabled r) first)

-- The new password must not open the duress slot.
abbrev pub refuse_duress : UnlockResult → Result (Unit {0})
refuse_duress duress = bail "New master password must differ from the configured Duress password"
refuse_duress u = ok tt

module _ (c : Crypto) (codec : Codec) where
  -- The `match` on what the old password unlocks.
  unfoldable pub with_old : Header → Bytes → ChangeRandom → UnlockResult → Op (Unit {0})
  unfolding wipe_for_duress next_slot install
  with_old header new_password r (unlocked dek) = do
    slot ← lift (next_slot c header new_password dek r.fresh)
    install codec header slot r.disabled
  with_old header new_password r duress = do
    check
    report mutation_started
    wipe_for_duress codec header r.wiped_0 r.wiped_1
    lift (bail "Unable to unlock container (wrong password or damage)")
  with_old header new_password r failed =
      lift (bail "Unable to unlock container (wrong password or damage)")

  unfoldable pub change_password_inner : Bytes → Bytes → ChangeRandom → Op (Unit {0})
  unfolding with_old
  change_password_inner old_password new_password r = do
    check
    header ← λ w. (read_header codec w.file, w)
    report (phase_started key_derivation)
    new_unlock ← lift (unlock c header new_password)
    lift (refuse_duress new_unlock)
    check
    old_unlock ← lift (unlock c header old_password)
    with_old header new_password r old_unlock

  unfoldable pub change_password_with_control : Bytes → Bytes → ChangeRandom → Op (Unit {0})
  unfolding change_password_inner
  change_password_with_control old_password new_password r w =
      let (result, w') = change_password_inner old_password new_password r w in
      (map_typed result, w')
