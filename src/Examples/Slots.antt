-- ===== src/Examples/Slots.antt =====
-- Headers with key slots: unlocking, wiping and changing the password.
use cipher_fs.Base.{
  ℕ, ◌≡◌, ◌≢◌, ◌⊎◌, inl, refl, [], ◌∷◌, ◌++◌, replicate, none, arith, All, zero, suc,
  length-replicate, true,
}
use cipher_fs.Base.Words.{bytes_eq, Bytes, IsByte, IsArray}
use cipher_fs.Errors.{ok}
use cipher_fs.V2.Types.{Header, KeySlot, SlotRandom, unlocked, duress, default_params}
use cipher_fs.V2.Typed.{IsHeaderTyped, IsSlotTyped, IsParamsTyped, IsEntryTyped}
use cipher_fs.V2.Limits.{validate_argon2, validate_header_basic}
use cipher_fs.V2.Limits.HeaderChecks.{validate_header_basic_iff, IsHeaderSafe}
use cipher_fs.V2.Crypto.{encrypt_aead, decrypt_aead, derive_kek}
use cipher_fs.V2.Aad.{slot_aad, index_aad, duress_aad, chunk_aad}
use cipher_fs.V2.Aad.Binding.{chunk_aad-inj}
use cipher_fs.V2.Aad.Domains.{aad_domains}
use cipher_fs.V2.Keys.{unlock, unlock_duress, make_key_slot}
use cipher_fs.V2.Keys.Unlocking.{Opens, unlock_sound, unlock_newest, make_key_slot-Opens}
use cipher_fs.V2.Password.{wiped_header}
use cipher_fs.V2.Password.Wipe.{unlock-wiped_header}
use cipher_fs.Examples.{toy, toy-IsAead, tag}
use cipher_fs.Examples.Indexes.{plain_header, closed_slot, no_duress, notes}

abbrev pub data_key : Bytes
data_key = replicate 32 9

abbrev pub old_password : Bytes
old_password = 1 ∷ []

abbrev pub duress_password : Bytes
duress_password = 3 ∷ []

abbrev pub open_slot : KeySlot
open_slot = record closed_slot { generation = 1; encrypted_dek = data_key ++ tag old_password }

abbrev pub keyed_header : Header
keyed_header = record (plain_header 0 1) {
  slot_0 = open_slot;
  duress = record no_duress {
    enabled = true;
    encrypted_marker = replicate 32 7 ++ tag duress_password;
  };
}

keyed_valid : validate_header_basic keyed_header none ≡ ok tt
unfolding validate_header_basic bytes_eq validate_argon2
keyed_valid = refl

validate_header_basic_iff_example : IsHeaderSafe keyed_header none
validate_header_basic_iff_example = (validate_header_basic_iff keyed_header none).0 keyed_valid

derives : derive_kek toy old_password open_slot.salt open_slot.params ≡ ok old_password
unfolding derive_kek validate_argon2
derives = refl

decrypts :
    decrypt_aead toy old_password open_slot.nonce
      (slot_aad toy keyed_header open_slot)
      open_slot.encrypted_dek
    ≡ ok data_key
unfolding decrypt_aead bytes_eq
decrypts = refl

unlocks_old : Opens toy keyed_header old_password open_slot data_key
unlocks_old = record {
  active = omega arith;
  kek = old_password;
  derived = derives;
  decrypted = decrypts;
  key_length = refl;
}

unlock_newest_example : unlock toy keyed_header old_password ≡ ok (unlocked data_key)
unlock_newest_example =
    unlock_newest toy keyed_header old_password data_key keyed_valid
      (inl (unlocks_old, omega arith))

unlock_sound_example :
    Opens toy keyed_header old_password keyed_header.slot_0 data_key
    ⊎ Opens toy keyed_header old_password keyed_header.slot_1 data_key
unlock_sound_example = unlock_sound toy keyed_header old_password data_key unlock_newest_example

abbrev pub noise : SlotRandom
noise = record { salt = replicate 16 11; nonce = replicate 12 12; sealed = replicate 48 13 }

unlock-wiped_header_example :
    unlock toy (wiped_header keyed_header noise noise) old_password ≢ ok (unlocked data_key)
unlock-wiped_header_example = unlock-wiped_header toy keyed_header noise noise old_password data_key

duress_opens : unlock_duress toy keyed_header duress_password ≡ ok duress
unfolding unlock_duress derive_kek validate_argon2 decrypt_aead bytes_eq
duress_opens = refl

abbrev made_slot : KeySlot
made_slot = record noise_slot { encrypted_dek = data_key ++ tag (2 ∷ []) }
  where
    noise_slot : KeySlot
    noise_slot = record {
      generation = 2;
      salt = replicate 16 11;
      params = default_params;
      nonce = replicate 12 12;
      encrypted_dek = [];
    }

made : make_key_slot toy keyed_header (2 ∷ []) data_key 2 default_params noise ≡ ok made_slot
unfolding make_key_slot derive_kek validate_argon2 encrypt_aead
made = refl

make_key_slot-Opens_example : Opens toy keyed_header (2 ∷ []) made_slot data_key
make_key_slot-Opens_example =
    make_key_slot-Opens toy toy-IsAead keyed_header keyed_header (2 ∷ []) data_key 2 default_params
      noise made_slot (omega arith) refl (λ t. refl) made

-- The bytes of a constant array.
array : (n b : ℕ) → IsByte b → IsArray n (replicate n b)
array n b h = (length-replicate n b, bytes n)
  where
    bytes : (m : ℕ) → All IsByte (replicate m b)
    bytes zero = tt
    bytes (suc m) = (h, bytes m)

typed_params : IsParamsTyped default_params
typed_params = record { m_cost = omega arith; t_cost = omega arith; p_cost = omega arith }

typed_slot : IsSlotTyped closed_slot
typed_slot = record {
  generation = omega arith;
  salt = array 16 3 (omega arith);
  params = typed_params;
  nonce = array 12 4 (omega arith);
  encrypted_dek = array 48 5 (omega arith);
}

typed_header : IsHeaderTyped (plain_header 0 1)
typed_header = record {
  magic = (refl, (omega arith, (omega arith, (omega arith, (omega arith, tt)))));
  version = omega arith;
  header_size = omega arith;
  container_id = array 16 1 (omega arith);
  chunk_size = omega arith;
  index_size = omega arith;
  data_size = omega arith;
  entry_count = omega arith;
  index_nonce = array 12 2 (omega arith);
  slot_0 = typed_slot;
  slot_1 = typed_slot;
  duress = record {
    salt = array 16 6 (omega arith);
    params = typed_params;
    nonce = array 12 7 (omega arith);
    encrypted_marker = array 48 8 (omega arith);
  };
}

typed_entry : IsEntryTyped notes
typed_entry = record { id = omega arith; file_id = array 16 3 (omega arith); size = omega arith }

aad_domains_example :
    (slot_aad toy (plain_header 0 1) closed_slot ≢ index_aad toy (plain_header 0 1))
    × (slot_aad toy (plain_header 0 1) closed_slot ≢ duress_aad (plain_header 0 1))
    × (slot_aad toy (plain_header 0 1) closed_slot ≢ chunk_aad (plain_header 0 1) notes 0 5)
    × (index_aad toy (plain_header 0 1) ≢ duress_aad (plain_header 0 1))
    × (index_aad toy (plain_header 0 1) ≢ chunk_aad (plain_header 0 1) notes 0 5)
    × (duress_aad (plain_header 0 1) ≢ chunk_aad (plain_header 0 1) notes 0 5)
aad_domains_example =
    aad_domains toy (λ text. refl) (plain_header 0 1) (plain_header 0 1) (plain_header 0 1)
      (plain_header 0 1) closed_slot notes 0 5 typed_header typed_header typed_header typed_header
      typed_slot typed_entry

chunk_aad-inj_example :
    ((plain_header 0 1).container_id ≡ (plain_header 0 1).container_id)
    × (notes.file_id ≡ notes.file_id)
    × (notes.id ≡ notes.id)
    × (notes.size ≡ notes.size)
    × (◌≡◌ {A = ℕ} 0 0)
    × (◌≡◌ {A = ℕ} 5 5)
chunk_aad-inj_example =
    chunk_aad-inj (plain_header 0 1) (plain_header 0 1) notes notes 0 0 5 5 typed_header
      typed_header typed_entry typed_entry (omega arith) (omega arith) (omega arith) (omega arith)
      refl
