-- ===== src/V2/Types.antt =====
-- The constants and the data of v2.rs. A byte array or slice is a list of numbers, and a `str` the
-- list of its UTF-8 bytes.
use cipher_fs.Base.{ℕ, Bool, false, List, [], ◌∷◌, replicate}
use cipher_fs.Base.Words.{Bytes}
use cipher_fs.Base.Map.{Map}

abbrev pub magic_bytes : Bytes
magic_bytes = 0x43 ∷ 0x46 ∷ 0x53 ∷ 0x02 ∷ []

abbrev pub version_number : ℕ
version_number = 2

abbrev pub header_bytes : ℕ
header_bytes = 4096

abbrev pub chunk_bytes : ℕ
chunk_bytes = 4194304

abbrev pub tag_bytes : ℕ
tag_bytes = 16

abbrev pub max_index_size : ℕ
max_index_size = 536870912

abbrev pub max_entries : ℕ
max_entries = 5000000

abbrev pub max_name_bytes : ℕ
max_name_bytes = 255

abbrev pub max_depth : ℕ
max_depth = 1024

abbrev pub min_argon_memory_kib : ℕ
min_argon_memory_kib = 8192

abbrev pub max_argon_memory_kib : ℕ
max_argon_memory_kib = 1048576

abbrev pub max_argon_time : ℕ
max_argon_time = 10

abbrev pub max_argon_lanes : ℕ
max_argon_lanes = 16

pub record Argon2Params : Type 0 where
  pub m_cost : ℕ
  pub t_cost : ℕ
  pub p_cost : ℕ

abbrev pub default_params : Argon2Params
default_params = record { m_cost = 65536; t_cost = 3; p_cost = 4 }

pub record KeySlot : Type 0 where
  pub generation : ℕ
  pub salt : Bytes
  pub params : Argon2Params
  pub nonce : Bytes
  pub encrypted_dek : Bytes

pub record DuressSlot : Type 0 where
  pub enabled : Bool
  pub salt : Bytes
  pub params : Argon2Params
  pub nonce : Bytes
  pub encrypted_marker : Bytes

-- The bytes that the random number generator hands to one new slot, in the order it is asked.
pub record SlotRandom : Type 0 where
  pub salt : Bytes
  pub nonce : Bytes
  pub sealed : Bytes

abbrev pub KeySlot_random_disabled : SlotRandom → KeySlot
KeySlot_random_disabled r = record {
  generation = 0;
  salt = r.salt;
  params = default_params;
  nonce = r.nonce;
  encrypted_dek = r.sealed;
}

abbrev pub DuressSlot_random_disabled : SlotRandom → DuressSlot
DuressSlot_random_disabled r = record {
  enabled = false;
  salt = r.salt;
  params = default_params;
  nonce = r.nonce;
  encrypted_marker = r.sealed;
}

-- `slots: [KeySlot; 2]` is the pair of fields `slot_0` and `slot_1`.
pub record Header : Type 0 where
  pub magic : Bytes
  pub version : ℕ
  pub header_size : ℕ
  pub container_id : Bytes
  pub chunk_size : ℕ
  pub index_size : ℕ
  pub data_size : ℕ
  pub entry_count : ℕ
  pub index_nonce : Bytes
  pub slot_0 : KeySlot
  pub slot_1 : KeySlot
  pub duress : DuressSlot

pub data EntryKind : Type 0 where
  file directory : EntryKind

pub record Entry : Type 0 where
  pub id : ℕ
  pub parent_id : ℕ
  pub name : Bytes
  pub depth : ℕ
  pub kind : EntryKind
  pub file_id : Bytes
  pub size : ℕ
  pub data_offset : ℕ
  pub encrypted_size : ℕ
  pub chunk_count : ℕ

pub record Index : Type 0 where
  pub entries : List Entry

pub record ValidatedIndex : Type 0 where
  pub entries : Map ℕ Entry
  pub children : Map ℕ (List ℕ)

pub data UnlockResult : Type 0 where
  unlocked : Bytes → UnlockResult
  duress failed : UnlockResult

-- `[0; 16]`
abbrev pub zero_file_id : Bytes
zero_file_id = replicate 16 0
