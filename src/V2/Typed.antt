-- ===== src/V2/Typed.antt =====
-- The ranges that the types of v2.rs give to the fields of its records.
use cipher_fs.Base.{◌<◌}
use cipher_fs.Base.Words.{IsArray, IsU64, IsU32}
use cipher_fs.V2.Types.{Argon2Params, KeySlot, DuressSlot, Header, Entry}

pub record IsParamsTyped (p : Argon2Params) : Type 0 where
  pub m_cost : IsU32 p.m_cost
  pub t_cost : IsU32 p.t_cost
  pub p_cost : IsU32 p.p_cost

pub record IsSlotTyped (s : KeySlot) : Type 0 where
  pub generation : IsU64 s.generation
  pub salt : IsArray 16 s.salt
  pub params : IsParamsTyped s.params
  pub nonce : IsArray 12 s.nonce
  pub encrypted_dek : IsArray 48 s.encrypted_dek

pub record IsDuressTyped (d : DuressSlot) : Type 0 where
  pub salt : IsArray 16 d.salt
  pub params : IsParamsTyped d.params
  pub nonce : IsArray 12 d.nonce
  pub encrypted_marker : IsArray 48 d.encrypted_marker

pub record IsHeaderTyped (h : Header) : Type 0 where
  pub magic : IsArray 4 h.magic
  pub version : h.version < 65536
  pub header_size : IsU32 h.header_size
  pub container_id : IsArray 16 h.container_id
  pub chunk_size : IsU32 h.chunk_size
  pub index_size : IsU64 h.index_size
  pub data_size : IsU64 h.data_size
  pub entry_count : IsU64 h.entry_count
  pub index_nonce : IsArray 12 h.index_nonce
  pub slot_0 : IsSlotTyped h.slot_0
  pub slot_1 : IsSlotTyped h.slot_1
  pub duress : IsDuressTyped h.duress

pub record IsEntryTyped (e : Entry) : Type 0 where
  pub id : IsU64 e.id
  pub file_id : IsArray 16 e.file_id
  pub size : IsU64 e.size
