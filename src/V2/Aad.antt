-- ===== src/V2/Aad.antt =====
-- The associated data that v2.rs authenticates: the header for the key slots, the duress slot and the
-- index, and the entry and the position of each chunk.
pub mod Binding
pub mod Domains
use cipher_fs.Base.{ℕ, Bool, true, false, List, [], ◌∷◌, ◌++◌}
use cipher_fs.Base.Words.{Bytes, codes, le_bytes}
use cipher_fs.V2.Types.{Argon2Params, KeySlot, DuressSlot, Header, Entry}
use cipher_fs.V2.Crypto.{Crypto}

-- `push_argon`: what it appends.
unfoldable pub argon_bytes : Argon2Params → Bytes
argon_bytes params =
    le_bytes 4 params.m_cost ++ (le_bytes 4 params.t_cost ++ le_bytes 4 params.p_cost)

-- `u8::from(flag)`
abbrev pub flag_byte : Bool → ℕ
flag_byte true = 1
flag_byte false = 0

module _ (c : Crypto) where
  unfoldable pub immutable_aad : Header → Bytes
  unfolding argon_bytes
  immutable_aad header =
      header.magic
      ++ (le_bytes 2 header.version
          ++ (le_bytes 4 header.header_size
              ++ (header.container_id
                  ++ (le_bytes 4 header.chunk_size
                      ++ (le_bytes 8 header.index_size
                          ++ (le_bytes 8 header.data_size
                              ++ (le_bytes 8 header.entry_count
                                  ++ (header.index_nonce
                                      ++ ((flag_byte header.duress.enabled ∷ [])
                                          ++ (header.duress.salt
                                              ++ (argon_bytes header.duress.params
                                                  ++ (header.duress.nonce
                                                      ++ c.blake3
                                                          header.duress.encrypted_marker))))))))))))

  unfoldable pub slot_aad : Header → KeySlot → Bytes
  slot_aad header slot =
      immutable_aad header
      ++ (codes "/key-slot"
          ++ (le_bytes 8 slot.generation ++ (slot.salt ++ (argon_bytes slot.params ++ slot.nonce))))

  unfoldable pub index_aad : Header → Bytes
  index_aad header = immutable_aad header ++ codes "/index"

unfoldable pub duress_aad : Header → Bytes
duress_aad header =
    header.magic
    ++ (le_bytes 2 header.version
        ++ (le_bytes 4 header.header_size
            ++ (header.container_id
                ++ (le_bytes 4 header.chunk_size
                    ++ (le_bytes 8 header.index_size
                        ++ (le_bytes 8 header.data_size
                            ++ (le_bytes 8 header.entry_count
                                ++ (codes "/duress-slot"
                                    ++ (header.duress.salt
                                        ++ (argon_bytes header.duress.params
                                            ++ header.duress.nonce))))))))))

unfoldable pub chunk_nonce : ℕ → Bytes
chunk_nonce chunk_index = codes "C2CH" ++ le_bytes 8 chunk_index

unfoldable pub chunk_aad : Header → Entry → ℕ → ℕ → Bytes
chunk_aad header entry chunk_index plaintext_len =
    header.magic
    ++ (le_bytes 2 header.version
        ++ (header.container_id
            ++ (entry.file_id
                ++ (le_bytes 8 entry.id
                    ++ (le_bytes 8 entry.size
                        ++ (le_bytes 8 chunk_index ++ le_bytes 8 plaintext_len))))))
