-- ===== src/Examples/Encoding.antt =====
-- An encoding of one header and one index, which it recognises field by field.
use cipher_fs.V2.Container.{IsCodec, Codec}
use cipher_fs.Base.Words.{bytes_eq_iff, Bytes, bytes_eq}
use cipher_fs.Base.{
  refl, some_ne_none, sym, ap, none, [], ◌∷◌, some, if◌then◌else◌, false, ==_iff, arith, ◌&&◌, ◌==◌,
  ◌≡◌, true, not, List, Bool,
}
use cipher_fs.V2.Types.{
  Index, Entry, EntryKind, Header, DuressSlot, KeySlot, Argon2Params, file, directory,
}

both : {P Q : Type 0} (a b : Bool) → (a ≡ true → P) → (b ≡ true → Q) → (a && b) ≡ true → P × Q
both true b f g h = (f refl, g h)
both false b f g h = cc

abbrev same_params : Argon2Params → Argon2Params → Bool
same_params p q = (p.m_cost == q.m_cost) && ((p.t_cost == q.t_cost) && (p.p_cost == q.p_cost))

same_params_lem : (p q : Argon2Params) → same_params p q ≡ true → p ≡ q
same_params_lem p q h = ground arith

abbrev same_slot : KeySlot → KeySlot → Bool
same_slot s t =
    (s.generation == t.generation)
    && (bytes_eq s.salt t.salt
        && (same_params s.params t.params
            && (bytes_eq s.nonce t.nonce && bytes_eq s.encrypted_dek t.encrypted_dek)))

same_slot_lem : (s t : KeySlot) → same_slot s t ≡ true → s ≡ t
same_slot_lem s t h =
    let (a, (b, (d, (e, f)))) =
      both (s.generation == t.generation) _ ((==_iff _ _).0)
        (both (bytes_eq s.salt t.salt) _ ((bytes_eq_iff _ _).0) (
          both (same_params s.params t.params) _ (same_params_lem s.params t.params)
            (both (bytes_eq s.nonce t.nonce) _ ((bytes_eq_iff _ _).0) ((bytes_eq_iff _ _).0))))
        h in
    λ i. record { generation = a i; salt = b i; params = d i; nonce = e i; encrypted_dek = f i }

abbrev same_flag : Bool → Bool → Bool
same_flag true b = b
same_flag false b = not b

same_flag_lem : (a b : Bool) → same_flag a b ≡ true → a ≡ b
same_flag_lem true true h = refl
same_flag_lem true false h = cc
same_flag_lem false true h = cc
same_flag_lem false false h = refl

abbrev same_duress : DuressSlot → DuressSlot → Bool
same_duress s t =
    same_flag s.enabled t.enabled
    && (bytes_eq s.salt t.salt
        && (same_params s.params t.params
            && (bytes_eq s.nonce t.nonce && bytes_eq s.encrypted_marker t.encrypted_marker)))

same_duress_lem : (s t : DuressSlot) → same_duress s t ≡ true → s ≡ t
same_duress_lem s t h =
    let (a, (b, (d, (e, f)))) =
      both (same_flag s.enabled t.enabled) _ (same_flag_lem s.enabled t.enabled)
        (both (bytes_eq s.salt t.salt) _ ((bytes_eq_iff _ _).0) (
          both (same_params s.params t.params) _ (same_params_lem s.params t.params)
            (both (bytes_eq s.nonce t.nonce) _ ((bytes_eq_iff _ _).0) ((bytes_eq_iff _ _).0))))
        h in
    λ i. record { enabled = a i; salt = b i; params = d i; nonce = e i; encrypted_marker = f i }

abbrev same_header : Header → Header → Bool
same_header s t =
    bytes_eq s.magic t.magic
    && ((s.version == t.version)
        && ((s.header_size == t.header_size)
            && (bytes_eq s.container_id t.container_id
                && ((s.chunk_size == t.chunk_size)
                    && ((s.index_size == t.index_size)
                        && ((s.data_size == t.data_size)
                            && ((s.entry_count == t.entry_count)
                                && (bytes_eq s.index_nonce t.index_nonce
                                    && (same_slot s.slot_0 t.slot_0
                                        && (same_slot s.slot_1 t.slot_1
                                            && same_duress s.duress t.duress))))))))))

same_header_lem : (s t : Header) → same_header s t ≡ true → s ≡ t
same_header_lem s t h =
    let (a, (b, (d, (e, (f, (g, (k, (l, (m, (n, (o, p))))))))))) =
      both (bytes_eq s.magic t.magic) _ ((bytes_eq_iff _ _).0)
        (both (s.version == t.version) _ ((==_iff _ _).0) (
          both (s.header_size == t.header_size) _ ((==_iff _ _).0) (
            both (bytes_eq s.container_id t.container_id) _ ((bytes_eq_iff _ _).0) (
              both (s.chunk_size == t.chunk_size) _ ((==_iff _ _).0) (
                both (s.index_size == t.index_size) _ ((==_iff _ _).0) (
                  both (s.data_size == t.data_size) _ ((==_iff _ _).0) (
                    both (s.entry_count == t.entry_count) _ ((==_iff _ _).0) (
                      both (bytes_eq s.index_nonce t.index_nonce) _ ((bytes_eq_iff _ _).0) (
                        both (same_slot s.slot_0 t.slot_0) _ (same_slot_lem s.slot_0 t.slot_0) (
                          both (same_slot s.slot_1 t.slot_1) _ (same_slot_lem s.slot_1 t.slot_1)
                            (same_duress_lem s.duress t.duress)))))))))))
        h in
    λ i. record {
      magic = a i;
      version = b i;
      header_size = d i;
      container_id = e i;
      chunk_size = f i;
      index_size = g i;
      data_size = k i;
      entry_count = l i;
      index_nonce = m i;
      slot_0 = n i;
      slot_1 = o i;
      duress = p i;
    }

abbrev same_kind : EntryKind → EntryKind → Bool
same_kind file file = true
same_kind directory directory = true
same_kind a b = false

same_kind_lem : (a b : EntryKind) → same_kind a b ≡ true → a ≡ b
same_kind_lem file file h = refl
same_kind_lem file directory h = cc
same_kind_lem directory file h = cc
same_kind_lem directory directory h = refl

abbrev same_entry : Entry → Entry → Bool
same_entry s t =
    (s.id == t.id)
    && ((s.parent_id == t.parent_id)
        && (bytes_eq s.name t.name
            && ((s.depth == t.depth)
                && (same_kind s.kind t.kind
                    && (bytes_eq s.file_id t.file_id
                        && ((s.size == t.size)
                            && ((s.data_offset == t.data_offset)
                                && ((s.encrypted_size == t.encrypted_size)
                                    && (s.chunk_count == t.chunk_count)))))))))

same_entry_lem : (s t : Entry) → same_entry s t ≡ true → s ≡ t
same_entry_lem s t h =
    let (a, (b, (d, (e, (f, (g, (k, (l, (m, n))))))))) =
      both (s.id == t.id) _ ((==_iff _ _).0)
        (both (s.parent_id == t.parent_id) _ ((==_iff _ _).0) (
          both (bytes_eq s.name t.name) _ ((bytes_eq_iff _ _).0) (
            both (s.depth == t.depth) _ ((==_iff _ _).0) (
              both (same_kind s.kind t.kind) _ (same_kind_lem s.kind t.kind) (
                both (bytes_eq s.file_id t.file_id) _ ((bytes_eq_iff _ _).0) (
                  both (s.size == t.size) _ ((==_iff _ _).0) (
                    both (s.data_offset == t.data_offset) _ ((==_iff _ _).0) (
                      both (s.encrypted_size == t.encrypted_size) _ ((==_iff _ _).0)
                        ((==_iff _ _).0)))))))))
        h in
    λ i. record {
      id = a i;
      parent_id = b i;
      name = d i;
      depth = e i;
      kind = f i;
      file_id = g i;
      size = k i;
      data_offset = l i;
      encrypted_size = m i;
      chunk_count = n i;
    }

abbrev same_entries : List Entry → List Entry → Bool
same_entries [] [] = true
same_entries (e ∷ es) (f ∷ fs) = same_entry e f && same_entries es fs
same_entries es fs = false

same_entries_lem : (es fs : List Entry) → same_entries es fs ≡ true → es ≡ fs
same_entries_lem [] [] h = refl
same_entries_lem [] (f ∷ fs) h = cc
same_entries_lem (e ∷ es) [] h = cc
same_entries_lem (e ∷ es) (f ∷ fs) h =
    let (p, q) =
      both (same_entry e f) (same_entries es fs) (same_entry_lem e f) (same_entries_lem es fs) h in
    λ i. p i ∷ q i

-- One byte stands for the header, one for the index.
abbrev pub single : Header → Index → Codec
single header index = record {
  encode_header = λ h. if same_header h header then some (1 ∷ []) else none;
  decode_header = λ bytes. some header;
  encode_index = λ i. if same_entries i.entries index.entries then some (2 ∷ []) else none;
  decode_index = λ bytes. some index;
}

recognised :
    {A : Type 0} (b : Bool) (code bytes : Bytes) (a a' : A)
    → (b ≡ true → a ≡ a')
    → (if b then some code else none) ≡ some bytes
    → some a' ≡ some a
recognised true code bytes a a' f h = ap some (sym (f refl))
recognised false code bytes a a' f h = absurd (some_ne_none (sym h))

pub single-IsCodec : (header : Header) (index : Index) → IsCodec (single header index)
single-IsCodec header index = record {
  header = λ h bytes rest e.
      recognised (same_header h header) (1 ∷ []) bytes h header (same_header_lem h header) e;
  index = λ i bytes e few.
      recognised (same_entries i.entries index.entries) (2 ∷ []) bytes i index
        (λ s k. record { entries = same_entries_lem i.entries index.entries s k }) e;
}
