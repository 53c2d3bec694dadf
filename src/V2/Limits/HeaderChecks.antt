-- ===== src/V2/Limits/HeaderChecks.antt =====
-- What `validate_argon2` and `validate_header_basic` accept.
use cipher_fs.Base.{
  sym, some_ne_none, ◌||◌, refl, if◌then◌else◌, none, ℕ, ◌+◌, ◌≤◌, ◌<◌, ◌≡◌, true, false, Option,
  some, ltb, arith, ◌↔◌, Bool-cases, inl, inr,
}
use cipher_fs.Base.Words.{bytes_eq_iff, u64_mod}
use cipher_fs.Errors.{bail_if, bail_if-eq-ok, >>-eq-ok, ok}
use cipher_fs.V2.Types.{
  DuressSlot, Argon2Params, KeySlot, Header, magic_bytes, version_number, header_bytes, chunk_bytes,
  tag_bytes, max_index_size, max_entries, min_argon_memory_kib, max_argon_memory_kib,
  max_argon_time, max_argon_lanes,
}
use cipher_fs.V2.Limits.{
  validate_header_basic, validate_length, validate_argon2, header_mismatch, validate_slot,
}

-- Costs within the local safety limits.
pub record IsArgonSafe (params : Argon2Params) : Type 0 where
  pub memory_low : min_argon_memory_kib ≤ params.m_cost
  pub memory_high : params.m_cost ≤ max_argon_memory_kib
  pub time_low : 1 ≤ params.t_cost
  pub time_high : params.t_cost ≤ max_argon_time
  pub lanes_low : 1 ≤ params.p_cost
  pub lanes_high : params.p_cost ≤ max_argon_lanes

-- `validate_argon2` accepts exactly the costs within the limits.
pub validate_argon2_iff : (p : Argon2Params) → (validate_argon2 p ≡ ok tt) ↔ IsArgonSafe p
unfolding validate_argon2
validate_argon2_iff p = (λ h. ground arith, λ s. ground arith)

-- The fields of a header that the code trusts, for a container of the given length.
pub record IsHeaderSafe (header : Header) (file_len : Option ℕ) : Type 0 where
  pub magic : header.magic ≡ magic_bytes
  pub version : header.version ≡ version_number
  pub header_size : header.header_size ≡ header_bytes
  pub chunk_size : header.chunk_size ≡ chunk_bytes
  pub index_low : tag_bytes ≤ header.index_size
  pub index_high : header.index_size ≤ max_index_size
  pub entries : header.entry_count ≤ max_entries
  pub slot_0 : 0 < header.slot_0.generation → IsArgonSafe header.slot_0.params
  pub slot_1 : 0 < header.slot_1.generation → IsArgonSafe header.slot_1.params
  pub duress : header.duress.enabled ≡ true → IsArgonSafe header.duress.params
  pub length :
      (len : ℕ)
      → file_len ≡ some len
      → (header_bytes + header.index_size + header.data_size ≡ len) × (len < u64_mod)

validate_slot_iff :
    (s : KeySlot) → (validate_slot s ≡ ok tt) ↔ (0 < s.generation → IsArgonSafe s.params)
unfolding validate_slot
validate_slot_iff s = (
  λ h g. (validate_argon2_iff s.params).0 (ground arith),
  λ safe. elim (Bool-cases (ltb 0 s.generation)) [
    | inl e ↦ rw e ((validate_argon2_iff s.params).1 (safe (ground arith)))
    | inr e ↦ rw e
  ],
)

header_mismatch_iff :
    (h : Header)
    → (header_mismatch h ≡ false) ↔ (
        (h.magic ≡ magic_bytes)
        × (h.version ≡ version_number)
        × (h.header_size ≡ header_bytes)
        × (h.chunk_size ≡ chunk_bytes))
header_mismatch_iff h = (
  λ e. ground (arith, bytes_eq_iff h.magic magic_bytes),
  λ t. ground (arith, bytes_eq_iff h.magic magic_bytes),
)

validate_length_iff :
    (h : Header) (file_len : Option ℕ)
    → (validate_length h file_len ≡ ok tt) ↔ (
        (len : ℕ)
        → file_len ≡ some len
        → (header_bytes + h.index_size + h.data_size ≡ len) × (len < u64_mod))
unfolding validate_length
validate_length_iff h none = (λ _ len e. cc, λ _. refl)
validate_length_iff h (some n) =
    (λ e len p. ground arith, λ all. let k = all n refl in ground arith)

duress_iff :
    (d : DuressSlot)
    → ((if d.enabled then validate_argon2 d.params else ok tt) ≡ ok tt)
      ↔ (d.enabled ≡ true → IsArgonSafe d.params)
duress_iff d = (
  λ h g. (validate_argon2_iff d.params).0 (ground arith),
  λ safe. elim (Bool-cases d.enabled) [
    | inl e ↦ rw e ((validate_argon2_iff d.params).1 (safe e))
    | inr e ↦ rw e
  ],
)

-- A header is accepted exactly when each field that the code trusts is within its limits.
pub validate_header_basic_iff :
    (h : Header) (file_len : Option ℕ)
    → (validate_header_basic h file_len ≡ ok tt) ↔ IsHeaderSafe h file_len
unfolding validate_header_basic
validate_header_basic_iff h file_len = (
  λ e.
      let (p1, e1) = >>-eq-ok (bail_if (header_mismatch h) _) _ e in
      let (p2, e2) =
        >>-eq-ok (bail_if (ltb h.index_size tag_bytes || ltb max_index_size h.index_size) _) _ e1 in
      let (p3, e3) = >>-eq-ok (bail_if (ltb max_entries h.entry_count) _) _ e2 in
      let (p4, e4) = >>-eq-ok (validate_slot h.slot_0) _ e3 in
      let (p5, e5) = >>-eq-ok (validate_slot h.slot_1) _ e4 in
      let (p6, p7) = >>-eq-ok _ _ e5 in
      let q2 = bail_if-eq-ok _ _ p2 in
      let q3 = bail_if-eq-ok _ _ p3 in
      let (m, v, s, c) = (header_mismatch_iff h).0 (bail_if-eq-ok _ _ p1) in
      record {
        magic = m;
        version = v;
        header_size = s;
        chunk_size = c;
        index_low = ground arith;
        index_high = ground arith;
        entries = ground arith;
        slot_0 = (validate_slot_iff h.slot_0).0 p4;
        slot_1 = (validate_slot_iff h.slot_1).0 p5;
        duress = (duress_iff h.duress).0 p6;
        length = (validate_length_iff h file_len).0 p7;
      },
  λ s.
      rw
        (
          (header_mismatch_iff h).1 (s.magic, s.version, s.header_size, s.chunk_size),
          (validate_slot_iff h.slot_0).1 s.slot_0,
          (validate_slot_iff h.slot_1).1 s.slot_1,
          (duress_iff h.duress).1 s.duress,
          (validate_length_iff h file_len).1 s.length,
        )
        (ground arith),
)

-- Without a file there is no bound by its length.
pub safe_without_length : {h : Header} {len : Option ℕ} → IsHeaderSafe h len → IsHeaderSafe h none
safe_without_length s = record {
  magic = s.magic;
  version = s.version;
  header_size = s.header_size;
  chunk_size = s.chunk_size;
  index_low = s.index_low;
  index_high = s.index_high;
  entries = s.entries;
  slot_0 = s.slot_0;
  slot_1 = s.slot_1;
  duress = s.duress;
  length = λ n e. absurd (some_ne_none (sym e));
}
