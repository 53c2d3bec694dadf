-- ===== src/V2/Aad/Binding.antt =====
-- What the associated data of a chunk and of a header determine.
use cipher_fs.Base.{
  ℕ, ◌^◌, ◌<◌, ◌≡◌, refl, sym, ap, ◌∙◌, Bool, List, [], ◌∷◌, ◌++◌, length, length-append, arith,
}
use cipher_fs.Base.Words.{
  Bytes, IsArray, IsU64, codes, le_bytes, from_le_bytes, length-le_bytes, from_le_bytes-le_bytes,
}
use cipher_fs.V2.Types.{Argon2Params, Header, Entry}
use cipher_fs.V2.Crypto.{Crypto}
use cipher_fs.V2.Typed.{IsParamsTyped, IsHeaderTyped, IsEntryTyped}
use cipher_fs.V2.Aad.{argon_bytes, flag_byte, immutable_aad, chunk_nonce, chunk_aad}

-- Equal concatenations whose first parts are equally long agree part by part.
append_inj {ℓ} :
    {A : Type ℓ} (xs ys zs ws : List A)
    → length xs ≡ length ys
    → xs ++ zs ≡ ys ++ ws
    → (xs ≡ ys) × (zs ≡ ws)
append_inj [] [] zs ws e h = (refl, h)
append_inj [] (y ∷ ys) zs ws e h = absurd (omega arith)
append_inj (x ∷ xs) [] zs ws e h = absurd (omega arith)
append_inj (x ∷ xs) (y ∷ ys) zs ws e h =
    let (same, rest) = append_inj xs ys zs ws (omega arith) (cc) in (cc, rest)

le_bytes_inj : (w m n : ℕ) → m < 256 ^ w → n < 256 ^ w → le_bytes w m ≡ le_bytes w n → m ≡ n
le_bytes_inj w m n hm hn e =
    sym (from_le_bytes-le_bytes w m hm) ∙ ap from_le_bytes e ∙ from_le_bytes-le_bytes w n hn

-- A little-endian number in front of other bytes.
le_append_inj :
    (w m n : ℕ) (zs ws : Bytes)
    → m < 256 ^ w
    → n < 256 ^ w
    → le_bytes w m ++ zs ≡ le_bytes w n ++ ws
    → (m ≡ n) × (zs ≡ ws)
le_append_inj w m n zs ws hm hn h =
    let (same, rest) =
      append_inj (le_bytes w m) (le_bytes w n) zs ws
        (length-le_bytes w m ∙ sym (length-le_bytes w n)) h in
    (le_bytes_inj w m n hm hn same, rest)

-- A fixed array in front of other bytes.
array_append_inj :
    (n : ℕ) (xs ys zs ws : Bytes)
    → IsArray n xs
    → IsArray n ys
    → xs ++ zs ≡ ys ++ ws
    → (xs ≡ ys) × (zs ≡ ws)
array_append_inj n xs ys zs ws hx hy h = append_inj xs ys zs ws (hx.0 ∙ sym hy.0) h

-- Chunks at different positions have different nonces.
pub chunk_nonce-inj : (i j : ℕ) → IsU64 i → IsU64 j → chunk_nonce i ≡ chunk_nonce j → i ≡ j
unfolding chunk_nonce
chunk_nonce-inj i j hi hj h =
    le_bytes_inj 8 i j hi hj (append_inj (codes "C2CH") (codes "C2CH") _ _ refl h).1

-- The associated data of a chunk determine the container, the file, its size, the position and the
-- length of the chunk.
pub chunk_aad-inj :
    (h h' : Header) (e e' : Entry) (i i' len len' : ℕ)
    → IsHeaderTyped h
    → IsHeaderTyped h'
    → IsEntryTyped e
    → IsEntryTyped e'
    → IsU64 i
    → IsU64 i'
    → IsU64 len
    → IsU64 len'
    → chunk_aad h e i len ≡ chunk_aad h' e' i' len'
    → (h.container_id ≡ h'.container_id)
      × (e.file_id ≡ e'.file_id)
      × (e.id ≡ e'.id)
      × (e.size ≡ e'.size)
      × (i ≡ i')
      × (len ≡ len')
unfolding chunk_aad
chunk_aad-inj h h' e e' i i' len len' th th' te te' hi hi' hl hl' eq =
    let (_, r1) = array_append_inj 4 _ _ _ _ th.magic th'.magic eq in
    let (_, r2) = le_append_inj 2 _ _ _ _ th.version th'.version r1 in
    let (container, r3) = array_append_inj 16 _ _ _ _ th.container_id th'.container_id r2 in
    let (file, r4) = array_append_inj 16 _ _ _ _ te.file_id te'.file_id r3 in
    let (id, r5) = le_append_inj 8 _ _ _ _ te.id te'.id r4 in
    let (size, r6) = le_append_inj 8 _ _ _ _ te.size te'.size r5 in
    let (index, r7) = le_append_inj 8 _ _ _ _ hi hi' r6 in
    (container, file, id, size, index, le_bytes_inj 8 len len' hl hl' r7)

flag_byte_inj : (a b : Bool) → flag_byte a ≡ flag_byte b → a ≡ b
flag_byte_inj a b h = ground arith

pub length-argon_bytes : (p : Argon2Params) → length (argon_bytes p) ≡ 12
unfolding argon_bytes
length-argon_bytes p = simp (length-append, length-le_bytes)

argon_bytes_inj :
    (p q : Argon2Params) → IsParamsTyped p → IsParamsTyped q → argon_bytes p ≡ argon_bytes q → p ≡ q
unfolding argon_bytes
argon_bytes_inj p q tp tq h =
    let (m, r1) = le_append_inj 4 _ _ _ _ tp.m_cost tq.m_cost h in
    let (t, r2) = le_append_inj 4 _ _ _ _ tp.t_cost tq.t_cost r1 in
    let l : p.p_cost ≡ q.p_cost = le_bytes_inj 4 _ _ tp.p_cost tq.p_cost r2 in ground arith

-- The part of a header that its key slots and its index authenticate. The marker of the duress slot
-- enters by its hash.
pub record SameImmutable (c : Crypto) (h h' : Header) : Type 0 where
  pub magic : h.magic ≡ h'.magic
  pub version : h.version ≡ h'.version
  pub header_size : h.header_size ≡ h'.header_size
  pub container_id : h.container_id ≡ h'.container_id
  pub chunk_size : h.chunk_size ≡ h'.chunk_size
  pub index_size : h.index_size ≡ h'.index_size
  pub data_size : h.data_size ≡ h'.data_size
  pub entry_count : h.entry_count ≡ h'.entry_count
  pub index_nonce : h.index_nonce ≡ h'.index_nonce
  pub enabled : h.duress.enabled ≡ h'.duress.enabled
  pub salt : h.duress.salt ≡ h'.duress.salt
  pub params : h.duress.params ≡ h'.duress.params
  pub nonce : h.duress.nonce ≡ h'.duress.nonce
  pub marker : c.blake3 h.duress.encrypted_marker ≡ c.blake3 h'.duress.encrypted_marker

module _ (c : Crypto) where
  -- Two headers with the same immutable associated data agree on every field outside their key slots,
  -- up to the hash of the duress marker.
  pub immutable_aad-inj :
      (h h' : Header)
      → IsHeaderTyped h
      → IsHeaderTyped h'
      → immutable_aad c h ≡ immutable_aad c h'
      → SameImmutable c h h'
  unfolding immutable_aad
  immutable_aad-inj h h' t t' eq =
      let (magic, r1) = array_append_inj 4 _ _ _ _ t.magic t'.magic eq in
      let (version, r2) = le_append_inj 2 _ _ _ _ t.version t'.version r1 in
      let (size, r3) = le_append_inj 4 _ _ _ _ t.header_size t'.header_size r2 in
      let (container, r4) = array_append_inj 16 _ _ _ _ t.container_id t'.container_id r3 in
      let (chunk, r5) = le_append_inj 4 _ _ _ _ t.chunk_size t'.chunk_size r4 in
      let (index, r6) = le_append_inj 8 _ _ _ _ t.index_size t'.index_size r5 in
      let (data_len, r7) = le_append_inj 8 _ _ _ _ t.data_size t'.data_size r6 in
      let (count, r8) = le_append_inj 8 _ _ _ _ t.entry_count t'.entry_count r7 in
      let (nonce, r9) = array_append_inj 12 _ _ _ _ t.index_nonce t'.index_nonce r8 in
      let (flag, r10) =
        append_inj (flag_byte h.duress.enabled ∷ []) (flag_byte h'.duress.enabled ∷ []) _ _ refl
          r9 in
      let (salt, r11) = array_append_inj 16 _ _ _ _ t.duress.salt t'.duress.salt r10 in
      let lens : length (argon_bytes h.duress.params) ≡ length (argon_bytes h'.duress.params) =
        length-argon_bytes h.duress.params ∙ sym (length-argon_bytes h'.duress.params) in
      let (params, r12) = append_inj _ _ _ _ lens r11 in
      let (dnonce, r13) = array_append_inj 12 _ _ _ _ t.duress.nonce t'.duress.nonce r12 in
      record {
        magic = magic;
        version = version;
        header_size = size;
        container_id = container;
        chunk_size = chunk;
        index_size = index;
        data_size = data_len;
        entry_count = count;
        index_nonce = nonce;
        enabled = flag_byte_inj _ _ (cc flag);
        salt = salt;
        params = argon_bytes_inj _ _ t.duress.params t'.duress.params params;
        nonce = dnonce;
        marker = r13;
      }
