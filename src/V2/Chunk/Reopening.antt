-- ===== src/V2/Chunk/Reopening.antt =====
-- Opening depends on the bytes of the container and on the password alone.
use cipher_fs.V2.Container.Storage.{decode-serialize_header}
use cipher_fs.V2.Index.Soundness.{accepted}
use cipher_fs.V2.Limits.HeaderChecks.{safe_without_length, validate_header_basic_iff}
use cipher_fs.V2.Keys.Unlocking.{unlock_newest, NewestOpens}
use cipher_fs.V2.Limits.{validate_header_basic}
use cipher_fs.V2.Types.{max_entries, ValidatedIndex, failed}
use cipher_fs.V2.Types.{duress}
use cipher_fs.V2.Index.{validate_index}
use cipher_fs.V2.Keys.{unlock}
use cipher_fs.V2.Aad.{index_aad}
use cipher_fs.V2.Password.{wipe_for_duress}
use cipher_fs.V2.Types.{unlocked, header_bytes, UnlockResult, Index, Header, SlotRandom}
use cipher_fs.Base.Words.{checked_add_fits, checked_add, Bytes}
use cipher_fs.V2.Chunk.Opening.{
  open_index_lem, open_container_lem, open_unlocked, open_index, open_container,
}
use cipher_fs.V2.Container.{serialize_header, read_header, IsCodec, Codec}
use cipher_fs.Errors.{ok-inj, context, ok, bail}
use cipher_fs.V2.Crypto.{decrypt_aead-encrypt_aead, encrypt_aead, derive_index_key, IsAead, Crypto}
use cipher_fs.V2.Chunk.{OpenedContainer}
use cipher_fs.Base.{refl, arith, none, ◌+◌, ◌≤◌, length, ◌∙◌, some, ◌≡◌, ◌≢◌, sym, ap}
use cipher_fs.Errors
use mathlib.Core.Path.{subst}
use cipher_fs.Operation.World
use cipher_fs.Operation.World.{read_exact_at, World, lift}

bail_ne_ok :
    (o : OpenedContainer) → bail "Unable to unlock container (wrong password or damage)" ≢ ok o
bail_ne_ok o = λ q. cc

module _ (c : Crypto) (codec : Codec) where
  -- Opening has gone through `open_index` with the header and the key that it hands out.
  pub open_container-open_index :
      (password : Bytes) (r_0 r_1 : SlotRandom) (w w' : World) (opened : OpenedContainer)
      → open_container c codec password r_0 r_1 w ≡ (ok opened, w')
      → open_index c codec opened.header opened.dek w.file ≡ ok opened
  unfolding open_container open_unlocked
  open_container-open_index password r_0 r_1 w w' opened h =
      let (header, h1, g1) = World.>>=-eq-ok (λ (u : World). (read_header codec u.file, u)) _ w h in
      let (u, h2, g2) = World.>>=-eq-ok (lift (unlock c header password)) _ w g1 in go header u g2
    where
      go :
          (header : Header) (u : UnlockResult)
          → open_unlocked c codec header r_0 r_1 u w ≡ (ok opened, w')
          → open_index c codec opened.header opened.dek w.file ≡ ok opened
      go header (unlocked dek) run =
          let made = ap (λ r. r.0) run in
          let (_, _, p, q, _, _) = open_index_lem c codec header dek w.file opened made in
          subst (λ h. open_index c codec h opened.dek w.file ≡ ok opened) (sym p)
            (subst (λ d. open_index c codec header d w.file ≡ ok opened) (sym q) made)
      go header duress run =
          let (_, h2, g2) = World.>>=-eq-ok (wipe_for_duress codec header r_0 r_1) _ w run in
          absurd (bail_ne_ok opened (ap (λ r. r.0) g2))
      go header failed run = absurd (bail_ne_ok opened (ap (λ r. r.0) run))

  -- A container that has been opened opens again wherever its bytes stand, and nothing is written.
  pub open_container_again :
      (password : Bytes) (r_0 r_1 : SlotRandom) (w w' : World) (opened : OpenedContainer)
      → open_container c codec password r_0 r_1 w ≡ (ok opened, w')
      → (s_0 s_1 : SlotRandom) (u : World) → u.file ≡ w.file
      → open_container c codec password s_0 s_1 u ≡ (ok opened, u)
  unfolding open_container
  open_container_again password r_0 r_1 w w' opened h s_0 s_1 u same =
      let (read, key, _, _, _, _) = open_container_lem c codec password r_0 r_1 w w' opened h in
      let index = open_container-open_index password r_0 r_1 w w' opened h in
      let read' = ap (read_header codec) same ∙ read in
      let index' = ap (open_index c codec opened.header opened.dek) same ∙ index in
      rw (read', key) (ap (λ (r : Errors.Result OpenedContainer). (r, u)) index')

  -- What the index must be when its bytes in the file are the encryption of a known index.
  pub open_index_exact :
      (law : IsAead c) (codes_law : IsCodec codec) (header : Header) (dek file : Bytes)
      (opened : OpenedContainer) (index : Index) (key serialized encrypted : Bytes)
      → open_index c codec header dek file ≡ ok opened
      → read_exact_at header.index_size header_bytes file ≡ ok encrypted
      → derive_index_key c dek header.container_id ≡ ok key
      → encrypt_aead c key header.index_nonce (index_aad c header) serialized ≡ ok encrypted
      → codec.encode_index index ≡ some serialized
      → length index.entries ≤ max_entries
      → validate_index header index ≡ ok opened.index
  unfolding open_index
  open_index_exact law codes_law header dek file opened index key serialized encrypted h read
        derived sealed encoded few =
      let opens =
        decrypt_aead-encrypt_aead law key header.index_nonce (index_aad c header) serialized
          encrypted sealed in
      let decoded = codes_law.index index serialized encoded few in
      let h' = rw (read, derived, opens, decoded) at h in
      let (validated, valid, g) = Errors.>>=-eq-ok (validate_index header index) _ h' in
      let (start, _, g2) =
        Errors.>>=-eq-ok
          (context (checked_add header_bytes header.index_size) "Data offset overflow") _ g in
      valid ∙ ap (λ r. ok r) (ap (λ (o : OpenedContainer). o.index) (ok-inj g2))

  -- Let a file start with a header that passes its checks for the file's length, let the newest slot of the
  -- header be sealed under the password over a data key, and let the encryption under that key of an index
  -- that is accepted for the header follow, with the header's associated data. Then the password opens the
  -- container: the result has that header, that key and that index, the data behind the index, and the file
  -- as it was.
  pub open_container_sealed :
      (law : IsAead c) (codes_law : IsCodec codec) (header : Header)
      (password dek bytes key serialized encrypted : Bytes) (index : Index) (v : ValidatedIndex)
      (r_0 r_1 : SlotRandom) (w : World)
      → serialize_header codec header ≡ ok bytes
      → read_exact_at header_bytes 0 w.file ≡ ok bytes
      → validate_header_basic header (some (length w.file)) ≡ ok tt
      → NewestOpens c header password dek
      → codec.encode_index index ≡ some serialized
      → derive_index_key c dek header.container_id ≡ ok key
      → encrypt_aead c key header.index_nonce (index_aad c header) serialized ≡ ok encrypted
      → read_exact_at header.index_size header_bytes w.file ≡ ok encrypted
      → validate_index header index ≡ ok v
      → open_container c codec password r_0 r_1 w ≡ (
        ok (record {
          file = w.file;
          header = header;
          index = v;
          dek = dek;
          data_start = header_bytes + header.index_size;
        }),
        w,
      )
  unfolding open_container open_unlocked open_index read_header
  open_container_sealed law codes_law header password dek bytes key serialized encrypted index v r_0
        r_1 w written there safe newest encoded derived sealed index_there valid =
      let limits = (validate_header_basic_iff header (some (length w.file))).0 safe in
      let valid_header = (validate_header_basic_iff header none).1 (safe_without_length limits) in
      let unlocks = unlock_newest c header password dek valid_header newest in
      let high = limits.index_high in
      let many = limits.entries in
      let counted = (accepted header index v valid).counted in
      let few : length index.entries ≤ max_entries = omega arith in
      let sum = checked_add_fits header_bytes header.index_size (omega arith) in
      let decoded = codes_law.index index serialized encoded few in
      let opens =
        decrypt_aead-encrypt_aead law key header.index_nonce (index_aad c header) serialized
          encrypted sealed in
      rw
        (
          there,
          decode-serialize_header codec codes_law header bytes written,
          safe,
          unlocks,
          index_there,
          derived,
          opens,
          decoded,
          valid,
          sum,
        )
        refl
