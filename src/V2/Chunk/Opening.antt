-- ===== src/V2/Chunk/Opening.antt =====
-- `open` of v2.rs: from a container and a password to an opened container.
use cipher_fs.Base.{◌≢◌, ◌+◌, ◌≡◌, refl, sym, ap}
use cipher_fs.Base.Words.{Bytes, checked_add, checked_add-eq-some}
use cipher_fs.Errors
use cipher_fs.Errors.{Result, ok, err, bail, context, with_context, context-eq-ok}
use cipher_fs.Operation.World
use cipher_fs.Operation.World.{World, Op, ◌>>=◌, ◌>>◌, lift, read_exact_at, lift-eq-ok}
use cipher_fs.V2.Types.{
  Header, Index, SlotRandom, UnlockResult, unlocked, duress, failed, header_bytes,
}
use cipher_fs.V2.Crypto.{Crypto, derive_index_key, decrypt_aead}
use cipher_fs.V2.Aad.{index_aad}
use cipher_fs.V2.Keys.{unlock}
use cipher_fs.V2.Container.{Codec, coded, read_header}
use cipher_fs.V2.Password.{wipe_for_duress}
use cipher_fs.V2.Index.{validate_index}
use cipher_fs.V2.Chunk.{OpenedContainer}
use mathlib.Core.Path.{subst}

bail_ne_ok :
    (o : OpenedContainer) → bail "Unable to unlock container (wrong password or damage)" ≢ ok o
bail_ne_ok o = λ q. cc

module _ (c : Crypto) (codec : Codec) where
  -- The end of `open`, with the data key.
  unfoldable pub open_index : Header → Bytes → Bytes → Result OpenedContainer
  open_index header dek file =
      Errors.◌>>=◌ (read_exact_at header.index_size header_bytes file) λ encrypted_index.
        Errors.◌>>=◌ (derive_index_key c dek header.container_id) λ index_key.
          Errors.◌>>=◌
            (with_context
              (decrypt_aead c index_key header.index_nonce (index_aad c header) encrypted_index)
              "Index authentication failed")
            λ serialized.
              Errors.◌>>=◌
                (with_context (coded (codec.decode_index serialized)) "Invalid v2 index encoding")
                λ index. Errors.◌>>=◌ (validate_index header index) λ validated.
                  Errors.◌>>=◌
                    (context (checked_add header_bytes header.index_size) "Data offset overflow")
                    λ data_start. ok (record {
                      file = file;
                      header = header;
                      index = validated;
                      dek = dek;
                      data_start = data_start;
                    })

  -- The `match` on what the password unlocks.
  unfoldable pub open_unlocked :
      Header → SlotRandom → SlotRandom → UnlockResult → Op OpenedContainer
  unfolding open_index
  open_unlocked header r_0 r_1 (unlocked dek) = λ w. (open_index header dek w.file, w)
  open_unlocked header r_0 r_1 duress = do
    wipe_for_duress codec header r_0 r_1
    lift (bail "Unable to unlock container (wrong password or damage)")
  open_unlocked header r_0 r_1 failed =
      lift (bail "Unable to unlock container (wrong password or damage)")

  unfoldable pub open_container : Bytes → SlotRandom → SlotRandom → Op OpenedContainer
  unfolding open_unlocked
  open_container password r_0 r_1 = do
    header ← λ w. (read_header codec w.file, w)
    u ← lift (unlock c header password)
    open_unlocked header r_0 r_1 u

  pub open_index_lem :
      (header : Header) (dek file : Bytes) (opened : OpenedContainer)
      → open_index header dek file ≡ ok opened
      → (index : Index) × (validate_index header index ≡ ok opened.index)
        × (opened.header ≡ header)
        × (opened.dek ≡ dek)
        × (opened.file ≡ file)
        × (opened.data_start ≡ header_bytes + header.index_size)
  unfolding open_index
  open_index_lem header dek file opened h =
      let (encrypted, h1, g1) =
        Errors.>>=-eq-ok (read_exact_at header.index_size header_bytes file) _ h in
      let (key, h2, g2) = Errors.>>=-eq-ok (derive_index_key c dek header.container_id) _ g1 in
      let (serialized, h3, g3) =
        Errors.>>=-eq-ok
          (with_context (decrypt_aead c key header.index_nonce (index_aad c header) encrypted)
            "Index authentication failed")
          _ g2 in
      let (index, h4, g4) =
        Errors.>>=-eq-ok
          (with_context (coded (codec.decode_index serialized)) "Invalid v2 index encoding") _ g3 in
      let (validated, h5, g5) = Errors.>>=-eq-ok (validate_index header index) _ g4 in
      let (start, h6, g6) =
        Errors.>>=-eq-ok
          (context (checked_add header_bytes header.index_size) "Data offset overflow") _ g5 in
      let (at_, _) =
        checked_add-eq-some header_bytes header.index_size start (context-eq-ok _ _ h6) in
      let made : OpenedContainer = record {
        file = file;
        header = header;
        index = validated;
        dek = dek;
        data_start = start;
      } in
      let e : made ≡ opened = cc in
      subst
        (λ (o : OpenedContainer).
          (index : Index) × (validate_index header index ≡ ok o.index)
          × (o.header ≡ header)
          × (o.dek ≡ dek)
          × (o.file ≡ file)
          × (o.data_start ≡ header_bytes + header.index_size))
        e (index, h5, refl, refl, refl, at_)

  -- Opening succeeds only when the header of the file passes its checks and the password unlocks the data
  -- key; then the index has been accepted by `validate_index`, the data start right behind the index, and
  -- the file has not been changed.
  pub open_container_lem :
      (password : Bytes) (r_0 r_1 : SlotRandom) (w w' : World) (opened : OpenedContainer)
      → open_container password r_0 r_1 w ≡ (ok opened, w')
      → (read_header codec w.file ≡ ok opened.header)
        × (unlock c opened.header password ≡ ok (unlocked opened.dek))
        × ((index : Index) × (validate_index opened.header index ≡ ok opened.index))
        × (opened.file ≡ w.file)
        × (opened.data_start ≡ header_bytes + opened.header.index_size)
        × (w' ≡ w)
  unfolding open_container
  open_container_lem password r_0 r_1 w w' opened h =
      let (header, h1, g1) = World.>>=-eq-ok (λ (u : World). (read_header codec u.file, u)) _ w h in
      let (u, h2, g2) = World.>>=-eq-ok (lift (unlock c header password)) _ w g1 in
      let (key, _) = lift-eq-ok (unlock c header password) w h2 in
      go header (ap (λ r. r.0) h1) u key g2
    where
      go :
          (header : Header)
          → read_header codec w.file ≡ ok header
          → (u : UnlockResult) → unlock c header password ≡ ok u
          → open_unlocked header r_0 r_1 u w ≡ (ok opened, w')
          → (read_header codec w.file ≡ ok opened.header)
            × (unlock c opened.header password ≡ ok (unlocked opened.dek))
            × ((index : Index) × (validate_index opened.header index ≡ ok opened.index))
            × (opened.file ≡ w.file)
            × (opened.data_start ≡ header_bytes + opened.header.index_size)
            × (w' ≡ w)
      go header read (unlocked dek) key run =
          let (index, valid, p, q, f, s) =
            open_index_lem header dek w.file opened (ap (λ r. r.0) run) in
          rw (p, q) (read, key, (index, valid), f, s, sym (ap (λ r. r.1) run))
      go header read duress key run =
          let (_, h2, g2) = World.>>=-eq-ok (wipe_for_duress codec header r_0 r_1) _ w run in
          absurd (bail_ne_ok opened (ap (λ r. r.0) g2))
      go header read failed key run = absurd (bail_ne_ok opened (ap (λ r. r.0) run))
