-- ===== src/Pack/Build/Sealing.antt =====
-- The header and the encrypted index that `pack_inner` prepares.
use cipher_fs.V2.Container.Storage.{coded-eq-ok}
use cipher_fs.V2.Keys.Unlocking.{make_key_slot-Opens, Opens}
use cipher_fs.Errors.{bail_if-eq-ok, bail_if, context, ok-inj, ok}
use cipher_fs.Pack.Scan.{scan_source, SourceScan, Walked}
use cipher_fs.Operation.World.{lift-eq-ok, lift, check, report, World}
use cipher_fs.Base.Words.{checked_add, Bytes}
use cipher_fs.Pack.Build.{
  check_request, draft_header, Prepared, PackRandom, prepare, encrypt_index, index_bytes,
  PackRequest, seal_header,
}
use cipher_fs.V2.Types.{
  max_index_size, tag_bytes, DuressSlot_random_disabled, Entry, DuressSlot, SlotRandom, KeySlot,
  Argon2Params, Header,
}
use cipher_fs.V2.Aad.{duress_aad, index_aad, immutable_aad, slot_aad}
use cipher_fs.V2.Keys.{marker, make_key_slot, configure_duress}
use cipher_fs.V2.Container.{coded, Codec}
use cipher_fs.V2.Crypto.{derive_kek, encrypt_aead, derive_index_key, IsAead, Crypto}
use cipher_fs.Base.{
  ◌∙◌, ◌-◌, none, min, arith, ◌==◌, ltb, not, true, some, length, ◌≡◌, List, ℕ, Option, refl, sym,
  ap,
}
use cipher_fs.Errors
use cipher_fs.Operation.World
use mathlib.Core.Path.{subst}
use cipher_fs.Operation.{scan_completed, progress, key_derivation, phase_started, OperationPhase}

module _ (c : Crypto) (codec : Codec) where
  configure_duress_lem :
      (draft h : Header) (password : Option Bytes) (params : Argon2Params) (r : SlotRandom)
      → configure_duress c draft password params r ≡ ok h
      → (slot : DuressSlot) × (h ≡ record draft { duress = slot })
  unfolding configure_duress
  configure_duress_lem draft h none params r e = (_, sym (ok-inj e))
  configure_duress_lem draft h (some password) params r e =
      let slot = record (DuressSlot_random_disabled r) { params = params; enabled = true } in
      let (kek, _, e1) = Errors.>>=-eq-ok (derive_kek c password slot.salt slot.params) _ e in
      let (encrypted, _, e2) =
        Errors.>>=-eq-ok
          (encrypt_aead c kek slot.nonce (duress_aad (record draft { duress = slot }))
            (marker c (record draft { duress = slot })))
          _ e1 in
      (record slot { encrypted_marker = encrypted }, sym (ok-inj e2))

  -- The slots of a header are not part of what a slot authenticates.
  slot_aad-slots :
      (h : Header) (s t : KeySlot) → slot_aad c (record h { slot_0 = s }) t ≡ slot_aad c h t
  unfolding slot_aad immutable_aad
  slot_aad-slots h s t = refl

  -- A header over `draft` with the master password's slot.
  pub record IsSealedHeader (draft h : Header) (password dek : Bytes) : Type 0 where
    pub slot : KeySlot
    pub duress_slot : DuressSlot
    pub header : h ≡ record draft { duress = duress_slot; slot_0 = slot }
    pub opens : Opens c h password slot dek

  seal_header_lem :
      IsAead c
      → (request : PackRequest) (r : PackRandom) (draft h : Header) (w w' : World)
      → length r.dek ≡ 32
      → seal_header c codec request r draft w ≡ (ok h, w')
      → IsSealedHeader draft h request.password r.dek
  unfolding seal_header
  seal_header_lem law request r draft h w w' len e =
      let (_, h1, g1) = World.>>=-eq-ok (report (phase_started key_derivation)) _ w e in
      let (configured, h2, g2) =
        World.>>=-eq-ok
          (lift (configure_duress c draft request.duress_password request.params r.new_duress)) _ _
          g1 in
      let made = (lift-eq-ok _ _ h2).0 in
      let (d, same) =
        configure_duress_lem draft configured request.duress_password request.params r.new_duress
          made in
      let (_, h3, g3) = World.>>=-eq-ok check _ _ g2 in
      let (slot, h4, g4) =
        World.>>=-eq-ok
          (lift (make_key_slot c configured request.password r.dek 1 request.params r.new_slot)) _ _
          g3 in
      let sealed = (lift-eq-ok _ _ h4).0 in
      let (_, h5, g5) = World.>>=-eq-ok check _ _ g4 in
      let last : record configured { slot_0 = slot } ≡ h = ok-inj (lift-eq-ok _ _ g5).0 in
      let opens : Opens c (record configured { slot_0 = slot }) request.password slot r.dek =
        make_key_slot-Opens c law configured (record configured { slot_0 = slot }) request.password
          r.dek 1 request.params r.new_slot slot (omega arith) len (slot_aad-slots configured slot)
          sealed in
      record {
        slot = slot;
        duress_slot = d;
        header = sym last ∙ ap (λ (x : Header). record x { slot_0 = slot }) same;
        opens = subst (λ (x : Header). Opens c x request.password slot r.dek) last opens;
      }

  -- What `prepare` hands on.
  pub record IsPrepared (request : PackRequest) (r : PackRandom) (walk : List Walked) (p : Prepared)
      : Type 0 where
    pub scan : SourceScan
    pub before : World
    pub after : World
    pub scanned : scan_source walk before ≡ (ok scan, after)
    pub entries : p.entries ≡ scan.entries
    pub sources : p.sources ≡ scan.sources
    pub serialized : Bytes
    pub encoded : codec.encode_index (record { entries = scan.entries }) ≡ some serialized
    pub key : Bytes
    pub derived : derive_index_key c r.dek p.header.container_id ≡ ok key
    pub encrypted :
        encrypt_aead c key p.header.index_nonce (index_aad c p.header) serialized
        ≡ ok p.encrypted_index
    pub sized : length p.encrypted_index ≡ p.header.index_size
    pub sealed :
        IsSealedHeader
          (draft_header r p.header.index_size scan.data_offset (length scan.entries))
          p.header
          request.password
          r.dek

  index_bytes_lem :
      (max_size : ℕ) (entries : List Entry) (serialized : Bytes) (size : ℕ)
      → index_bytes c codec max_size entries ≡ ok (serialized, size)
      → codec.encode_index (record { entries = entries }) ≡ some serialized
  unfolding index_bytes
  index_bytes_lem max_size entries serialized size h =
      let (bytes, a, h1) =
        Errors.>>=-eq-ok (coded (codec.encode_index (record { entries = entries }))) _ h in
      let (n, _, h2) =
        Errors.>>=-eq-ok (context (checked_add (length bytes) tag_bytes) "Index size overflow") _
          h1 in
      let (_, h3) =
        Errors.>>-eq-ok
          (bail_if (ltb (min max_size max_index_size) n)
            "Encrypted index exceeds the configured/local limit")
          _ h2 in
      coded-eq-ok _ a ∙ ap (λ b. some b) (ap (λ q. q.0) (ok-inj h3))

  encrypt_index_lem :
      (r : PackRandom) (h : Header) (serialized encrypted : Bytes)
      → encrypt_index c codec r h serialized ≡ ok encrypted
      → (key : Bytes) × (derive_index_key c r.dek h.container_id ≡ ok key)
        × (encrypt_aead c key h.index_nonce (index_aad c h) serialized ≡ ok encrypted)
        × (length encrypted ≡ h.index_size)
  unfolding encrypt_index
  encrypt_index_lem r h serialized encrypted e =
      let (key, a, e1) = Errors.>>=-eq-ok (derive_index_key c r.dek h.container_id) _ e in
      let (bytes, b, e2) =
        Errors.>>=-eq-ok (encrypt_aead c key h.index_nonce (index_aad c h) serialized) _ e1 in
      let (d, e3) =
        Errors.>>-eq-ok
          (bail_if (not (length bytes == h.index_size)) "Internal index size mismatch") _ e2 in
      let same : bytes ≡ encrypted = ok-inj e3 in
      let size : length bytes ≡ h.index_size = ground (arith, bail_if-eq-ok _ _ d) in
      (key, a, b ∙ ap (λ x. ok x) same, subst (λ (x : Bytes). length x ≡ h.index_size) same size)

  pub prepare-IsPrepared :
      IsAead c
      → (request : PackRequest) (r : PackRandom) (walk : List Walked) (p : Prepared) (w w' : World)
      → length r.dek ≡ 32
      → prepare c codec request r walk w ≡ (ok p, w')
      → IsPrepared request r walk p
  unfolding prepare
  prepare-IsPrepared law request r walk p w w' len e =
      let (_, _, g1) = World.>>=-eq-ok check _ w e in
      let (_, _, g2) = World.>>=-eq-ok (lift (check_request request)) _ _ g1 in
      let (_, _, g3) = World.>>=-eq-ok check _ _ g2 in
      let (_, _, g4) = World.>>=-eq-ok (report (phase_started OperationPhase.scan)) _ _ g3 in
      let (_, _, g5) =
        World.>>=-eq-ok
          (report (progress (record { phase = OperationPhase.scan; completed = 0; total = 0 }))) _ _
          g4 in
      let (s, scanned, g6) = World.>>=-eq-ok (scan_source walk) _ _ g5 in
      let (_, _, g7) =
        World.>>=-eq-ok (report (scan_completed (length s.entries - 1) s.total_plaintext)) _ _ g6 in
      let ((serialized, size), h8, g8) =
        World.>>=-eq-ok (lift (index_bytes c codec request.max_index_size s.entries)) _ _ g7 in
      let encoded =
        index_bytes_lem request.max_index_size s.entries serialized size (lift-eq-ok _ _ h8).0 in
      let draft = draft_header r size s.data_offset (length s.entries) in
      let (header, h9, g9) = World.>>=-eq-ok (seal_header c codec request r draft) _ _ g8 in
      let sealed = seal_header_lem law request r draft header _ _ len h9 in
      let (encrypted, h10, g10) =
        World.>>=-eq-ok (lift (encrypt_index c codec r header serialized)) _ _ g9 in
      let (key, derived, made, sized) =
        encrypt_index_lem r header serialized encrypted (lift-eq-ok _ _ h10).0 in
      let same : _ ≡ p = ok-inj (lift-eq-ok _ _ g10).0 in
      let size_same : header.index_size ≡ size = ap (λ (x : Header). x.index_size) sealed.header in
      subst (IsPrepared request r walk) same (record {
        scan = s;
        before = _;
        after = _;
        scanned = scanned;
        entries = refl;
        sources = refl;
        serialized = serialized;
        encoded = encoded;
        key = key;
        derived = derived;
        encrypted = made;
        sized = sized;
        sealed =
            subst
              (λ n.
                IsSealedHeader (draft_header r n s.data_offset (length s.entries)) header
                  request.password r.dek)
              (sym size_same) sealed;
      })
