-- ===== src/Pack/Build/RoundTrip.antt =====
-- From `pack_inner` to the readers of the container that it installs.
use cipher_fs.Pack.Build.Readable.{fill_readable}
use cipher_fs.Pack.Build.Sealing.{prepare-IsPrepared}
use cipher_fs.V2.Limits.ChunkLayout.{plain_len}
use cipher_fs.V2.Index.{is_directory, values}
use cipher_fs.V2.Chunk.Opening.{open_container}
use cipher_fs.V2.Chunk.{decrypt_chunk, OpenedContainer}
use cipher_fs.Pack.Build.Jobs.{IsFair}
use cipher_fs.Pack.Build.Commit.{
  choose_temporary-free, install_output-eq-ok, install_output-IsKept, IsKept,
}
use cipher_fs.Base.Words.{Bytes}
use cipher_fs.Pack.Scan.Complete.{AreNew}
use cipher_fs.Base.Paths.{path_text, PathBuf}
use cipher_fs.Operation.World.{reader, lift, World}
use cipher_fs.V2.Types.{chunk_bytes, Entry, SlotRandom}
use cipher_fs.Pack.Scan.{SourceSnapshot, first_scan, scan_items, SourceScan, Walked}
use cipher_fs.Pack.Build.{fill, prepare, Prepared, PackRun, PackRandom, PackRequest}
use cipher_fs.Base.{
  refl, ◌*◌, drop, take, ◌<◌, Member, false, ℕ_discrete, ℕ, some, ◌∙◌, none, length, ap, [], ◌≡◌,
  List, ◌≢◌,
}
use cipher_fs.V2.Container.{IsCodec, Codec}
use cipher_fs.V2.Crypto.{IsAead, Crypto}
use cipher_fs.Errors.{ok-inj, Result, ok, err}
use cipher_fs.Errors
use cipher_fs.Operation.World
use cipher_fs.Base.Map
use cipher_fs.Pack.Build.Output.{
  after_prepare, pack_inner, prepare_at, OutputDir, OutputSystem, OutputRequest, content_at,
  choose_temporary,
}
use mathlib.Core.Path.{subst}

err_ne_ok : {A : Type 0} {e : Errors.Error} {a : A} → err e ≢ ok a
err_ne_ok = λ h. cc

module _ (c : Crypto) (codec : Codec) (request : PackRequest) (place : OutputRequest)
    (r : PackRandom) (walk : List Walked) (run : PackRun) (r_0 r_1 : SlotRandom)
    (system : OutputSystem) (dir : OutputDir) where
  prepare_at-eq-ok :
      (w u : World) (p : Prepared) (path : PathBuf)
      → prepare_at c codec request place r walk dir w ≡ (ok (p, path), u)
      → (choose_temporary place dir ≡ ok path)
        × (w1 : World) × (prepare c codec request r walk w ≡ (ok p, w1))
  unfolding prepare_at
  prepare_at-eq-ok w u p path e =
      let (q, h1, g1) = World.>>=-eq-ok (prepare c codec request r walk) _ w e in
      let w1 = (prepare c codec request r walk w).1 in
      let (path', h2, g2) = World.>>=-eq-ok (lift (choose_temporary place dir)) _ w1 g1 in
      let both : (q, path') ≡ (p, path) = ok-inj (ap (λ r. r.0) g2) in
      let chosen = (World.lift-eq-ok (choose_temporary place dir) w1 h2).0 in
      (chosen ∙ ap (λ x. ok x.1) both, w1, h1 ∙ ap (λ (x : Prepared × PathBuf). (ok x.0, w1)) both)

  after_prepare-eq-ok :
      (w u w' : World) (dir' : OutputDir) (s : Result (Prepared × PathBuf))
      → prepare_at c codec request place r walk dir w ≡ (s, u)
      → after_prepare c codec request place r run r_0 r_1 system dir u s ≡ (ok tt, dir', w')
      → (p : Prepared) × (w1 : World) × (prepare c codec request r walk w ≡ (ok p, w1))
        × (path : Bytes) × (w0 : World) × (w2 : World) × (fill c codec request.password r path run
              r_0 r_1 p w0
            ≡ (ok tt, w2))
        × (content_at place.output dir ≡ none)
        × (content_at place.output dir' ≡ some w2.file)
  unfolding after_prepare
  after_prepare-eq-ok w u w' dir' (err e) q h = absurd (err_ne_ok (ap (λ r. r.0) h))
  after_prepare-eq-ok w u w' dir' (ok (p, path)) q h =
      let (_, w1, made) = prepare_at-eq-ok w u p path q in
      let (w2, filled, free, out) =
        install_output-eq-ok system place.output path
          (fill c codec request.password r (path_text path) run r_0 r_1 p) dir dir' u w' h in
      (p, w1, made, path_text path, record u { file = [] }, w2, filled, free, out)

  after_prepare-IsKept :
      (w u w' : World) (dir' : OutputDir) (s : Result (Prepared × PathBuf)) (e : Errors.Error)
      → prepare_at c codec request place r walk dir w ≡ (s, u)
      → after_prepare c codec request place r run r_0 r_1 system dir u s ≡ (err e, dir', w')
      → IsKept dir dir'
  unfolding after_prepare
  after_prepare-IsKept w u w' dir' (err _) e q h =
      subst (IsKept dir) (ap (λ r. r.1) h) (λ path. refl)
  after_prepare-IsKept w u w' dir' (ok (p, path)) e q h =
      let (chosen, _, _) = prepare_at-eq-ok w u p path q in
      install_output-IsKept system place.output path
        (fill c codec request.password r (path_text path) run r_0 r_1 p) dir dir' u w' e
        (choose_temporary-free place dir path chosen) h

  pack_inner-eq-ok :
      (w w' : World) (dir' : OutputDir)
      → pack_inner c codec request place r walk run r_0 r_1 system dir w ≡ (ok tt, dir', w')
      → (p : Prepared) × (w1 : World) × (prepare c codec request r walk w ≡ (ok p, w1))
        × (path : Bytes) × (w0 : World) × (w2 : World) × (fill c codec request.password r path run
              r_0 r_1 p w0
            ≡ (ok tt, w2))
        × (content_at place.output dir ≡ none)
        × (content_at place.output dir' ≡ some w2.file)
  unfolding pack_inner
  pack_inner-eq-ok w w' dir' h =
      let start = prepare_at c codec request place r walk dir w in
      after_prepare-eq-ok w start.1 w' dir' start.0 refl h

  -- When packing fails at any point, every path holds what it held before: the output is untouched, and no
  -- temporary file is left, whether its name was drawn or asked for.
  pub pack_inner_refused :
      (w w' : World) (dir' : OutputDir) (e : Errors.Error)
      → pack_inner c codec request place r walk run r_0 r_1 system dir w ≡ (err e, dir', w')
      → (path : PathBuf) → content_at path dir' ≡ content_at path dir
  unfolding pack_inner
  pack_inner_refused w w' dir' e h =
      let start = prepare_at c codec request place r walk dir w in
      after_prepare-IsKept w start.1 w' dir' start.0 e refl h

  -- When packing a walk that visits each path once succeeds, with a key of 32 bytes, the sources taken one
  -- after another in any order and the chunks of each in any order, nothing stood at the output path
  -- before, and the container there now is opened by the password of the request; its index holds the
  -- entries of the scan in their order; and each file of the index has a source in the scan that was
  -- read, and all its chunks decrypt to their ranges of what was read.
  pub pack_inner_readable :
      IsAead c
      → IsCodec codec
      → (w w' : World) (dir' : OutputDir) → AreNew walk []
      → length r.dek ≡ 32
      → IsFair run
      → pack_inner c codec request place r walk run r_0 r_1 system dir w ≡ (ok tt, dir', w')
      → (s_0 s_1 : SlotRandom)
      → (content_at place.output dir ≡ none)
        × (content : Bytes) × (content_at place.output dir' ≡ some content)
        × (opened : OpenedContainer) × (open_container c codec request.password s_0 s_1
              (reader content)
            ≡ (ok opened, reader content))
        × (scan : SourceScan) × (scan_items walk first_scan ≡ ok scan)
        × (values opened.index.entries ≡ scan.entries)
        × ((k : ℕ) (e : Entry)
            → Map.get ℕ_discrete k opened.index.entries ≡ some e
            → is_directory e.kind ≡ false
            → (snapshot : SourceSnapshot) × Member (k, snapshot) scan.sources
              × (x : Bytes) × ((run.view snapshot).content ≡ some x)
              × ((i : ℕ)
                  → i < e.chunk_count
                  → decrypt_chunk c opened e i
                    ≡ ok (take (plain_len e.size i) (drop (i * chunk_bytes) x))))
  pack_inner_readable law codes_law w w' dir' new len fair h s_0 s_1 =
      let (p, w1, made, path, w0, w2, filled, free, out) = pack_inner-eq-ok w w' dir' h in
      let prep = prepare-IsPrepared c codec law request r walk p w w1 len made in
      let (opened, opens, scanned, entries, files) =
        fill_readable law codes_law request r walk p prep new run fair path r_0 r_1 w0 w2 filled s_0
          s_1 in
      (free, w2.file, out, opened, opens, prep.scan, scanned, entries, files)
