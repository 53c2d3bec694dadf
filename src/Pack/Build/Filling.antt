-- ===== src/Pack/Build/Filling.antt =====
-- What the temporary file holds at each stage of `fill`.
use cipher_fs.Operation.{progress, self_verify, key_derivation, phase_started}
use cipher_fs.V2.Chunk.Opening.{open_container_lem, open_container}
use cipher_fs.Base.Words.{checked_mul, Bytes}
use cipher_fs.Operation.Progress.{ProgressTracker}
use cipher_fs.Errors.{context, with_context, with_context-eq-ok, ok}
use cipher_fs.V2.Types.{chunk_bytes, SlotRandom, Entry}
use cipher_fs.V2.Chunk.{decrypt_chunk, OpenedContainer}
use cipher_fs.V2.Container.{Codec}
use cipher_fs.V2.Crypto.{Crypto}
use cipher_fs.Pack.Build.{self_verification, op_context, with_self_verify_reporter}
use cipher_fs.Operation.World.{file-report, file-check, check, lift, report, World, Op}
use cipher_fs.V2.Chunk.Verify.{
  file_chunks, files_by_offset, total_size, start_tracker, verify_chunk, verify_all_with_control,
  verify_chunks,
}
use cipher_fs.Base.{[], ◌∷◌, ◌∙◌, ℕ, ◌≡◌, List, String, refl, sym, ap}
use cipher_fs.Operation.World
use mathlib.Core.Path.{ap₂}

-- The self verification does not write.
verify_chunks-file :
    (c : Crypto) (opened : OpenedContainer) (order : List (Entry × ℕ)) (t t' : ProgressTracker)
    (w w' : World)
    → verify_chunks c opened order t w ≡ (ok t', w')
    → w'.file ≡ w.file
unfolding verify_chunks verify_chunk report
verify_chunks-file c opened [] t t' w w' h = sym (ap (λ r. r.1.file) h)
verify_chunks-file c opened ((entry, i) ∷ order) t t' w w' h =
    let (t1, h1, h2) = World.>>=-eq-ok (verify_chunk c opened entry i t) _ w h in
    let u = (verify_chunk c opened entry i t w).1 in
    let (_, a1, b1) = World.>>=-eq-ok check _ w h1 in
    let (plain, a2, b2) =
      World.>>=-eq-ok
        (lift (with_context (decrypt_chunk c opened entry i) "File entry chunk failed")) _ _ b1 in
    let (offset, a3, b3) =
      World.>>=-eq-ok
        (lift (context (checked_mul i chunk_bytes) "Verification chunk offset overflow")) _ _ b2 in
    let same : u.file ≡ (check w).1.file = sym (ap (λ r. r.1.file) b3) in
    verify_chunks-file c opened order t1 t' u w' h2 ∙ same ∙ file-check w

file-start_tracker :
    (c : Crypto) (total : ℕ) (w : World) → (start_tracker c total w).1.file ≡ w.file
unfolding start_tracker
file-start_tracker c total w = refl

verify_all-file :
    (c : Crypto) (schedule : List (Entry × ℕ) → List (Entry × ℕ)) (opened : OpenedContainer)
    (w w' : World)
    → verify_all_with_control c schedule opened w ≡ (ok tt, w')
    → w'.file ≡ w.file
unfolding verify_all_with_control
verify_all-file c schedule opened w w' h =
    let (total, h1, g1) = World.>>=-eq-ok (lift (total_size (files_by_offset opened) 0)) _ w h in
    let (t, h2, g2) = World.>>=-eq-ok (start_tracker c total) _ w g1 in
    let u = (start_tracker c total w).1 in
    let (t', h3, g3) =
      World.>>=-eq-ok (verify_chunks c opened (schedule (file_chunks (files_by_offset opened))) t) _
        u g2 in
    sym (ap (λ r. r.1.file) g3)
    ∙ verify_chunks-file c opened (schedule (file_chunks (files_by_offset opened))) t t' u _ h3
    ∙ file-start_tracker c total w

op_context-eq-ok :
    {A : Type 0} (m : Op A) (text : String) (w w' : World) {a : A}
    → op_context m text w ≡ (ok a, w')
    → m w ≡ (ok a, w')
unfolding op_context
op_context-eq-ok m text w w' h =
    ap₂ (λ r u. (r, u)) (with_context-eq-ok (m w).0 text (ap (λ r. r.0) h)) (ap (λ r. r.1) h)

with_self_verify_reporter-eq-ok :
    (m : Op (Unit {0})) (w w' : World)
    → with_self_verify_reporter m w ≡ (ok tt, w')
    → (m (record w { events = [] }) ≡ (ok tt, (m (record w { events = [] })).1))
      × (w'.file ≡ (m (record w { events = [] })).1.file)
unfolding with_self_verify_reporter
with_self_verify_reporter-eq-ok m w w' h =
    (ap (λ r. (r, (m (record w { events = [] })).1)) (ap (λ r. r.0) h), sym (ap (λ r. r.1.file) h))

module _ (c : Crypto) (codec : Codec) where
  -- The self verification opens the file that it leaves.
  pub self_verification_lem :
      (schedule : List (Entry × ℕ) → List (Entry × ℕ)) (password : Bytes) (r_0 r_1 : SlotRandom)
      (total : ℕ) (w w' : World)
      → self_verification c codec schedule password r_0 r_1 total w ≡ (ok tt, w')
      → (opened : OpenedContainer) × (u : World) × (u' : World) × (open_container c codec password
            r_0 r_1 u
          ≡ (ok opened, u'))
        × (u.file ≡ w.file)
        × (w'.file ≡ w.file)
  unfolding self_verification
  self_verification_lem schedule password r_0 r_1 total w w' h =
      let (_, h1, g1) = World.>>=-eq-ok check _ w h in
      let (_, h2, g2) = World.>>=-eq-ok (report (phase_started key_derivation)) _ (check w).1 g1 in
      let u = (report (phase_started key_derivation) (check w).1).1 in
      let again =
        op_context (open_container c codec password r_0 r_1)
          "Self-verification could not reopen v2 container" in
      let (opened, h3, g3) = World.>>=-eq-ok again _ u g2 in
      let u' = (again u).1 in
      let open_ok = op_context-eq-ok (open_container c codec password r_0 r_1) _ u u' h3 in
      let (_, _, _, _, _, left) = open_container_lem c codec password r_0 r_1 u u' opened open_ok in
      let (_, h4, g4) = World.>>=-eq-ok check _ u' g3 in
      let (_, h5, g5) = World.>>=-eq-ok (report (phase_started self_verify)) _ (check u').1 g4 in
      let (_, h6, g6) =
        World.>>=-eq-ok
          (report (progress (record { phase = self_verify; completed = 0; total = total }))) _ _
          g5 in
      let x =
        (report (progress (record { phase = self_verify; completed = 0; total = total }))
          (report (phase_started self_verify) (check u').1).1).1 in
      let verifying = with_self_verify_reporter (verify_all_with_control c schedule opened) in
      let (_, h7, g7) =
        World.>>=-eq-ok (op_context verifying "Self-verification of packed container failed") _ x
          g6 in
      let y = (verifying x).1 in
      let verified = op_context-eq-ok verifying _ x y h7 in
      let (run, same) =
        with_self_verify_reporter-eq-ok (verify_all_with_control c schedule opened) x y verified in
      let (_, h8, g8) = World.>>=-eq-ok check _ y g7 in
      let start : u.file ≡ w.file = file-report (phase_started key_derivation) _ ∙ file-check w in
      (
        opened,
        u,
        u',
        open_ok,
        start,
        sym (ap (λ r. r.1.file) g8)
            ∙ file-check (check y).1
            ∙ file-check y
            ∙ same
            ∙ verify_all-file c schedule opened (record x { events = [] }) _ run
            ∙ file-report (progress (record { phase = self_verify; completed = 0; total = total }))
                _
            ∙ file-report (phase_started self_verify) _
            ∙ file-check u'
            ∙ ap (λ (v : World). v.file) left
            ∙ start,
      )
