-- ===== src/Extract/Fuel.antt =====
-- The fuel of the loop over the batches of a file in extract.rs.
use cipher_fs.Operation.Progress.{ProgressTracker}
use cipher_fs.SafeFs.{SafeRoot, PendingFile}
use cipher_fs.Extract.{extract_batch, extract_batches}
use cipher_fs.Errors.{err, ok, Result}
use cipher_fs.Base.{inr, min, inl, Bool-cases, arith, false, ltb, ◌+◌, ◌≤◌, ℕ, ◌≡◌}
use cipher_fs.V2.Types.{Entry}
use cipher_fs.V2.Chunk.{OpenedContainer}
use cipher_fs.V2.Crypto.{Crypto}
use cipher_fs.Base.{refl, zero, suc}
use cipher_fs.Operation.World.{continue, World, Op, ◌>>=◌}

>>=-cong :
    {A B : Type 0} (m : Op A) (f g : A → Op B) (w : World)
    → ((a : A) (u : World) → f a u ≡ g a u)
    → (m >>= f) w ≡ (m >>= g) w
>>=-cong {A} m f g w same = go (m w)
  where
    go : (out : Result A × World) → continue out f ≡ continue out g
    go (ok a, u) = same a u
    go (err e, u) = refl

module _ (c : Crypto) (opened : OpenedContainer) (e : Entry) (batch_size : ℕ)
    (pos : 1 ≤ batch_size) where
  -- Let a batch have room for a chunk. Two amounts of fuel that are not below the number of chunks that are
  -- left give the same run of the loop, whether it succeeds or fails: the loop ends by itself.
  pub extract_batches_fuel :
      (fuel more i : ℕ) (pending : PendingFile) (root : SafeRoot) (t : ProgressTracker) (w : World)
      → e.chunk_count ≤ i + fuel
      → e.chunk_count ≤ i + more
      → extract_batches c opened fuel e batch_size i pending root t w
        ≡ extract_batches c opened more e batch_size i pending root t w
  unfolding extract_batches
  extract_batches_fuel zero zero i pending root t w h k = refl
  extract_batches_fuel zero (suc more) i pending root t w h k =
      let over : ltb i e.chunk_count ≡ false = ground (arith, h) in rw over refl
  extract_batches_fuel (suc fuel) zero i pending root t w h k =
      let over : ltb i e.chunk_count ≡ false = ground (arith, k) in rw over refl
  extract_batches_fuel (suc fuel) (suc more) i pending root t w h k =
      elim (Bool-cases (ltb i e.chunk_count)) [
        | inl b ↦
            let j = min e.chunk_count (i + batch_size) in
            rw b (
              >>=-cong (extract_batch c opened e i j pending root t)
                (λ out. extract_batches c opened fuel e batch_size j pending out.0 out.1)
                (λ out. extract_batches c opened more e batch_size j pending out.0 out.1) w
                (λ out u.
                  extract_batches_fuel fuel more j pending out.0 out.1 u (ground (arith, b))
                    (ground (arith, b))))
        | inr b ↦ rw b refl
      ]
