-- ===== src/ReadOnly/Mounting.antt =====
-- `ReadOnlyFs::open` and `ReadOnlyV2Fs::new`: the opened container with an empty cache.
use cipher_fs.Base.{◌↔◌, ℕ, ◌*◌, ◌≤◌, ◌≡◌, Option, ltb, arith}
use cipher_fs.Base.Words.{Bytes, checked_mul}
use cipher_fs.Errors
use cipher_fs.Errors.{Result, ok, bail_if, context, context-eq-ok, bail_if-eq-ok}
use cipher_fs.Operation.World.{Op, ◌>>=◌, ◌>>◌, lift}
use cipher_fs.V2.Types.{SlotRandom}
use cipher_fs.V2.Crypto.{Crypto}
use cipher_fs.V2.Container.{Codec}
use cipher_fs.V2.Chunk.{OpenedContainer}
use cipher_fs.V2.Chunk.Opening.{open_container}
use cipher_fs.Format.{require_v2}
use cipher_fs.ReadOnly.ChunkCache.{Cache, empty_cache}

pub record ReadOnlyV2Fs : Type 0 where
  pub opened : OpenedContainer
  pub cache : Cache

-- `usize` has 64 bits, so the conversion of the product never fails.
unfoldable pub cache_limit : ℕ → Result ℕ
cache_limit cache_mib =
    Errors.◌>>◌ (bail_if (ltb 1024 cache_mib) "Chunk cache cannot exceed 1024 MiB")
      (context (checked_mul cache_mib (1024 * 1024)) "Cache size overflow")

module _ (c : Crypto) (codec : Codec) where
  unfoldable pub ReadOnlyV2Fs_new : Bytes → ℕ → SlotRandom → SlotRandom → Op ReadOnlyV2Fs
  ReadOnlyV2Fs_new password cache_mib r_0 r_1 = do
    max_bytes ← lift (cache_limit cache_mib)
    opened ← open_container c codec password r_0 r_1
    lift (ok (record { opened = opened; cache = empty_cache max_bytes }))

  unfoldable pub ReadOnlyFs_open :
      (Bytes → Option Bytes) → Bytes → ℕ → SlotRandom → SlotRandom → Op ReadOnlyV2Fs
  unfolding ReadOnlyV2Fs_new
  ReadOnlyFs_open decode_legacy password cache_mib r_0 r_1 = do
    λ w. (require_v2 decode_legacy codec w.file, w)
    ReadOnlyV2Fs_new password cache_mib r_0 r_1

-- A cache limit is accepted exactly up to 1024 MiB, and is then that many bytes.
pub cache_limit_iff :
    (cache_mib n : ℕ)
    → (cache_limit cache_mib ≡ ok n) ↔ ((cache_mib ≤ 1024) × (n ≡ cache_mib * 1048576))
unfolding cache_limit
cache_limit_iff cache_mib n = (λ h. ground arith, λ h. ground arith)
