-- ===== src/ReadOnly/ChunkCache/Races.antt =====
-- Two readers that miss the same chunk.
use cipher_fs.Base.{ℕ, ◌+◌, ◌≤◌, ◌<◌, ◌≡◌, refl, false, ◌||◌, [], ◌∷◌, ltb, ◌==◌, length, arith}
use cipher_fs.Base.Words.{Bytes}
use cipher_fs.Base.Map
use cipher_fs.Base.Map.{Map}
use cipher_fs.ReadOnly.ChunkCache.{
  CacheKey, key_discrete, Cache, empty_cache, find_cached, evict, store, finds, stores, cache_run,
}
use cipher_fs.ReadOnly.ChunkCache.Bound.{held}

abbrev once : ℕ → CacheKey → Bytes → Cache
once max_bytes key value = record {
  max_bytes = max_bytes;
  bytes = length value;
  values = (key, value) ∷ [];
  order = key ∷ [];
}

store_empty :
    (max_bytes : ℕ) (key : CacheKey) (value : Bytes)
    → length value ≤ max_bytes
    → 0 < length value
    → store key value (empty_cache max_bytes) ≡ once max_bytes key value
unfolding store evict Map.insert
store_empty max_bytes key value room positive =
    let test : (max_bytes == 0 || ltb max_bytes (length value)) ≡ false = ground arith in
    let sum : 0 + length value ≡ length value = omega arith in rw (test, sum) refl

insert_once :
    (key : CacheKey) (value : Bytes)
    → Map.insert key_discrete key value ((key, value) ∷ []) ≡ (key, value) ∷ []
unfolding Map.insert
insert_once key value = ground arith

store-once :
    (max_bytes : ℕ) (key : CacheKey) (value : Bytes)
    → length value + length value ≤ max_bytes
    → 0 < length value
    → store key value (once max_bytes key value) ≡ record (once max_bytes key value) {
      bytes = length value + length value;
      order = key ∷ key ∷ [];
    }
unfolding store evict
store-once max_bytes key value room positive =
    let test : (max_bytes == 0 || ltb max_bytes (length value)) ≡ false = ground arith in
    let full : ltb max_bytes (length value + length value) ≡ false = ground arith in
    rw (test, full, insert_once key value) refl

-- Two readers that miss the same chunk store it one after the other.
abbrev pub raced : ℕ → CacheKey → Bytes → Cache
raced max_bytes key value =
    cache_run (finds key ∷ finds key ∷ stores key value ∷ stores key value ∷ [])
      (empty_cache max_bytes)

-- When two readers miss the same chunk in an empty cache with room for it twice, the cache then counts
-- its bytes twice and holds them once.
pub raced_misses :
    (max_bytes : ℕ) (key : CacheKey) (value : Bytes)
    → length value + length value ≤ max_bytes
    → 0 < length value
    → ((raced max_bytes key value).bytes ≡ length value + length value)
      × (held (raced max_bytes key value).values ≡ length value)
unfolding find_cached Map.get
raced_misses max_bytes key value room positive =
    let first = store_empty max_bytes key value (omega arith) positive in
    let second = store-once max_bytes key value room positive in
    rw (first, second) (refl, omega arith)
