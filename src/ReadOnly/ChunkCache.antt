-- ===== src/ReadOnly/ChunkCache.antt =====
-- The chunk cache of readonly_fs.rs. `load_chunk` holds its lock in two separate sections, `find_cached`
-- and `store`, between which another reader may run.
pub mod Bound
pub mod Races
use cipher_fs.Base.{
  ℕ, ◌+◌, ◌-◌, Bool, true, false, ◌||◌, Option, none, some, List, [], ◌∷◌, ◌++◌, ltb, ◌==◌,
  if◌then◌else◌, length, ℕ_discrete, ite,
}
use cipher_fs.Base.Words.{Bytes}
use cipher_fs.Base.Map
use cipher_fs.Base.Map.{Map}
use mathlib.Core.List
use mathlib.Core.HLevel.{×_discrete}

-- A file id and a chunk's index.
abbrev pub CacheKey : Type 0
CacheKey = Bytes × ℕ

unfoldable pub key_discrete : Discrete CacheKey
key_discrete = ×_discrete (List.List-discrete ℕ_discrete) ℕ_discrete

pub record Cache : Type 0 where
  pub max_bytes : ℕ
  pub bytes : ℕ
  pub values : Map CacheKey Bytes
  -- Oldest first.
  pub order : List CacheKey

abbrev pub empty_cache : ℕ → Cache
empty_cache max_bytes = record { max_bytes = max_bytes; bytes = 0; values = []; order = [] }

-- `order.remove(position)` at the first position of the key, when it has one.
unfoldable pub remove_first : CacheKey → List CacheKey → List CacheKey
remove_first key [] = []
remove_first key (k ∷ ks) = ite (key_discrete k key) ks (k ∷ remove_first key ks)

-- The first section, on a value that was found: its key becomes the newest.
unfoldable pub renew : CacheKey → Cache → Cache
unfolding remove_first
renew key cache = record cache { order = remove_first key cache.order ++ (key ∷ []) }

-- The first section.
abbrev pub found : CacheKey → Cache → Option Bytes → Option Bytes × Cache
found key cache (some value) = (some value, renew key cache)
found key cache none = (none, cache)

unfoldable pub find_cached : CacheKey → Cache → Option Bytes × Cache
unfolding renew
find_cached key cache = found key cache (Map.get key_discrete key cache.values)

-- The counted bytes without those of a removed value.
abbrev pub release : ℕ → Option Bytes → ℕ
release bytes none = bytes
release bytes (some old) = bytes - length old

-- One turn of the eviction loop for the key taken from the front; the order is passed apart.
abbrev pub drop_key : CacheKey → Cache → Cache
drop_key oldest cache = record cache {
  bytes = release cache.bytes (Map.get key_discrete oldest cache.values);
  values = Map.remove key_discrete oldest cache.values;
}

-- The loop, until there is room for `len` more bytes or no key is left.
unfoldable pub evict : ℕ → List CacheKey → Cache → Cache
evict len [] cache = record cache { order = [] }
evict len (oldest ∷ order) cache =
    let rest = evict len order (drop_key oldest cache) in
    if ltb cache.max_bytes (cache.bytes + len)
    then rest
    else record cache { order = oldest ∷ order }

-- The end of the second section.
abbrev pub place : CacheKey → Bytes → Cache → Cache
place key value cache = record cache {
  bytes = cache.bytes + length value;
  order = cache.order ++ (key ∷ []);
  values = Map.insert key_discrete key value cache.values;
}

-- The second section.
unfoldable pub store : CacheKey → Bytes → Cache → Cache
unfolding evict
store key value cache =
    if cache.max_bytes == 0 || ltb cache.max_bytes (length value)
    then cache
    else place key value (evict (length value) cache.order cache)

-- What one reader does to the cache while it holds the lock.
pub data CacheStep : Type 0 where
  finds : CacheKey → CacheStep
  stores : CacheKey → Bytes → CacheStep

abbrev pub cache_step : CacheStep → Cache → Cache
cache_step (finds key) cache = (find_cached key cache).1
cache_step (stores key value) cache = store key value cache

-- A run: the steps of all readers in the order in which they take the lock.
abbrev pub cache_run : List CacheStep → Cache → Cache
cache_run [] cache = cache
cache_run (s ∷ steps) cache = cache_run steps (cache_step s cache)
