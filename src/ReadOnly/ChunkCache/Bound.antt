-- ===== src/ReadOnly/ChunkCache/Bound.antt =====
-- The bytes that the cache holds, in every interleaving of its readers.
use cipher_fs.Base.{
  ℕ, ◌+◌, ◌≤◌, ◌≡◌, ◌≢◌, refl, sym, ◌∙◌, inl, inr, ◌||◌, Option, none, some, List, [], ◌∷◌, ltb,
  ◌==◌, length, ite, Member, Member-append_left, Member-append_right, Bool-cases, arith,
}
use cipher_fs.Base.Words.{Bytes}
use cipher_fs.Base.Map
use cipher_fs.Base.Map.{Map}
use cipher_fs.ReadOnly.ChunkCache.{
  CacheKey, key_discrete, Cache, empty_cache, remove_first, renew, found, find_cached, drop_key,
  evict, place, store, CacheStep, finds, stores, cache_run,
}
use mathlib.Core.Path.{subst}

-- The bytes of the values.
abbrev pub held : Map CacheKey Bytes → ℕ
held [] = 0
held ((k, v) ∷ m) = length v + held m

abbrev len_at : Option Bytes → ℕ
len_at none = 0
len_at (some v) = length v

held-remove :
    (key : CacheKey) (m : Map CacheKey Bytes)
    → len_at (Map.get key_discrete key m) + held (Map.remove key_discrete key m) ≤ held m
unfolding Map.get Map.remove
held-remove key [] = omega arith
held-remove key ((k, v) ∷ m) = ground (arith, held-remove key m)

held-insert :
    (key : CacheKey) (value : Bytes) (m : Map CacheKey Bytes)
    → held (Map.insert key_discrete key value m) ≤ length value + held m
unfolding Map.insert
held-insert key value [] = omega arith
held-insert key value ((k, v) ∷ m) = ground (arith, held-insert key value m)

-- Every key with a value stands in the order.
abbrev IsOrdered : List CacheKey → Map CacheKey Bytes → Type 0
IsOrdered order m =
    (key : CacheKey) (v : Bytes) → Map.get key_discrete key m ≡ some v → Member key order

-- What every step keeps: the counted bytes cover the values, the order covers their keys, and the
-- values fit into the limit.
pub record IsBounded (cache : Cache) : Type 0 where
  pub counted : held cache.values ≤ cache.bytes
  pub ordered : IsOrdered cache.order cache.values
  pub fits : held cache.values ≤ cache.max_bytes

Member-remove_first :
    (key k : CacheKey) (ks : List CacheKey) → k ≢ key → Member k ks → Member k (remove_first key ks)
unfolding remove_first
Member-remove_first key k [] n m = m
Member-remove_first key k (x ∷ ks) n m = go (key_discrete x key) m (Member-remove_first key k ks n)
  where
    go :
        (d : Dec (x ≡ key))
        → Member k (x ∷ ks)
        → (Member k ks → Member k (remove_first key ks))
        → Member k (ite d ks (x ∷ remove_first key ks))
    go (yes q) (inl e) rest = absurd (n (e ∙ q))
    go (yes q) (inr e) rest = e
    go (no q) (inl e) rest = inl e
    go (no q) (inr e) rest = inr (rest e)

renew-IsBounded : (key : CacheKey) (cache : Cache) → IsBounded cache → IsBounded (renew key cache)
unfolding renew
renew-IsBounded key cache b = record {
  counted = b.counted;
  fits = b.fits;
  ordered = λ k v h. elim (key_discrete k key) [
    | yes p ↦ Member-append_right k (remove_first key cache.order) (key ∷ []) (inl p)
    | no n ↦
        Member-append_left k (remove_first key cache.order) (key ∷ [])
          (Member-remove_first key k cache.order n (b.ordered k v h))
  ];
}

-- Without keys there are no values.
held_unordered : (m : Map CacheKey Bytes) → IsOrdered [] m → held m ≡ 0
unfolding Map.get
held_unordered [] h = refl
held_unordered ((k, v) ∷ m) h = elim (h k v (first_value k v m)) [ ]
  where
    first_value :
        (k : CacheKey) (v : Bytes) (m : Map CacheKey Bytes)
        → Map.get key_discrete k ((k, v) ∷ m) ≡ some v
    first_value k v m = ground arith

drop_key-IsOrdered :
    (oldest : CacheKey) (order : List CacheKey) (cache : Cache)
    → IsOrdered (oldest ∷ order) cache.values
    → IsOrdered order (drop_key oldest cache).values
drop_key-IsOrdered oldest order cache h k v at_ = elim (key_discrete oldest k) [
  | yes p ↦
      let gone = Map.get-remove_self key_discrete oldest cache.values in
      let at' : Map.get key_discrete oldest (Map.remove key_discrete oldest cache.values) ≡ some v =
        subst (λ j. Map.get key_discrete j (Map.remove key_discrete oldest cache.values) ≡ some v)
          (sym p) at_ in
      absurd (let n : none ≢ some v = λ q. cc in n (sym gone ∙ at'))
  | no n ↦ elim (h k v (sym (Map.get-remove_ne key_discrete oldest k cache.values n) ∙ at_)) [
    | inl e ↦ absurd (n (sym e))
    | inr m ↦ m
  ]
]

drop_key-counted :
    (oldest : CacheKey) (cache : Cache)
    → held cache.values ≤ cache.bytes
    → held (drop_key oldest cache).values ≤ (drop_key oldest cache).bytes
drop_key-counted oldest cache h = go (Map.get key_discrete oldest cache.values) refl
  where
    go :
        (o : Option Bytes)
        → Map.get key_discrete oldest cache.values ≡ o
        → held (drop_key oldest cache).values ≤ (drop_key oldest cache).bytes
    go none p = let r = held-remove oldest cache.values in rw p (omega arith)
    go (some v) p =
        let r = held-remove oldest cache.values in
        let l : len_at (Map.get key_discrete oldest cache.values) ≡ length v = rw p refl in
        rw p (omega arith)

-- After the loop there is room for `len` bytes, by the values held.
evict_lem :
    (len : ℕ) (order : List CacheKey) (cache : Cache)
    → len ≤ cache.max_bytes
    → held cache.values ≤ cache.bytes
    → IsOrdered order cache.values
    → (held (evict len order cache).values ≤ (evict len order cache).bytes)
      × IsOrdered (evict len order cache).order (evict len order cache).values
      × (held (evict len order cache).values + len ≤ cache.max_bytes)
      × ((evict len order cache).max_bytes ≡ cache.max_bytes)
unfolding evict
evict_lem len [] cache small counted ordered =
    let z = held_unordered cache.values ordered in (counted, ordered, omega arith, refl)
evict_lem len (oldest ∷ order) cache small counted ordered =
    elim (Bool-cases (ltb cache.max_bytes (cache.bytes + len))) [
      | inl e ↦ rw e (
          evict_lem len order (drop_key oldest cache) small (drop_key-counted oldest cache counted)
            (drop_key-IsOrdered oldest order cache ordered))
      | inr e ↦
          let room : held cache.values + len ≤ cache.max_bytes = ground arith in
          rw e (counted, ordered, room, refl)
    ]

store-IsBounded :
    (key : CacheKey) (value : Bytes) (cache : Cache)
    → IsBounded cache
    → IsBounded (store key value cache) × ((store key value cache).max_bytes ≡ cache.max_bytes)
unfolding store
store-IsBounded key value cache b =
    elim (Bool-cases (cache.max_bytes == 0 || ltb cache.max_bytes (length value))) [
      | inl e ↦ rw e (b, refl)
      | inr e ↦
          let small : length value ≤ cache.max_bytes = ground arith in
          let after = evict (length value) cache.order cache in
          let (counted, ordered, room, same) =
            evict_lem (length value) cache.order cache small b.counted b.ordered in
          let grown = held-insert key value after.values in
          rw e (
            record {
              counted = omega arith;
              fits = omega arith;
              ordered = placed key value after ordered;
            },
            same,
          )
    ]
  where
    placed :
        (key : CacheKey) (value : Bytes) (after : Cache)
        → IsOrdered after.order after.values
        → IsOrdered (place key value after).order (place key value after).values
    placed key value after h k v at_ = elim (key_discrete key k) [
      | yes p ↦ Member-append_right k after.order (key ∷ []) (inl (sym p))
      | no n ↦
          Member-append_left k after.order (key ∷ [])
            (h k v (sym (Map.get-insert_ne key_discrete key k value after.values n) ∙ at_))
    ]

find_cached-IsBounded :
    (key : CacheKey) (cache : Cache)
    → IsBounded cache
    → IsBounded (find_cached key cache).1 × ((find_cached key cache).1.max_bytes ≡ cache.max_bytes)
unfolding find_cached
find_cached-IsBounded key cache b = go (Map.get key_discrete key cache.values)
  where
    go :
        (o : Option Bytes)
        → IsBounded (found key cache o).1 × ((found key cache o).1.max_bytes ≡ cache.max_bytes)
    go none = (b, refl)
    go (some v) = (renew-IsBounded key cache b, refl)

unordered : IsOrdered [] []
unfolding Map.get
unordered k v h = cc

-- From an empty cache, whatever the readers find and store and in whatever order they take the lock, the
-- values held never exceed the limit, and the keys in the order cover them.
pub cache_run-IsBounded :
    (max_bytes : ℕ) (steps : List CacheStep)
    → IsBounded (cache_run steps (empty_cache max_bytes))
      × ((cache_run steps (empty_cache max_bytes)).max_bytes ≡ max_bytes)
cache_run-IsBounded max_bytes steps = go steps (empty_cache max_bytes) empty refl
  where
    empty : IsBounded (empty_cache max_bytes)
    empty = record { counted = omega arith; fits = omega arith; ordered = unordered }

    go :
        (steps : List CacheStep) (cache : Cache)
        → IsBounded cache
        → cache.max_bytes ≡ max_bytes
        → IsBounded (cache_run steps cache) × ((cache_run steps cache).max_bytes ≡ max_bytes)
    go [] cache b e = (b, e)
    go (finds key ∷ steps) cache b e =
        let (b', e') = find_cached-IsBounded key cache b in go steps _ b' (e' ∙ e)
    go (stores key value ∷ steps) cache b e =
        let (b', e') = store-IsBounded key value cache b in go steps _ b' (e' ∙ e)
