-- ===== src/ReadOnly/Coherence.antt =====
-- The cached chunks are those that decryption would give.
use cipher_fs.Base.{
  ℕ, ◌≡◌, ◌≢◌, refl, sym, ◌∙◌, ap, ◌⊎◌, inl, inr, Bool, true, false, Option, none, some, List, [],
  ◌∷◌, length, ℕ_discrete, ltb, ◌==◌, ◌||◌, if◌then◌else◌, ◌+◌,
}
use cipher_fs.Base.Words.{Bytes}
use cipher_fs.Base.Map
use cipher_fs.Errors.{Result, ok, err}
use cipher_fs.V2.Types.{Entry, ValidatedIndex}
use cipher_fs.V2.Crypto.{Crypto}
use cipher_fs.V2.Index.{is_directory}
use cipher_fs.V2.Chunk.{OpenedContainer, decrypt_chunk}
use cipher_fs.ReadOnly.ChunkCache.{
  CacheKey, key_discrete, Cache, renew, found, find_cached, drop_key, evict, place, store,
}
use cipher_fs.ReadOnly.{done, load_chunk, or_decrypt, keep_chunk}
use mathlib.Core.Path.{subst}

abbrev Has : Cache → CacheKey → Bytes → Type 0
Has cache k v = Map.get key_discrete k cache.values ≡ some v

drop_key-Has :
    (oldest k : CacheKey) (v : Bytes) (cache : Cache)
    → Has (drop_key oldest cache) k v
    → Has cache k v
drop_key-Has oldest k v cache h = elim (key_discrete oldest k) [
  | yes p ↦
      let gone = Map.get-remove_self key_discrete oldest cache.values in
      let h' : Map.get key_discrete oldest (Map.remove key_discrete oldest cache.values) ≡ some v =
        subst (λ j. Map.get key_discrete j (Map.remove key_discrete oldest cache.values) ≡ some v)
          (sym p) h in
      absurd (let n : none ≢ some v = λ q. cc in n (sym gone ∙ h'))
  | no n ↦ sym (Map.get-remove_ne key_discrete oldest k cache.values n) ∙ h
]

evict-Has :
    (len : ℕ) (order : List CacheKey) (k : CacheKey) (v : Bytes) (cache : Cache)
    → Has (evict len order cache) k v
    → Has cache k v
unfolding evict
evict-Has len [] k v cache h = h
evict-Has len (oldest ∷ order) k v cache h =
    go (ltb cache.max_bytes (cache.bytes + len)) h
      (λ g. drop_key-Has oldest k v cache (evict-Has len order k v (drop_key oldest cache) g))
  where
    go :
        (b : Bool)
        → Has
            (if b
              then evict len order (drop_key oldest cache)
              else record cache { order = oldest ∷ order })
            k
            v
        → (Has (evict len order (drop_key oldest cache)) k v → Has cache k v)
        → Has cache k v
    go true h rest = rest h
    go false h rest = h

-- A store adds its own value at most.
store-Has :
    (key k : CacheKey) (value v : Bytes) (cache : Cache)
    → Has (store key value cache) k v
    → Has cache k v ⊎ ((k ≡ key) × (v ≡ value))
unfolding store
store-Has key k value v cache h = go (cache.max_bytes == 0 || ltb cache.max_bytes (length value)) h
  where
    placed :
        (after : Cache)
        → Has (place key value after) k v
        → Has after k v ⊎ ((k ≡ key) × (v ≡ value))
    placed after g = elim (key_discrete key k) [
      | yes p ↦
          let new = Map.get-insert_self key_discrete key value after.values in
          let g' : Map.get key_discrete key (Map.insert key_discrete key value after.values)
              ≡ some v =
            subst
              (λ j.
                Map.get key_discrete j (Map.insert key_discrete key value after.values) ≡ some v)
              (sym p) g in
          inr (sym p, cc)
      | no n ↦ inl (sym (Map.get-insert_ne key_discrete key k value after.values n) ∙ g)
    ]

    go :
        (b : Bool)
        → Has (if b then cache else place key value (evict (length value) cache.order cache)) k v
        → Has cache k v ⊎ ((k ≡ key) × (v ≡ value))
    go true h = inl h
    go false h = elim (placed (evict (length value) cache.order cache) h) [
      | inl g ↦ inl (evict-Has (length value) cache.order k v cache g)
      | inr e ↦ inr e
    ]

-- Different files have different file ids.
abbrev pub HasUniqueFiles : ValidatedIndex → Type 0
HasUniqueFiles index =
    (j k : ℕ) (e f : Entry)
    → Map.get ℕ_discrete j index.entries ≡ some e
    → Map.get ℕ_discrete k index.entries ≡ some f
    → is_directory e.kind ≡ false
    → is_directory f.kind ≡ false
    → e.file_id ≡ f.file_id
    → j ≡ k

-- `e` is a file of the index.
abbrev pub IsFileOf : ValidatedIndex → ℕ → Entry → Type 0
IsFileOf index id e = (Map.get ℕ_discrete id index.entries ≡ some e) × (is_directory e.kind ≡ false)

module _ (c : Crypto) (opened : OpenedContainer) where
  -- Each cached chunk of a file of the index is its decryption.
  unfoldable pub IsCoherent : Cache → Type 0
  IsCoherent cache =
      (id : ℕ) (e : Entry)
      → IsFileOf opened.index id e
      → (i : ℕ) (v : Bytes) → Has cache (e.file_id, i) v
      → decrypt_chunk c opened e i ≡ ok v

  module _ (unique : HasUniqueFiles opened.index) where
    same_file :
        (j k : ℕ) (e f : Entry)
        → IsFileOf opened.index j e
        → IsFileOf opened.index k f
        → e.file_id ≡ f.file_id
        → e ≡ f
    same_file j k e f (he, de) (hf, df) p =
        let q : j ≡ k = unique j k e f he hf de df p in
        let he' : Map.get ℕ_discrete k opened.index.entries ≡ some e =
          subst (λ x. Map.get ℕ_discrete x opened.index.entries ≡ some e) q he in
        cc

    keep_chunk-IsCoherent :
        (id : ℕ) (e : Entry) (i : ℕ) (r : Result Bytes) (cache : Cache)
        → IsFileOf opened.index id e
        → decrypt_chunk c opened e i ≡ r
        → IsCoherent cache
        → IsCoherent (keep_chunk c opened e i r cache).1
    unfolding IsCoherent
    keep_chunk-IsCoherent id e i (err x) cache is h coherent k f isf j v has =
        coherent k f isf j v has
    keep_chunk-IsCoherent id e i (ok value) cache is h coherent k f isf j v has =
        elim (store-Has (e.file_id, i) (f.file_id, j) value v cache has) [
          | inl old ↦ coherent k f isf j v old
          | inr (p, q) ↦
              let same : e ≡ f = same_file id k e f is isf (sym (ap (λ (x : CacheKey). x.0) p)) in
              let at_ : i ≡ j = sym (ap (λ (x : CacheKey). x.1) p) in
              subst (λ (g : Entry). decrypt_chunk c opened g j ≡ ok v) same
                (subst (λ n. decrypt_chunk c opened e n ≡ ok v) at_ (h ∙ ap ok (sym q)))
        ]

    -- Loading a chunk of a file gives its decryption, from the cache or not, and keeps the cache
    -- coherent.
    pub load_chunk_lem :
        (id : ℕ) (e : Entry) (i : ℕ) (v : Bytes) (cache : Cache)
        → IsFileOf opened.index id e
        → IsCoherent cache
        → decrypt_chunk c opened e i ≡ ok v
        → ((load_chunk c opened e i cache).0 ≡ done v)
          × IsCoherent (load_chunk c opened e i cache).1
    unfolding load_chunk find_cached IsCoherent renew
    load_chunk_lem id e i v cache is coherent h =
        go (Map.get key_discrete (e.file_id, i) cache.values) refl
      where
        renewed : (key : CacheKey) → IsCoherent cache → IsCoherent (renew key cache)
        renewed key coherent = coherent

        agrees : (w : Bytes) → IsCoherent cache → Has cache (e.file_id, i) w → w ≡ v
        agrees w coherent has = let d = coherent id e is i w has in cc

        go :
            (o : Option Bytes)
            → Map.get key_discrete (e.file_id, i) cache.values ≡ o
            → ((or_decrypt c opened e i (found (e.file_id, i) cache o)).0 ≡ done v)
              × IsCoherent (or_decrypt c opened e i (found (e.file_id, i) cache o)).1
        go (some w) p = (ap done (agrees w coherent p), renewed (e.file_id, i) coherent)
        go none p = (
          rw h refl,
          keep_chunk-IsCoherent id e i (decrypt_chunk c opened e i) cache is refl coherent,
        )
