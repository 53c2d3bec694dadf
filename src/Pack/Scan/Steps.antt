-- ===== src/Pack/Scan/Steps.antt =====
-- What one successful round of `scan_source` has checked, and what it leaves.
use cipher_fs.Base.Paths.{path_discrete}
use cipher_fs.Base.{◌∙◌, some-inj, refl, sym}
use cipher_fs.Pack.Scan.{reparse_point, folder, regular, special}
use cipher_fs.V2.Limits.{encrypted_file_size}
use cipher_fs.V2.Types.{Entry, max_entries, max_depth, zero_file_id}
use cipher_fs.V2.Names.{validate_name}
use cipher_fs.Errors.{
  ok-inj, bail_if-eq-ok, context-eq-ok, bail_if, >>-eq-ok, context, >>=-eq-ok, ok,
}
use cipher_fs.Base.Words.{checked_add-eq-some, u64_mod, checked_add, bytes_eq, u32_mod, Bytes}
use cipher_fs.Base.{
  [], arith, or_false, ◌||◌, leb, Bool-cases, ltb, ◌∷◌, ◌<◌, not, any, inr, false, ◌≤◌, inl, ◌⊎◌,
  none, ◌%◌, Member, some, length, ◌≡◌, ◌+◌, List, ℕ, Option,
}
use cipher_fs.Pack.Scan.{
  new_file, full_path, with_file, push_directory, SourceSnapshot, ItemKind, io, scan_item,
  push_item, push_file, draw_file_id, SourceScan, Item,
}
use cipher_fs.Base.Map

-- The checks ahead of the branches.
pub record IsPlaced (item : Item) (parent_id : ℕ) (s : SourceScan) : Type 0 where
  pub found : Map.get path_discrete item.parent s.path_ids ≡ some parent_id
  pub named : validate_name item.name ≡ ok tt
  pub shallow : (length item.parent + 1) % u32_mod ≤ max_depth
  pub room : length s.entries < max_entries

abbrev pub depth_of : Item → ℕ
depth_of item = (length item.parent + 1) % u32_mod

-- The id of the round is used up.
abbrev pub numbered : SourceScan → SourceScan
numbered s = record s { next_id = s.next_id + 1 }

-- What the branch of a file has found.
pub record FileStep (item : Item) (parent_id : ℕ) (s s' : SourceScan) : Type 0 where
  pub size : ℕ
  pub file_id : Bytes
  pub chunk_count : ℕ
  pub encrypted_size : ℕ
  pub snapshot : SourceSnapshot
  pub not_zero : bytes_eq file_id zero_file_id ≡ false
  pub not_seen : any (bytes_eq file_id) s.file_ids ≡ false
  pub sizes : encrypted_file_size size ≡ ok (chunk_count, encrypted_size)
  pub fits : s.data_offset + encrypted_size < u64_mod
  pub next :
      s'
      ≡ with_file
          (new_file s.next_id parent_id
            (depth_of item)
            item
            size
            file_id
            s.data_offset
            encrypted_size
            chunk_count)
          snapshot
          (numbered s)

io-eq-ok {ℓ} : {A : Type ℓ} (o : Option A) {a : A} → io o ≡ ok a → o ≡ some a
io-eq-ok none h = cc
io-eq-ok (some a) h = cc

-- A drawn id is neither zero nor seen before.
pub draw_file_id_lem :
    (draws seen : List Bytes) {d : Bytes}
    → draw_file_id draws seen ≡ some d
    → (bytes_eq d zero_file_id ≡ false) × (any (bytes_eq d) seen ≡ false)
unfolding draw_file_id
draw_file_id_lem [] seen h = cc
draw_file_id_lem (x ∷ draws) seen {d} h =
    elim (Bool-cases (bytes_eq x zero_file_id || any (bytes_eq x) seen)) [
      | inl e ↦ draw_file_id_lem draws seen (rw e at h)
      | inr e ↦
          let same : some x ≡ some d = rw e at h in
          let (a, b) = or_false _ _ e in let p : x ≡ d = some-inj same in rw (← p) (a, b)
    ]

-- The loop ends at the first draw that is new, whatever was drawn before it.
pub draw_file_id_total :
    (draws seen : List Bytes) (d : Bytes)
    → Member d draws
    → bytes_eq d zero_file_id ≡ false
    → any (bytes_eq d) seen ≡ false
    → (x : Bytes) × (draw_file_id draws seen ≡ some x)
unfolding draw_file_id
draw_file_id_total [] seen d m z n = elim m [ ]
draw_file_id_total (x ∷ draws) seen d m z n =
    elim (Bool-cases (bytes_eq x zero_file_id || any (bytes_eq x) seen)) [
      | inl e ↦ elim m [
        | inl p ↦
            let no : (bytes_eq x zero_file_id || any (bytes_eq x) seen) ≡ false =
              rw (← p) (rw (z, n) refl) in
            cc
        | inr q ↦ rw e (draw_file_id_total draws seen d q z n)
      ]
      | inr e ↦ (x, rw e refl)
    ]

with_totals :
    (entry : Entry) (snapshot : SourceSnapshot) (s : SourceScan) (total offset : ℕ)
    → total ≡ s.total_plaintext + entry.size
    → offset ≡ s.data_offset + entry.encrypted_size
    → record (with_file entry snapshot s) { total_plaintext = total; data_offset = offset }
      ≡ with_file entry snapshot s
with_totals entry snapshot s total offset p q = cc

push_file_lem :
    (item : Item) (parent_id : ℕ) (s s' : SourceScan)
    → push_file s.next_id parent_id (depth_of item) item (numbered s) ≡ ok s'
    → FileStep item parent_id s s'
unfolding push_file
push_file_lem item parent_id s s' h =
    let (size, _, h1) = >>=-eq-ok (io item.size) _ h in
    let (file_id, drawn, h2) =
      >>=-eq-ok (context (draw_file_id item.draws s.file_ids) "No new file id among the draws") _
        h1 in
    let ((chunks, encrypted), sizes, h3) = >>=-eq-ok (encrypted_file_size size) _ h2 in
    let (fingerprint, _, h4) = >>=-eq-ok (io item.fingerprint) _ h3 in
    let (total, sum, h5) =
      >>=-eq-ok (context (checked_add s.total_plaintext size) "Total source size overflow") _ h4 in
    let (offset, more, h6) =
      >>=-eq-ok (context (checked_add s.data_offset encrypted) "Encrypted data size overflow") _
        h5 in
    let (z, n) = draw_file_id_lem item.draws s.file_ids (context-eq-ok _ _ drawn) in
    let (p, _) = checked_add-eq-some s.total_plaintext size total (context-eq-ok _ _ sum) in
    let (q, f) = checked_add-eq-some s.data_offset encrypted offset (context-eq-ok _ _ more) in
    record {
      size = size;
      file_id = file_id;
      chunk_count = chunks;
      encrypted_size = encrypted;
      snapshot = record { path = full_path item; fingerprint = fingerprint };
      not_zero = z;
      not_seen = n;
      sizes = sizes;
      fits = f;
      next = sym (ok-inj h6) ∙ with_totals _ _ (numbered s) total offset p q;
    }

push_item_lem :
    (kind : ItemKind) (item : Item) (parent_id : ℕ) (s s' : SourceScan)
    → push_item kind s.next_id parent_id (depth_of item) item (numbered s) ≡ ok s'
    → (s' ≡ push_directory s.next_id parent_id (depth_of item) item (numbered s))
      ⊎ FileStep item parent_id s s'
unfolding push_item
push_item_lem reparse_point item parent_id s s' h = cc
push_item_lem folder item parent_id s s' h = inl (cc)
push_item_lem regular item parent_id s s' h = inr (push_file_lem item parent_id s s' h)
push_item_lem special item parent_id s s' h = cc

pub scan_item_lem :
    (item : Item) (s s' : SourceScan)
    → scan_item item s ≡ ok s'
    → (parent_id : ℕ) × IsPlaced item parent_id s
      × ((s' ≡ push_directory s.next_id parent_id (depth_of item) item (numbered s))
          ⊎ FileStep item parent_id s s')
unfolding scan_item
scan_item_lem item s s' h =
    let (parent_id, found, h1) =
      >>=-eq-ok
        (context (Map.get path_discrete item.parent s.path_ids)
          "Directory traversal did not visit parent first")
        _ h in
    let (_, h2) =
      >>-eq-ok (bail_if (not item.is_utf8) "CipherFS v2 requires UTF-8 filenames") _ h1 in
    let (named, h3) = >>-eq-ok (validate_name item.name) _ h2 in
    let (deep, h4) =
      >>-eq-ok (bail_if (ltb max_depth (depth_of item)) "Source directory is too deeply nested") _
        h3 in
    let (many, h5) =
      >>-eq-ok
        (bail_if (leb max_entries (length s.entries)) "Source exceeds the maximum entry count") _
        h4 in
    let (kind, _, h6) = >>=-eq-ok (io item.metadata) _ h5 in
    let (next, counted, h7) =
      >>=-eq-ok (context (checked_add s.next_id 1) "Entry id overflow") _ h6 in
    let (p, _) = checked_add-eq-some s.next_id 1 next (context-eq-ok _ _ counted) in
    let deep' = bail_if-eq-ok _ _ deep in
    let many' = bail_if-eq-ok _ _ many in
    let placed : IsPlaced item parent_id s = record {
      found = context-eq-ok _ _ found;
      named = named;
      shallow = ground arith;
      room = ground arith;
    } in
    (parent_id, placed, push_item_lem kind item parent_id s s' (rw p at h7))
