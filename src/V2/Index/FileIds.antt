-- ===== src/V2/Index/FileIds.antt =====
-- The file ids that the first loop of `validate_index` has seen.
use cipher_fs.Base.{
  or_false, ℕ, ◌≡◌, ◌≢◌, refl, sym, ◌∙◌, ap, ◌⊎◌, inl, inr, Bool, true, false, ◌||◌, not, some,
  List, [], ◌∷◌, ◌++◌, any, ltb, ◌==◌, ℕ_discrete, Bool-cases,
}
use cipher_fs.Base.Words.{Bytes, bytes_eq, bytes_eq_iff}
use cipher_fs.Base.Map
use cipher_fs.Errors.{ok, bail_if, >>=-eq-ok, >>-eq-ok, bail_if-eq-ok}
use cipher_fs.V2.Types.{Entry, EntryKind, file, directory, max_depth, zero_file_id}
use cipher_fs.V2.Limits.{encrypted_file_size}
use cipher_fs.V2.Index.{
  Scan, Extent, is_directory, check_place, check_kind, file_entry, check_entry, scan_entries, start,
  has_file_data,
}
use cipher_fs.V2.Index.Scanning.{check_entry_lem}
use mathlib.Core.Path.{subst}

-- What a round does to the ids: a directory adds none, a file adds its own, which is new.
abbrev Adds : Entry → Scan → Scan → Type 0
Adds e s s' =
    ((is_directory e.kind ≡ true) × (s'.file_ids ≡ s.file_ids))
    ⊎ ((is_directory e.kind ≡ false)
        × (any (bytes_eq e.file_id) s.file_ids ≡ false)
        × (s'.file_ids ≡ e.file_id ∷ s.file_ids))

check_kind-Adds : (e : Entry) (s s' : Scan) → check_kind e.kind e s ≡ ok s' → Adds e s s'
unfolding check_kind
check_kind-Adds e s s' h = go e.kind refl
  where
    go : (k : EntryKind) → e.kind ≡ k → Adds e s s'
    go file p =
        let h' = subst (λ k. check_kind k e s ≡ ok s') p h in
        let (new, h1) =
          >>-eq-ok
            (bail_if (bytes_eq e.file_id zero_file_id || any (bytes_eq e.file_id) s.file_ids)
              "Invalid or duplicate file id")
            _ h' in
        let (sizes, _, h2) = >>=-eq-ok (encrypted_file_size e.size) _ h1 in
        let (_, h3) =
          >>-eq-ok
            (bail_if (not (sizes.0 == e.chunk_count) || not (sizes.1 == e.encrypted_size))
              "File chunk layout mismatch")
            _ h2 in
        let (_, fresh) = or_false (bytes_eq e.file_id zero_file_id) _ (bail_if-eq-ok _ _ new) in
        let extent : Extent = record {
          offset = e.data_offset;
          encrypted = e.encrypted_size;
          id = e.id;
        } in
        let r : s'
            ≡ record s { file_ids = e.file_id ∷ s.file_ids; files = s.files ++ (extent ∷ []) } =
          cc in
        inr (ap is_directory p, fresh, ap (λ (x : Scan). x.file_ids) r)
    go directory p =
        let h' = subst (λ k. check_kind k e s ≡ ok s') p h in
        let (_, h1) =
          >>-eq-ok (bail_if (has_file_data e) "Directory entry contains file data") _ h' in
        let r : s' ≡ s = cc in inl (ap is_directory p, ap (λ (x : Scan). x.file_ids) r)

check_entry-Adds : (e : Entry) (s s' : Scan) → check_entry e s ≡ ok s' → Adds e s s'
unfolding check_entry file_entry
check_entry-Adds e s s' h =
    let (_, h1) = >>-eq-ok (bail_if (e.id == 0) "Entry id zero is reserved") _ h in
    let (_, h2) = >>-eq-ok (bail_if (any (λ i. i == e.id) s.ids) "Duplicate entry id") _ h1 in
    let (_, h3) =
      >>-eq-ok (bail_if (ltb max_depth e.depth) "Directory depth exceeds local safety limits") _
        h2 in
    let (_, h4) = >>-eq-ok (check_place e) _ h3 in
    let (t, kinds, h5) = >>=-eq-ok (check_kind e.kind e (record s { ids = e.id ∷ s.ids })) _ h4 in
    let adds = check_kind-Adds e (record s { ids = e.id ∷ s.ids }) t kinds in
    let r : s' ≡ file_entry e t = cc in subst (Adds e s) (sym r) adds

-- Every filed file's id has been seen, and no two filed files share one.
pub record HasDistinctIds (s : Scan) : Type 0 where
  pub seen :
      (k : ℕ) (e : Entry)
      → Map.get ℕ_discrete k s.entries ≡ some e
      → is_directory e.kind ≡ false
      → any (bytes_eq e.file_id) s.file_ids ≡ true
  pub unique :
      (j k : ℕ) (e f : Entry)
      → Map.get ℕ_discrete j s.entries ≡ some e
      → Map.get ℕ_discrete k s.entries ≡ some f
      → is_directory e.kind ≡ false
      → is_directory f.kind ≡ false
      → e.file_id ≡ f.file_id
      → j ≡ k

-- A filed entry is the round's own, or an old one.
filed_cases :
    (e f : Entry) (s : Scan) (k : ℕ)
    → Map.get ℕ_discrete k (Map.insert ℕ_discrete e.id e s.entries) ≡ some f
    → ((e.id ≡ k) × (e ≡ f)) ⊎ (Map.get ℕ_discrete k s.entries ≡ some f)
filed_cases e f s k h = elim (ℕ_discrete e.id k) [
  | yes p ↦ let self = Map.get-insert_self ℕ_discrete e.id e s.entries in inl (p, cc)
  | no n ↦ inr (sym (Map.get-insert_ne ℕ_discrete e.id k e s.entries n) ∙ h)
]

true_ne_false : (b : Bool) → b ≡ true → b ≢ false
true_ne_false b p = λ q. cc

any_cons :
    (p : Bytes → Bool) (x : Bytes) (xs : List Bytes) → any p xs ≡ true → any p (x ∷ xs) ≡ true
any_cons p x xs h = elim (Bool-cases (p x)) [ inl e ↦ rw e refl | inr e ↦ rw (e, h) refl ]

check_entry-HasDistinctIds :
    (e : Entry) (s s' : Scan) → check_entry e s ≡ ok s' → HasDistinctIds s → HasDistinctIds s'
check_entry-HasDistinctIds e s s' h d = record {
  seen = λ k f found is. seen' (check_entry-Adds e s s' h) k f (cases k f found) is;
  unique = λ j k f g fj gk isf isg same.
      unique' (check_entry-Adds e s s' h) j k f g (cases j f fj) (cases k g gk) isf isg same;
}
  where
    cases :
        (k : ℕ) (f : Entry)
        → Map.get ℕ_discrete k s'.entries ≡ some f
        → ((e.id ≡ k) × (e ≡ f)) ⊎ (Map.get ℕ_discrete k s.entries ≡ some f)
    cases k f found =
        let (_, filed, _, _) = check_entry_lem e s s' h in
        filed_cases e f s k (subst (λ m. Map.get ℕ_discrete k m ≡ some f) filed found)

    seen' :
        Adds e s s'
        → (k : ℕ) (f : Entry) → ((e.id ≡ k) × (e ≡ f)) ⊎ (Map.get ℕ_discrete k s.entries ≡ some f)
        → is_directory f.kind ≡ false
        → any (bytes_eq f.file_id) s'.file_ids ≡ true
    seen' (inl (dir, same)) k f (inl (_, p)) is = absurd (
        true_ne_false (is_directory f.kind)
          (subst (λ (x : Entry). is_directory x.kind ≡ true) p dir) is)
    seen' (inl (dir, same)) k f (inr old) is = rw same (d.seen k f old is)
    seen' (inr (_, new, ids)) k f (inl (_, p)) is =
        let self = (bytes_eq_iff f.file_id f.file_id).1 refl in
        let ids' : s'.file_ids ≡ f.file_id ∷ s.file_ids =
          subst (λ (x : Entry). s'.file_ids ≡ x.file_id ∷ s.file_ids) p ids in
        rw (ids', self) refl
    seen' (inr (_, new, ids)) k f (inr old) is =
        rw ids (any_cons (bytes_eq f.file_id) e.file_id s.file_ids (d.seen k f old is))

    clash :
        Adds e s s'
        → (k : ℕ) (f g : Entry) → e ≡ f
        → Map.get ℕ_discrete k s.entries ≡ some g
        → is_directory f.kind ≡ false
        → is_directory g.kind ≡ false
        → f.file_id ≡ g.file_id
        → ⊥
    clash (inl (dir, same)) k f g p old isf isg q =
        true_ne_false (is_directory f.kind)
          (subst (λ (x : Entry). is_directory x.kind ≡ true) p dir) isf
    clash (inr (_, new, ids)) k f g p old isf isg q =
        let r : e.file_id ≡ g.file_id = ap (λ (x : Entry). x.file_id) p ∙ q in
        true_ne_false (any (bytes_eq g.file_id) s.file_ids) (d.seen k g old isg)
          (subst (λ x. any (bytes_eq x) s.file_ids ≡ false) r new)

    unique' :
        Adds e s s'
        → (j k : ℕ) (f g : Entry)
        → ((e.id ≡ j) × (e ≡ f)) ⊎ (Map.get ℕ_discrete j s.entries ≡ some f)
        → ((e.id ≡ k) × (e ≡ g)) ⊎ (Map.get ℕ_discrete k s.entries ≡ some g)
        → is_directory f.kind ≡ false
        → is_directory g.kind ≡ false
        → f.file_id ≡ g.file_id
        → j ≡ k
    unique' a j k f g (inl (p, _)) (inl (q, _)) isf isg same = sym p ∙ q
    unique' a j k f g (inl (_, p)) (inr old) isf isg same =
        absurd (clash a k f g p old isf isg same)
    unique' a j k f g (inr old) (inl (_, p)) isf isg same =
        absurd (clash a j g f p old isg isf (sym same))
    unique' a j k f g (inr x) (inr y) isf isg same = d.unique j k f g x y isf isg same

pub scan_entries-HasDistinctIds :
    (es : List Entry) (s s' : Scan)
    → scan_entries es s ≡ ok s'
    → HasDistinctIds s
    → HasDistinctIds s'
unfolding scan_entries
scan_entries-HasDistinctIds [] s s' h d = subst HasDistinctIds (cc) d
scan_entries-HasDistinctIds (e ∷ es) s s' h d =
    let (t, h1, h2) = >>=-eq-ok (check_entry e s) _ h in
    scan_entries-HasDistinctIds es t s' h2 (check_entry-HasDistinctIds e s t h1 d)

nothing_filed : (k : ℕ) (e : Entry) → Map.get ℕ_discrete k [] ≢ some e
unfolding Map.get
nothing_filed k e = λ q. cc

pub start-HasDistinctIds : HasDistinctIds start
start-HasDistinctIds = record {
  seen = λ k e found is. absurd (nothing_filed k e found);
  unique = λ j k e f he hf isf isg same. absurd (nothing_filed j e he);
}
