-- ===== src/Pack/Scan/Growing.antt =====
-- The directory tree that `scan_source` has built so far, as the second loop of `validate_index` sees it.
use cipher_fs.Base.Paths.{path_discrete, PathBuf}
use cipher_fs.V2.Index.Accepting.{check_parent_new, check_parents-insert, check_parents-append}
use cipher_fs.Errors.{ok}
use cipher_fs.V2.Index.{check_parents, is_directory, push_at, or_default}
use cipher_fs.V2.Types.{max_depth, Entry}
use cipher_fs.Base.Words.{bytes_eq_iff, bytes_eq, Bytes}
use cipher_fs.Base.Map.{Map}
use cipher_fs.Pack.Scan.{root_entry}
use cipher_fs.Base.Map
use cipher_fs.V2.Index.{values}
use mathlib.Core.Path.{ap₂, subst}
use mathlib.Core.Bool.{false≢true}
use cipher_fs.Base.{
  Bool-cases, any-snoc, false, some-inj, inr, inl, ◌∙◌, ◌⊎◌, some_ne_none, arith, any, ◌≢◌, Member,
  ap, ◌+◌, ◌<◌, true, [], ◌∷◌, length, ◌++◌, ◌≤◌, some, none, ℕ_discrete, ℕ, List, refl, sym, ◌≡◌,
}

-- An item's place: the path of its directory and its name.
abbrev pub Place : Type 0
Place = PathBuf × Bytes

-- The entries `es` by their ids, the ids of the directories by their paths, and the names that each
-- directory holds. `seen` are the places of the items so far.
pub record IsTree (seen : List Place) (es : List Entry) (path_ids : Map PathBuf ℕ) (next : ℕ)
    (m : Map ℕ Entry) (names : Map ℕ (List Bytes)) : Type 0 where
  pub filed : values m ≡ es
  pub unfiled : (k : ℕ) → next ≤ k → Map.get ℕ_discrete k m ≡ none
  pub root : Map.get ℕ_discrete 1 m ≡ some root_entry
  pub after_root : 1 < next
  pub parents : check_parents m es [] ≡ ok names
  pub paths :
      (p : PathBuf) (d : ℕ)
      → Map.get path_discrete p path_ids ≡ some d
      → (e : Entry) × (Map.get ℕ_discrete d m ≡ some e)
        × (is_directory e.kind ≡ true)
        × (e.depth ≡ length p)
        × (length p ≤ max_depth)
        × (d < next)
  pub unique :
      (p q : PathBuf) (d : ℕ)
      → Map.get path_discrete p path_ids ≡ some d
      → Map.get path_discrete q path_ids ≡ some d
      → p ≡ q
  pub listed :
      (p : PathBuf) (d : ℕ) (n : Bytes)
      → Map.get path_discrete p path_ids ≡ some d
      → any (bytes_eq n) (or_default (Map.get ℕ_discrete d names)) ≡ true
      → Member (p, n) seen
  pub unlisted : (k : ℕ) → next ≤ k → Map.get ℕ_discrete k names ≡ none

values-append :
    (m : Map ℕ Entry) (k : ℕ) (e : Entry) → values (m ++ ((k, e) ∷ [])) ≡ values m ++ (e ∷ [])
values-append [] k e = refl
values-append ((j, x) ∷ m) k e = ap (◌∷◌ x) (values-append m k e)

values-insert :
    (m : Map ℕ Entry) (k : ℕ) (e : Entry)
    → Map.get ℕ_discrete k m ≡ none
    → values (Map.insert ℕ_discrete k e m) ≡ values m ++ (e ∷ [])
values-insert m k e fresh = rw (Map.insert_fresh ℕ_discrete k e m fresh) (values-append m k e)

get-push_at_self :
    (k : ℕ) (n : Bytes) (names : Map ℕ (List Bytes))
    → or_default (Map.get ℕ_discrete k (push_at k n names))
      ≡ or_default (Map.get ℕ_discrete k names) ++ (n ∷ [])
get-push_at_self k n names =
    rw
      (Map.get-insert_self ℕ_discrete k (or_default (Map.get ℕ_discrete k names) ++ (n ∷ [])) names)
      refl

-- One item more, under a directory of the tree and at a place not seen before.
module _ (seen : List Place) (es : List Entry) (path_ids : Map PathBuf ℕ) (next : ℕ)
    (m : Map ℕ Entry) (names : Map ℕ (List Bytes)) (t : IsTree seen es path_ids next m names)
    (e : Entry) (parent : PathBuf)
    (found : Map.get path_discrete parent path_ids ≡ some e.parent_id) (numbered : e.id ≡ next)
    (deep : e.depth ≡ length parent + 1) (shallow : e.depth ≤ max_depth)
    (unseen : ¬ Member (parent, e.name) seen) where
  abbrev grown : Map ℕ Entry
  grown = Map.insert ℕ_discrete e.id e m

  abbrev renamed : Map ℕ (List Bytes)
  renamed = push_at e.parent_id e.name names

  fresh : Map.get ℕ_discrete e.id m ≡ none
  fresh = t.unfiled e.id (omega arith)

  kept : (k : ℕ) (x : Entry) → Map.get ℕ_discrete k m ≡ some x → Map.get ℕ_discrete k grown ≡ some x
  kept k x h =
      let apart : e.id ≢ k = λ p. some_ne_none (sym h ∙ (rw p at fresh)) in
      Map.get-insert_ne ℕ_discrete e.id k e m apart ∙ h

  new_name : any (bytes_eq e.name) (or_default (Map.get ℕ_discrete e.parent_id names)) ≡ false
  new_name =
      elim (Bool-cases
        (any (bytes_eq e.name) (or_default (Map.get ℕ_discrete e.parent_id names)))) [
          | inl h ↦ absurd (unseen (t.listed parent e.parent_id e.name found h))
          | inr h ↦ h
        ]

  accepted : check_parents grown (es ++ (e ∷ [])) [] ≡ ok renamed
  accepted =
      let (x, at_parent, dir, depth, _, below) = t.paths parent e.parent_id found in
      check_parents-append grown es e [] names renamed
        (check_parents-insert m e.id e es [] names fresh t.parents)
        (check_parent_new grown x e names (λ p. absurd (omega (arith, t.after_root)))
          (kept e.parent_id x at_parent) dir (omega arith) shallow new_name)

  listed_here :
      (p : PathBuf) (n : Bytes)
      → Map.get path_discrete p path_ids ≡ some e.parent_id
      → any (bytes_eq n) (or_default (Map.get ℕ_discrete e.parent_id renamed)) ≡ true
      → Member (p, n) ((parent, e.name) ∷ seen)
  listed_here p n is h =
      let h' : any (bytes_eq n) (or_default (Map.get ℕ_discrete e.parent_id names) ++ (e.name ∷ []))
          ≡ true =
        rw (get-push_at_self e.parent_id e.name names) at h in
      elim (any-snoc (bytes_eq n) (or_default (Map.get ℕ_discrete e.parent_id names)) e.name h') [
        | inl old ↦ inr (t.listed p e.parent_id n is old)
        | inr new ↦
            let same : p ≡ parent = t.unique p parent e.parent_id is found in
            let name : n ≡ e.name = (bytes_eq_iff n e.name).0 new in
            inl (ap₂ (λ (a : PathBuf) (b : Bytes). (a, b)) same name)
      ]

  pub IsTree-grow :
      IsTree ((parent, e.name) ∷ seen) (es ++ (e ∷ [])) path_ids (next + 1) grown renamed
  IsTree-grow =
      let (x, _, _, _, _, below) = t.paths parent e.parent_id found in
      record {
        filed = values-insert m e.id e fresh ∙ ap (λ (l : List Entry). l ++ (e ∷ [])) t.filed;
        unfiled = λ k h.
            Map.get-insert_ne ℕ_discrete e.id k e m (λ p. absurd (omega arith))
            ∙ t.unfiled k (omega arith);
        root = kept 1 root_entry t.root;
        after_root = omega (arith, t.after_root);
        parents = accepted;
        paths = λ p d is.
            let (y, at_d, dir, depth, bound, lt) = t.paths p d is in
            (y, kept d y at_d, dir, depth, bound, omega arith);
        unique = t.unique;
        listed = λ p d n is h. elim (ℕ_discrete e.parent_id d) [
          | yes q ↦ listed_here p n (rw (← q) at is) (rw (← q) at h)
          | no q ↦ inr (
              t.listed p d n is (
                rw
                  (Map.get-insert_ne ℕ_discrete e.parent_id d
                    (or_default (Map.get ℕ_discrete e.parent_id names) ++ (e.name ∷ [])) names q)
                  at h))
        ];
        unlisted = λ k h.
            Map.get-insert_ne ℕ_discrete e.parent_id k
              (or_default (Map.get ℕ_discrete e.parent_id names) ++ (e.name ∷ [])) names
              (λ p. absurd (omega arith))
            ∙ t.unlisted k (omega arith);
      }

-- A new directory, still empty, can be a parent from now on.
module _ (seen : List Place) (es : List Entry) (path_ids : Map PathBuf ℕ) (next : ℕ)
    (m : Map ℕ Entry) (names : Map ℕ (List Bytes)) (t : IsTree seen es path_ids next m names)
    (e : Entry) (path : PathBuf) (filed : Map.get ℕ_discrete e.id m ≡ some e)
    (dir : is_directory e.kind ≡ true) (deep : e.depth ≡ length path)
    (shallow : e.depth ≤ max_depth) (used : e.id < next)
    (empty : Map.get ℕ_discrete e.id names ≡ none)
    (new : (p : PathBuf) → Map.get path_discrete p path_ids ≢ some e.id) where
  abbrev opened : Map PathBuf ℕ
  opened = Map.insert path_discrete path e.id path_ids

  -- A path of the map is the new one, or an old one.
  opened_cases :
      (p : PathBuf) (d : ℕ)
      → Map.get path_discrete p opened ≡ some d
      → ((path ≡ p) × (e.id ≡ d)) ⊎ (Map.get path_discrete p path_ids ≡ some d)
  opened_cases p d h = elim (path_discrete path p) [
    | yes q ↦
        let self = Map.get-insert_self path_discrete path e.id path_ids in
        inl (q, some-inj (sym self ∙ (rw (← q) at h)))
    | no n ↦ inr (sym (Map.get-insert_ne path_discrete path p e.id path_ids n) ∙ h)
  ]

  pub IsTree-open : IsTree seen es opened next m names
  IsTree-open = record {
    filed = t.filed;
    unfiled = t.unfiled;
    root = t.root;
    after_root = t.after_root;
    parents = t.parents;
    paths = λ p d is. elim (opened_cases p d is) [
      | inl (q, i) ↦ (
        e,
        subst (λ (k : ℕ). Map.get ℕ_discrete k m ≡ some e) i filed,
        dir,
        rw (← q) deep,
        rw (← q) (omega arith),
        omega arith,
      )
      | inr old ↦ t.paths p d old
    ];
    unique = λ p q d is js. elim (opened_cases p d is) [
      | inl (a, i) ↦ elim (opened_cases q d js) [
        | inl (b, j) ↦ sym a ∙ b
        | inr old ↦ absurd (new q (rw (← i) at old))
      ]
      | inr old ↦ elim (opened_cases q d js) [
        | inl (b, j) ↦ absurd (new p (rw (← j) at old))
        | inr older ↦ t.unique p q d old older
      ]
    ];
    listed = λ p d n is h. elim (opened_cases p d is) [
      | inl (q, i) ↦
          let none_there : any (bytes_eq n) (or_default (Map.get ℕ_discrete d names)) ≡ false =
            rw (← i) (rw empty refl) in
          absurd (false≢true (sym none_there ∙ h))
      | inr old ↦ t.listed p d n old h
    ];
    unlisted = t.unlisted;
  }
