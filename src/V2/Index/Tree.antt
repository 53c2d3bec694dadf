-- ===== src/V2/Index/Tree.antt =====
-- The second loop of `validate_index`: the entries form a tree, with distinct names in a directory.
use cipher_fs.Base.{
  ap, Bool-cases, ℕ, zero, suc, ◌+◌, ◌≤◌, ◌≡◌, ◌≢◌, refl, sym, ◌∙◌, inl, inr, Bool, true, false,
  ◌||◌, ◌&&◌, not, some, List, [], ◌∷◌, ◌++◌, any, ltb, ◌==◌, ℕ_discrete, arith, All, Member,
  if◌then◌else◌,
}
use cipher_fs.Base.Words.{Bytes, bytes_eq, u32_mod, bytes_eq_iff}
use cipher_fs.Base.Map
use cipher_fs.Base.Map.{Map}
use cipher_fs.Errors.{ok, bail_if, context, >>=-eq-ok, >>-eq-ok, bail_if-eq-ok, context-eq-ok}
use cipher_fs.V2.Types.{Entry}
use cipher_fs.V2.Index.{
  is_directory, check_parent, check_below, check_parents, values, push_at, or_default,
}
use mathlib.Core.Path.{subst}

pub Member-values :
    (k : ℕ) (e : Entry) (m : Map ℕ Entry) → Map.get ℕ_discrete k m ≡ some e → Member e (values m)
unfolding Map.get
Member-values k e [] h = cc
Member-values k e ((j, f) ∷ m) h = elim (ℕ_discrete j k) [
  | yes p ↦ let q : f ≡ e = ground arith in inl (sym q)
  | no n ↦ inr (Member-values k e m (ground arith))
]

-- An entry below the root has a directory as its parent, one level above it.
abbrev pub HasParent : Map ℕ Entry → Entry → Type 0
HasParent entries e =
    e.id ≢ 1
    → (p : Entry) × (Map.get ℕ_discrete e.parent_id entries ≡ some p)
      × (is_directory p.kind ≡ true)
      × (e.depth ≡ suc p.depth)

-- What one round has checked; `names` are those of the rounds before it.
check_below_lem :
    (entries : Map ℕ Entry) (e : Entry) (names names' : Map ℕ (List Bytes))
    → check_below entries e names ≡ ok names'
    → ((p : Entry) × (Map.get ℕ_discrete e.parent_id entries ≡ some p)
        × (is_directory p.kind ≡ true)
        × (e.depth ≡ suc p.depth))
      × (any (bytes_eq e.name) (or_default (Map.get ℕ_discrete e.parent_id names)) ≡ false)
      × (names' ≡ push_at e.parent_id e.name names)
unfolding check_below
check_below_lem entries e names names' h =
    let (p, found, h1) =
      >>=-eq-ok
        (context (Map.get ℕ_discrete e.parent_id entries) "Entry references a missing parent") _
        h in
    let (good, h2) =
      >>-eq-ok
        (bail_if
          (not (is_directory p.kind) || not (ltb (p.depth + 1) u32_mod && (p.depth + 1 == e.depth)))
          "Invalid parent or depth")
        _ h1 in
    let (fresh, h3) =
      >>-eq-ok
        (bail_if (any (bytes_eq e.name) (or_default (Map.get ℕ_discrete e.parent_id names)))
          "Duplicate name within directory")
        _ h2 in
    let good' = bail_if-eq-ok _ _ good in
    ((p, context-eq-ok _ _ found, ground arith, ground arith), bail_if-eq-ok _ _ fresh, cc)

-- The round of an entry below the root is `check_below`.
below_root :
    (entries : Map ℕ Entry) (e : Entry) (names names' : Map ℕ (List Bytes))
    → check_parent entries e names ≡ ok names'
    → e.id ≢ 1
    → check_below entries e names ≡ ok names'
unfolding check_parent
below_root entries e names names' h n =
    let root : (e.id == 1) ≡ false = ground arith in
    subst (λ t. (if t then ok names else check_below entries e names) ≡ ok names') root h

pub check_parents-HasParent :
    (entries : Map ℕ Entry) (es : List Entry) (names names' : Map ℕ (List Bytes))
    → check_parents entries es names ≡ ok names'
    → All (HasParent entries) es
unfolding check_parents
check_parents-HasParent entries [] names names' h = tt
check_parents-HasParent entries (e ∷ es) names names' h =
    let (next, h1, h2) = >>=-eq-ok (check_parent entries e names) _ h in
    (
      λ n. (check_below_lem entries e names next (below_root entries e names next h1 n)).0,
      check_parents-HasParent entries es next names' h2,
    )

-- The names of the rounds before, in one directory.
abbrev HasSeen : ℕ → Bytes → Map ℕ (List Bytes) → Type 0
HasSeen p name names = any (bytes_eq name) (or_default (Map.get ℕ_discrete p names)) ≡ true

any-append_left :
    (f : Bytes → Bool) (xs ys : List Bytes) → any f xs ≡ true → any f (xs ++ ys) ≡ true
any-append_left f [] ys h = cc
any-append_left f (x ∷ xs) ys h = elim (Bool-cases (f x)) [
  | inl e ↦ rw e refl
  | inr e ↦
      let later : any f xs ≡ true = subst (λ b. (b || any f xs) ≡ true) e h in
      rw (e, any-append_left f xs ys later)
]

any-append_self :
    (f : Bytes → Bool) (y : Bytes) (xs : List Bytes) → f y ≡ true → any f (xs ++ (y ∷ [])) ≡ true
any-append_self f y [] h = ground arith
any-append_self f y (x ∷ xs) h = elim (Bool-cases (f x)) [
  | inl e ↦ rw e refl
  | inr e ↦ rw (e, any-append_self f y xs h)
]

push_at-HasSeen_self :
    (p : ℕ) (name : Bytes) (names : Map ℕ (List Bytes)) → HasSeen p name (push_at p name names)
push_at-HasSeen_self p name names =
    rw
      (Map.get-insert_self ℕ_discrete p (or_default (Map.get ℕ_discrete p names) ++ (name ∷ []))
        names)
      (any-append_self (bytes_eq name) name (or_default (Map.get ℕ_discrete p names))
        ((bytes_eq_iff name name).1 refl))

push_at-HasSeen :
    (p q : ℕ) (name other : Bytes) (names : Map ℕ (List Bytes))
    → HasSeen p name names
    → HasSeen p name (push_at q other names)
push_at-HasSeen p q name other names h = elim (ℕ_discrete q p) [
  | yes e ↦
      subst (λ r. HasSeen p name (push_at r other names)) (sym e)
        (rw
          (Map.get-insert_self ℕ_discrete p
            (or_default (Map.get ℕ_discrete p names) ++ (other ∷ [])) names)
          (any-append_left (bytes_eq name) (or_default (Map.get ℕ_discrete p names)) (other ∷ [])
            h))
  | no n ↦
      rw
        (Map.get-insert_ne ℕ_discrete q p (or_default (Map.get ℕ_discrete q names) ++ (other ∷ []))
          names n)
        h
]

check_parent-HasSeen :
    (entries : Map ℕ Entry) (e : Entry) (names names' : Map ℕ (List Bytes)) (p : ℕ) (name : Bytes)
    → check_parent entries e names ≡ ok names'
    → HasSeen p name names
    → HasSeen p name names'
unfolding check_parent
check_parent-HasSeen entries e names names' p name h seen = elim (ℕ_discrete e.id 1) [
  | yes root ↦ let same : names' ≡ names = ground arith in subst (HasSeen p name) (sym same) seen
  | no n ↦
      let (_, _, pushed) =
        check_below_lem entries e names names' (below_root entries e names names' h n) in
      subst (HasSeen p name) (sym pushed) (push_at-HasSeen p e.parent_id name e.name names seen)
]

first_round :
    (entries : Map ℕ Entry) (x : Entry) (es : List Entry) (names names' : Map ℕ (List Bytes))
    → check_parents entries (x ∷ es) names ≡ ok names'
    → (next : Map ℕ (List Bytes)) × (check_parent entries x names ≡ ok next)
      × (check_parents entries es next ≡ ok names')
unfolding check_parents
first_round entries x es names names' h = >>=-eq-ok (check_parent entries x names) _ h

-- A name seen in a directory is not taken there again.
seen_name :
    (entries : Map ℕ Entry) (es : List Entry) (names names' : Map ℕ (List Bytes)) (e : Entry)
    (name : Bytes)
    → check_parents entries es names ≡ ok names'
    → Member e es
    → e.id ≢ 1
    → HasSeen e.parent_id name names
    → e.name ≢ name
unfolding check_parents
seen_name entries [] names names' e name h m n seen = elim m [ ]
seen_name entries (x ∷ es) names names' e name h (inl p) n seen =
    let (next, h1, h2) = first_round entries x es names names' h in
    let h1' : check_parent entries e names ≡ ok next = rw p h1 in
    let (_, fresh, _) =
      check_below_lem entries e names next (below_root entries e names next h1' n) in
    λ q.
      let seen' : HasSeen e.parent_id e.name names =
        subst (λ s. HasSeen e.parent_id s names) (sym q) seen in
      cc
seen_name entries (x ∷ es) names names' e name h (inr m) n seen =
    let (next, h1, h2) = first_round entries x es names names' h in
    seen_name entries es next names' e name h2 m n
      (check_parent-HasSeen entries x names next e.parent_id name h1 seen)

first_name :
    (entries : Map ℕ Entry) (x : Entry) (es : List Entry) (names names' : Map ℕ (List Bytes))
    (f : Entry)
    → check_parents entries (x ∷ es) names ≡ ok names'
    → Member f es
    → x.id ≢ 1
    → f.id ≢ 1
    → x.parent_id ≡ f.parent_id
    → f.name ≢ x.name
unfolding check_parents
first_name entries x es names names' f h m n o same =
    let (next, h1, h2) = first_round entries x es names names' h in
    let (_, _, pushed) =
      check_below_lem entries x names next (below_root entries x names next h1 n) in
    let seen : HasSeen f.parent_id x.name next =
      rw (pushed, same) (push_at-HasSeen_self f.parent_id x.name names) in
    seen_name entries es next names' f x.name h2 m o seen

-- Two entries of one directory have different names.
pub check_parents-names :
    (entries : Map ℕ Entry) (es : List Entry) (names names' : Map ℕ (List Bytes)) (e f : Entry)
    → check_parents entries es names ≡ ok names'
    → Member e es
    → Member f es
    → e.id ≢ 1
    → f.id ≢ 1
    → e.id ≢ f.id
    → e.parent_id ≡ f.parent_id
    → e.name ≢ f.name
check_parents-names entries [] names names' e f h m n _ _ _ _ = elim m [ ]
check_parents-names entries (x ∷ es) names names' e f h (inl p) (inl q) _ _ ne _ =
    absurd (ne (ap (λ (z : Entry). z.id) (p ∙ sym q)))
check_parents-names entries (x ∷ es) names names' e f h (inl p) (inr n) eb fb ne same =
    let h' : check_parents entries (e ∷ es) names ≡ ok names' = rw p h in
    λ q. first_name entries e es names names' f h' n eb fb same (sym q)
check_parents-names entries (x ∷ es) names names' e f h (inr m) (inl q) eb fb ne same =
    let h' : check_parents entries (f ∷ es) names ≡ ok names' = rw q h in
    first_name entries f es names names' e h' m fb eb (sym same)
check_parents-names entries (x ∷ es) names names' e f h (inr m) (inr n) eb fb ne same =
    let (next, _, h2) = first_round entries x es names names' h in
    check_parents-names entries es next names' e f h2 m n eb fb ne same

-- `e` stands below the root: its chain of parents, each a directory, ends there.
pub data Descends (entries : Map ℕ Entry) : Entry → Type 0 where
  at_root : {e : Entry} → Map.get ℕ_discrete 1 entries ≡ some e → Descends entries e
  below :
      {e p : Entry}
      → Map.get ℕ_discrete e.parent_id entries ≡ some p
      → is_directory p.kind ≡ true
      → Descends entries p
      → Descends entries e

-- With parents one level above their entries, every entry descends from the root.
pub descends :
    (entries : Map ℕ Entry)
    → ((k : ℕ) (e : Entry)
        → Map.get ℕ_discrete k entries ≡ some e
        → (e.id ≡ k) × HasParent entries e)
    → (n k : ℕ) (e : Entry) → Map.get ℕ_discrete k entries ≡ some e
    → e.depth ≤ n
    → Descends entries e
descends entries filed zero k e found le = elim (ℕ_discrete e.id 1) [
  | yes p ↦
      at_root
        (subst (λ j. Map.get ℕ_discrete j entries ≡ some e) (sym (filed k e found).0 ∙ p) found)
  | no n ↦ let (p, _, _, deep) = (filed k e found).1 n in absurd (omega arith)
]
descends entries filed (suc d) k e found le = elim (ℕ_discrete e.id 1) [
  | yes p ↦
      at_root
        (subst (λ j. Map.get ℕ_discrete j entries ≡ some e) (sym (filed k e found).0 ∙ p) found)
  | no n ↦
      let (p, above, dir, deep) = (filed k e found).1 n in
      below above dir (descends entries filed d e.parent_id p above (omega arith))
]
