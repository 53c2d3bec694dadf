-- ===== src/Base/Sort.antt =====
-- `sort_by_key`: a stable sort, here by insertion.
use cipher_fs.Base.{
  refl, ◌≡◌, true, ◌++◌, All-snoc, Member, ℕ, ◌≤◌, List, [], ◌∷◌, leb, if◌then◌else◌, arith, All,
  Bool-cases, inl, inr,
}
use mathlib.Core.List.{Perm}
use mathlib.Core.List.Perm

module _ {ℓ} {A : Type ℓ} (key : A → ℕ) where
  -- In front of the first element whose key is not smaller.
  unfoldable pub insert_by : A → List A → List A
  insert_by a [] = a ∷ []
  insert_by a (x ∷ xs) = if leb (key a) (key x) then a ∷ x ∷ xs else x ∷ insert_by a xs

  unfoldable pub sort_by_key : List A → List A
  unfolding insert_by
  sort_by_key [] = []
  sort_by_key (x ∷ xs) = insert_by x (sort_by_key xs)

  pub insert_by-Perm : (a : A) (xs : List A) → Perm (insert_by a xs) (a ∷ xs)
  unfolding insert_by
  insert_by-Perm a [] = Perm.refl _
  insert_by-Perm a (x ∷ xs) = elim (Bool-cases (leb (key a) (key x))) [
    | inl e ↦ rw e (Perm.refl _)
    | inr e ↦ rw e (Perm.trans (Perm.cons x (insert_by-Perm a xs)) (Perm.swap a x xs))
  ]

  pub sort_by_key-Perm : (xs : List A) → Perm (sort_by_key xs) xs
  unfolding sort_by_key
  sort_by_key-Perm [] = Perm.refl _
  sort_by_key-Perm (x ∷ xs) =
      Perm.trans (insert_by-Perm x (sort_by_key xs)) (Perm.cons x (sort_by_key-Perm xs))

  -- Keys that never fall along the list.
  abbrev pub IsSorted : List A → Type 0
  IsSorted [] = Unit
  IsSorted (x ∷ xs) = All (λ y. key x ≤ key y) xs × IsSorted xs

  All-insert_by :
      (n : ℕ) (a : A) (xs : List A)
      → n ≤ key a
      → All (λ y. n ≤ key y) xs
      → All (λ y. n ≤ key y) (insert_by a xs)
  unfolding insert_by
  All-insert_by n a [] h t = (h, tt)
  All-insert_by n a (x ∷ xs) h t = elim (Bool-cases (leb (key a) (key x))) [
    | inl e ↦ rw e (h, t)
    | inr e ↦ rw e (t.0, All-insert_by n a xs h t.1)
  ]

  All-key_trans :
      (m n : ℕ) (xs : List A) → m ≤ n → All (λ y. n ≤ key y) xs → All (λ y. m ≤ key y) xs
  All-key_trans m n [] h t = tt
  All-key_trans m n (x ∷ xs) h t = (omega arith, All-key_trans m n xs h t.1)

  insert_by-IsSorted : (a : A) (xs : List A) → IsSorted xs → IsSorted (insert_by a xs)
  unfolding insert_by
  insert_by-IsSorted a [] s = (tt, tt)
  insert_by-IsSorted a (x ∷ xs) s = elim (Bool-cases (leb (key a) (key x))) [
    | inl e ↦
        let le : key a ≤ key x = ground arith in
        rw e ((le, All-key_trans (key a) (key x) xs le s.0), s)
    | inr e ↦
        let le : key x ≤ key a = ground arith in
        rw e (All-insert_by (key x) a xs le s.0, insert_by-IsSorted a xs s.1)
  ]

  pub sort_by_key-IsSorted : (xs : List A) → IsSorted (sort_by_key xs)
  unfolding sort_by_key
  sort_by_key-IsSorted [] = tt
  sort_by_key-IsSorted (x ∷ xs) = insert_by-IsSorted x (sort_by_key xs) (sort_by_key-IsSorted xs)

  -- A sorted list stays as it is.
  pub sort_by_key_of_IsSorted : (xs : List A) → IsSorted xs → sort_by_key xs ≡ xs
  unfolding sort_by_key insert_by
  sort_by_key_of_IsSorted [] s = refl
  sort_by_key_of_IsSorted (x ∷ []) s = refl
  sort_by_key_of_IsSorted (x ∷ y ∷ xs) s =
      let first : leb (key x) (key y) ≡ true = ground (arith, s.0.0) in
      rw (sort_by_key_of_IsSorted (y ∷ xs) s.1) (rw first refl)

  pub IsSorted-append :
      (xs : List A) (x : A) → IsSorted xs → All (λ y. key y ≤ key x) xs → IsSorted (xs ++ (x ∷ []))
  IsSorted-append [] x s t = (tt, tt)
  IsSorted-append (y ∷ xs) x s t =
      (All-snoc (λ z. key y ≤ key z) xs x s.0 t.0, IsSorted-append xs x s.1 t.1)

-- `sort_by_key(|x| Reverse(key))`: stable, largest key first.
module _ {ℓ} {A : Type ℓ} (key : A → ℕ) where
  unfoldable pub insert_by_reverse : A → List A → List A
  insert_by_reverse a [] = a ∷ []
  insert_by_reverse a (x ∷ xs) =
      if leb (key x) (key a) then a ∷ x ∷ xs else x ∷ insert_by_reverse a xs

  unfoldable pub sort_by_key_reverse : List A → List A
  unfolding insert_by_reverse
  sort_by_key_reverse [] = []
  sort_by_key_reverse (x ∷ xs) = insert_by_reverse x (sort_by_key_reverse xs)

module _ {A : Type 0} (key : A → ℕ) where
  Member-insert_by_self : (a : A) (xs : List A) → Member a (insert_by key a xs)
  unfolding insert_by
  Member-insert_by_self a [] = inl refl
  Member-insert_by_self a (x ∷ xs) = elim (Bool-cases (leb (key a) (key x))) [
    | inl e ↦ rw e (inl refl)
    | inr e ↦ rw e (inr (Member-insert_by_self a xs))
  ]

  Member-insert_by : (y a : A) (xs : List A) → Member y xs → Member y (insert_by key a xs)
  unfolding insert_by
  Member-insert_by y a [] m = elim m [ ]
  Member-insert_by y a (x ∷ xs) (inl p) = elim (Bool-cases (leb (key a) (key x))) [
    | inl e ↦ rw e (inr (inl p))
    | inr e ↦ rw e (inl p)
  ]
  Member-insert_by y a (x ∷ xs) (inr m) = elim (Bool-cases (leb (key a) (key x))) [
    | inl e ↦ rw e (inr (inr m))
    | inr e ↦ rw e (inr (Member-insert_by y a xs m))
  ]

  -- Sorting loses nothing.
  pub Member-sort_by_key : (y : A) (xs : List A) → Member y xs → Member y (sort_by_key key xs)
  unfolding sort_by_key
  Member-sort_by_key y [] m = m
  Member-sort_by_key y (x ∷ xs) (inl p) = rw p (Member-insert_by_self x (sort_by_key key xs))
  Member-sort_by_key y (x ∷ xs) (inr m) =
      Member-insert_by y x (sort_by_key key xs) (Member-sort_by_key y xs m)

  -- What holds of every element holds of every element in order.
  All-insert {κ} :
      (P : A → Type κ) (a : A) (xs : List A) → P a → All P xs → All P (insert_by key a xs)
  unfolding insert_by
  All-insert P a [] h t = (h, tt)
  All-insert P a (x ∷ xs) h t = elim (Bool-cases (leb (key a) (key x))) [
    | inl e ↦ rw e (h, t)
    | inr e ↦ rw e (t.0, All-insert P a xs h t.1)
  ]

  pub All-sort_by_key {κ} : (P : A → Type κ) (xs : List A) → All P xs → All P (sort_by_key key xs)
  unfolding sort_by_key
  All-sort_by_key P [] t = tt
  All-sort_by_key P (x ∷ xs) t = All-insert P x (sort_by_key key xs) t.0 (All-sort_by_key P xs t.1)
