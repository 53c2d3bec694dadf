-- ===== src/Base/Orders.antt =====
-- The orders in which parallel workers may make the calls of a loop.
use mathlib.Core.Path.{subst}
use cipher_fs.Base.{
  ◌≢◌, ℕ_discrete, arith, ◌<◌, sym, ◌+◌, ◌≤◌, All, ap, List, [], ◌∷◌, ◌++◌, ◌≡◌, Member, inl, inr,
  refl, map, ℕ, zero, suc,
}

-- Numbers from `n` on.
abbrev pub range : ℕ → ℕ → List ℕ
range n zero = []
range n (suc count) = n ∷ range (suc n) count

pub Member-range : (i n count : ℕ) → n ≤ i → i < n + count → Member i (range n count)
Member-range i n zero low high = absurd (omega arith)
Member-range i n (suc count) low high = elim (ℕ_discrete i n) [
  | yes same ↦ inl same
  | no ne ↦ inr (Member-range i (suc n) count (omega arith) (omega arith))
]

pub range-below : (n count bound : ℕ) → n + count ≤ bound → All (λ i. i < bound) (range n count)
range-below n zero bound h = tt
range-below n (suc count) bound h = (omega arith, range-below (suc n) count bound (omega arith))

pub Member-map :
    {A B : Type 0} (f : A → B) (a : A) (xs : List A) → Member a xs → Member (f a) (map f xs)
Member-map f a [] m = elim m [ ]
Member-map f a (x ∷ xs) (inl p) = inl (ap f p)
Member-map f a (x ∷ xs) (inr m) = inr (Member-map f a xs m)

module _ {A : Type 0} where
  -- The second list has the elements of the first, each as often, in some order.
  abbrev pub IsOrderOf : List A → List A → Type 0
  IsOrderOf [] ys = ys ≡ []
  IsOrderOf (x ∷ xs) ys =
      (before : List A) × (after : List A) × (ys ≡ before ++ (x ∷ after))
      × IsOrderOf xs (before ++ after)

  -- A schedule puts the calls of a loop in some order.
  abbrev pub IsSchedule : (List A → List A) → Type 0
  IsSchedule schedule = (xs : List A) → IsOrderOf xs (schedule xs)

  Member-insert :
      (a x : A) (before after : List A)
      → Member a (before ++ after)
      → Member a (before ++ (x ∷ after))
  Member-insert a x [] after m = inr m
  Member-insert a x (y ∷ before) after (inl p) = inl p
  Member-insert a x (y ∷ before) after (inr m) = inr (Member-insert a x before after m)

  Member-middle : (x : A) (before after : List A) → Member x (before ++ (x ∷ after))
  Member-middle x [] after = inl refl
  Member-middle x (y ∷ before) after = inr (Member-middle x before after)

  pub Member-IsOrderOf : (xs ys : List A) (a : A) → IsOrderOf xs ys → Member a xs → Member a ys
  Member-IsOrderOf [] ys a o m = elim m [ ]
  Member-IsOrderOf (x ∷ xs) ys a (before, after, made, o) (inl p) =
      subst (Member a) (sym made)
        (subst (λ y. Member y (before ++ (x ∷ after))) (sym p) (Member-middle x before after))
  Member-IsOrderOf (x ∷ xs) ys a (before, after, made, o) (inr m) =
      subst (Member a) (sym made)
        (Member-insert a x before after (Member-IsOrderOf xs (before ++ after) a o m))

  All-middle {κ} :
      (P : A → Type κ) (x : A) (before after : List A)
      → P x
      → All P (before ++ after)
      → All P (before ++ (x ∷ after))
  All-middle P x [] after h t = (h, t)
  All-middle P x (y ∷ before) after h t = (t.0, All-middle P x before after h t.1)

  pub All-IsOrderOf {κ} : (P : A → Type κ) (xs ys : List A) → IsOrderOf xs ys → All P xs → All P ys
  All-IsOrderOf P [] ys o t = subst (All P) (sym o) tt
  All-IsOrderOf P (x ∷ xs) ys (before, after, made, o) t =
      subst (All P) (sym made)
        (All-middle P x before after t.0 (All-IsOrderOf P xs (before ++ after) o t.1))

  -- The order that the list has.
  pub IsOrderOf-refl : (xs : List A) → IsOrderOf xs xs
  IsOrderOf-refl [] = refl
  IsOrderOf-refl (x ∷ xs) = ([], xs, refl, IsOrderOf-refl xs)

module _ {A : Type 0} (f : A → ℕ) where
  -- No two elements have one key.
  abbrev pub AreApartBy : List A → Type 0
  AreApartBy [] = Unit {0}
  AreApartBy (x ∷ xs) = All (λ y. f x ≢ f y) xs × AreApartBy xs

  AreApartBy-middle :
      (x : A) (before after : List A)
      → All (λ y. f x ≢ f y) (before ++ after)
      → AreApartBy (before ++ after)
      → AreApartBy (before ++ (x ∷ after))
  AreApartBy-middle x [] after new apart = (new, apart)
  AreApartBy-middle x (y ∷ before) after new apart = (
    All-middle (λ z. f y ≢ f z) x before after (λ same. new.0 (sym same)) apart.0,
    AreApartBy-middle x before after new.1 apart.1,
  )

  pub AreApartBy-IsOrderOf : (xs ys : List A) → IsOrderOf xs ys → AreApartBy xs → AreApartBy ys
  AreApartBy-IsOrderOf [] ys o apart = subst AreApartBy (sym o) tt
  AreApartBy-IsOrderOf (x ∷ xs) ys (before, after, made, o) apart = subst AreApartBy (sym made) (
      AreApartBy-middle x before after
        (All-IsOrderOf (λ y. f x ≢ f y) xs (before ++ after) o apart.0)
        (AreApartBy-IsOrderOf xs (before ++ after) o apart.1))

module _ {A : Type 0} {B : Type 0} (f : A → B) (P : B → Type 0) where
  -- What holds of the images of all elements.
  pub All-map_of : (xs : List A) → All (λ x. P (f x)) xs → All P (map f xs)
  All-map_of [] all = tt
  All-map_of (x ∷ xs) all = (all.0, All-map_of xs all.1)

  pub All-of_map : (xs : List A) → All P (map f xs) → All (λ x. P (f x)) xs
  All-of_map [] all = tt
  All-of_map (x ∷ xs) all = (all.0, All-of_map xs all.1)

module _ {A : Type 0} (f : A → ℕ) where
  pub AreApartBy-map : (xs : List A) → AreApartBy f xs → AreApartBy (λ n. n) (map f xs)
  AreApartBy-map [] apart = tt
  AreApartBy-map (x ∷ xs) apart =
      (All-map_of f (λ n. f x ≢ n) xs apart.0, AreApartBy-map xs apart.1)

  pub AreApartBy-of_map : (xs : List A) → AreApartBy (λ n. n) (map f xs) → AreApartBy f xs
  AreApartBy-of_map [] apart = tt
  AreApartBy-of_map (x ∷ xs) apart =
      (All-of_map f (λ n. f x ≢ n) xs apart.0, AreApartBy-of_map xs apart.1)

  pub Member-of_map :
      (n : ℕ) (xs : List A) → Member n (map f xs) → (x : A) × Member x xs × (f x ≡ n)
  Member-of_map n [] m = elim m [ ]
  Member-of_map n (x ∷ xs) (inl same) = (x, inl refl, sym same)
  Member-of_map n (x ∷ xs) (inr m) =
      let (y, at_y, same) = Member-of_map n xs m in (y, inr at_y, same)
