-- ===== src/V2/Index/Layout.antt =====
-- The third loop of `validate_index`: the files' data, one after the other.
use cipher_fs.Base.{
  ◌∙◌, ℕ, ◌+◌, ◌≤◌, ◌≡◌, ◌≢◌, sym, ◌⊎◌, inl, inr, not, List, [], ◌∷◌, ◌==◌, arith, Member,
}
use cipher_fs.Base.Words.{checked_add, checked_add-eq-some}
use cipher_fs.Errors.{ok, bail_if, context, >>=-eq-ok, >>-eq-ok, bail_if-eq-ok, context-eq-ok}
use cipher_fs.V2.Index.{Extent, check_layout}
use mathlib.Core.Path.{subst}

-- One step of the loop.
check_layout_step :
    (x : Extent) (xs : List Extent) (expected total : ℕ)
    → check_layout (x ∷ xs) expected ≡ ok total
    → (x.offset ≡ expected) × (check_layout xs (expected + x.encrypted) ≡ ok total)
unfolding check_layout
check_layout_step x xs expected total h =
    let (here, h1) =
      >>-eq-ok
        (bail_if (not (x.offset == expected)) "File data must be contiguous and non-overlapping") _
        h in
    let (next, adds, h2) =
      >>=-eq-ok (context (checked_add expected x.encrypted) "Data layout overflow") _ h1 in
    let p = bail_if-eq-ok _ _ here in
    let (q, _) = checked_add-eq-some expected x.encrypted next (context-eq-ok _ _ adds) in
    (ground arith, subst (λ n. check_layout xs n ≡ ok total) q h2)

pub check_layout_grows :
    (xs : List Extent) (expected total : ℕ) → check_layout xs expected ≡ ok total → expected ≤ total
unfolding check_layout
check_layout_grows [] expected total h = ground arith
check_layout_grows (x ∷ xs) expected total h =
    let (p, rest) = check_layout_step x xs expected total h in
    let later = check_layout_grows xs (expected + x.encrypted) total rest in omega arith

pub check_layout_bounds :
    (x : Extent) (xs : List Extent) (expected total : ℕ)
    → check_layout xs expected ≡ ok total
    → Member x xs
    → (expected ≤ x.offset) × (x.offset + x.encrypted ≤ total)
check_layout_bounds x [] expected total h m = elim m [ ]
check_layout_bounds x (y ∷ xs) expected total h (inl e) =
    let (p, rest) = check_layout_step y xs expected total h in
    let grows = check_layout_grows xs (expected + y.encrypted) total rest in
    subst (λ (z : Extent). (expected ≤ z.offset) × (z.offset + z.encrypted ≤ total)) (sym e)
      (omega arith, omega arith)
check_layout_bounds x (y ∷ xs) expected total h (inr m) =
    let (p, rest) = check_layout_step y xs expected total h in
    let (low, high) = check_layout_bounds x xs (expected + y.encrypted) total rest m in
    (omega arith, high)

-- One file's data end before the other's start.
abbrev pub AreDisjoint : Extent → Extent → Type 0
AreDisjoint x y = (x.offset + x.encrypted ≤ y.offset) ⊎ (y.offset + y.encrypted ≤ x.offset)

pub check_layout_disjoint :
    (x y : Extent) (xs : List Extent) (expected total : ℕ)
    → check_layout xs expected ≡ ok total
    → Member x xs
    → Member y xs
    → x ≢ y
    → AreDisjoint x y
check_layout_disjoint x y [] expected total h m n ne = elim m [ ]
check_layout_disjoint x y (z ∷ xs) expected total h (inl p) (inl q) ne = absurd (ne (p ∙ sym q))
check_layout_disjoint x y (z ∷ xs) expected total h (inl p) (inr n) ne =
    let (here, rest) = check_layout_step z xs expected total h in
    let (low, high) = check_layout_bounds y xs (expected + z.encrypted) total rest n in
    subst (λ x. AreDisjoint x y) (sym p) (inl (omega arith))
check_layout_disjoint x y (z ∷ xs) expected total h (inr m) (inl q) ne =
    let (here, rest) = check_layout_step z xs expected total h in
    let (low, high) = check_layout_bounds x xs (expected + z.encrypted) total rest m in
    subst (λ y. AreDisjoint x y) (sym q) (inr (omega arith))
check_layout_disjoint x y (z ∷ xs) expected total h (inr m) (inr n) ne =
    let (here, rest) = check_layout_step z xs expected total h in
    check_layout_disjoint x y xs (expected + z.encrypted) total rest m n ne
