-- ===== src/Operation/Positional.antt =====
-- Reading a file by position after writing to it by position.
use cipher_fs.Base.{
  true, ℕ, zero, suc, ◌+◌, ◌-◌, ◌≤◌, ◌≡◌, ◌⊎◌, inl, inr, refl, sym, ◌∙◌, [], ◌∷◌, ◌++◌, ap, leb,
  length, take, drop, replicate, arith, length-append, length-take, length-drop, length-replicate,
  drop-append_left, take-append_left, drop-drop, take-take_le, drop-take_lem,
}
use cipher_fs.Base.Words.{Bytes}
use cipher_fs.Errors.{ok}
use cipher_fs.Operation.World.{read_exact_at, written_at}

-- A range within the first part.
slice-append_left :
    (p n : ℕ) (xs ys : Bytes) → p + n ≤ length xs → take n (drop p (xs ++ ys)) ≡ take n (drop p xs)
slice-append_left zero zero xs ys h = refl
slice-append_left zero (suc n) [] ys h = absurd (omega arith)
slice-append_left zero (suc n) (x ∷ xs) ys h =
    ap (◌∷◌ x) (slice-append_left zero n xs ys (omega arith))
slice-append_left (suc p) n [] ys h = absurd (omega arith)
slice-append_left (suc p) n (x ∷ xs) ys h = slice-append_left p n xs ys (omega arith)

-- A range behind the first part.
slice-append_right :
    (p k n : ℕ) (xs ys : Bytes)
    → p ≡ length xs + k
    → take n (drop p (xs ++ ys)) ≡ take n (drop k ys)
slice-append_right p k n xs ys e =
    let split = drop-drop (length xs) k p (xs ++ ys) e in
    ap (take n) (sym split ∙ ap (drop k) (drop-append_left xs ys))

-- The zeros that fill the gap before a write.
abbrev padded : ℕ → Bytes → Bytes
padded q file = file ++ replicate (q - length file) 0

length-padded : (q : ℕ) (file : Bytes) → q ≤ length (padded q file)
length-padded q file =
    let a = length-append file (replicate (q - length file) 0) in
    let b : length (replicate {A = ℕ} (q - length file) 0) ≡ q - length file =
      length-replicate (q - length file) 0 in
    omega arith

length-front : (q : ℕ) (file : Bytes) → length (take q (padded q file)) ≡ q
length-front q file =
    let a = length-take q (padded q file) in let b = length-padded q file in omega arith

pub length-written_at :
    (q : ℕ) (bytes file : Bytes)
    → length (written_at q bytes file) ≡ q + length bytes + (length file - (q + length bytes))
unfolding written_at
length-written_at q bytes file =
    let a = length-front q file in
    let b = length-append (take q (padded q file)) (bytes ++ drop (q + length bytes) file) in
    let c = length-append bytes (drop (q + length bytes) file) in
    let d = length-drop (q + length bytes) file in omega arith

-- A file never shrinks.
pub length-le-written_at :
    (q : ℕ) (bytes file : Bytes) → length file ≤ length (written_at q bytes file)
length-le-written_at q bytes file = let a = length-written_at q bytes file in omega arith

slice_written :
    (q : ℕ) (bytes file : Bytes) → take (length bytes) (drop q (written_at q bytes file)) ≡ bytes
unfolding written_at
slice_written q bytes file =
    let front = length-front q file in
    slice-append_right q 0 (length bytes) (take q (padded q file))
      (bytes ++ drop (q + length bytes) file) (omega arith)
    ∙ take-append_left bytes (drop (q + length bytes) file)

slice_before :
    (p n q : ℕ) (bytes file : Bytes)
    → p + n ≤ q
    → p + n ≤ length file
    → take n (drop p (written_at q bytes file)) ≡ take n (drop p file)
unfolding written_at
slice_before p n q bytes file h fits =
    let front = length-front q file in
    slice-append_left p n (take q (padded q file)) (bytes ++ drop (q + length bytes) file)
      (omega arith)
    ∙ ap (take n) (drop-take_lem q (q - p) p (padded q file) (omega arith))
    ∙ take-take_le (q - p) n (drop p (padded q file)) (omega arith)
    ∙ slice-append_left p n file (replicate (q - length file) 0) fits

slice_behind :
    (p n q : ℕ) (bytes file : Bytes)
    → q + length bytes ≤ p
    → take n (drop p (written_at q bytes file)) ≡ take n (drop p file)
unfolding written_at
slice_behind p n q bytes file h =
    let front = length-front q file in
    let k = p - (q + length bytes) in
    slice-append_right p (p - q) n (take q (padded q file)) (bytes ++ drop (q + length bytes) file)
      (omega arith)
    ∙ slice-append_right (p - q) k n bytes (drop (q + length bytes) file) (omega arith)
    ∙ ap (take n) (drop-drop (q + length bytes) k p file (omega arith))

-- A read returns what was written there.
pub read_exact_at-written_at :
    (q : ℕ) (bytes file : Bytes)
    → read_exact_at (length bytes) q (written_at q bytes file) ≡ ok bytes
unfolding read_exact_at
read_exact_at-written_at q bytes file =
    let size = length-written_at q bytes file in
    let fits : leb (q + length bytes) (length (written_at q bytes file)) ≡ true = ground arith in
    rw (fits, slice_written q bytes file)

-- A write leaves what is read elsewhere.
pub read_exact_at_elsewhere :
    (n p q : ℕ) (bytes file : Bytes) {x : Bytes}
    → (p + n ≤ q) ⊎ (q + length bytes ≤ p)
    → read_exact_at n p file ≡ ok x
    → read_exact_at n p (written_at q bytes file) ≡ ok x
unfolding read_exact_at
read_exact_at_elsewhere n p q bytes file {x} apart h =
    let within : p + n ≤ length file = ground arith in
    let grows = length-le-written_at q bytes file in
    let fits : leb (p + n) (length (written_at q bytes file)) ≡ true = ground arith in
    let was : leb (p + n) (length file) ≡ true = ground arith in
    let old : ok (take n (drop p file)) ≡ ok x = ground arith in
    rw fits (
      ap ok (elim apart [
        | inl a ↦ slice_before p n q bytes file a within
        | inr a ↦ slice_behind p n q bytes file a
      ])
      ∙ old)
