-- ===== src/WindowsNames/Fitting.antt =====
-- Mapped names fit into a Windows name.
use cipher_fs.Base.{
  ℕ, zero, suc, ◌+◌, ◌-◌, ◌/◌, ◌%◌, ◌≤◌, ◌≡◌, refl, List, [], ◌∷◌, ◌++◌, ltb, ◌==◌, if◌then◌else◌,
  arith, Bool-cases, inl, inr,
}
use cipher_fs.Base.Words.{codes}
use cipher_fs.WindowsNames.{
  attempt_part, utf16_len, hex_digit, hex_onto, decimal_onto, suffix_of, pop, shorten, count,
  cleaned_of, mapped_name,
}

utf16_len-append : (xs ys : List ℕ) → utf16_len (xs ++ ys) ≡ utf16_len xs + utf16_len ys
unfolding utf16_len
utf16_len-append [] ys = omega arith
utf16_len-append (x ∷ xs) ys = omega (arith, utf16_len-append xs ys)

char_len : (ch : ℕ) → (if ltb 65535 ch then 2 else 1) ≤ 2
char_len ch = ground arith

utf16_len-hex_onto :
    (width n : ℕ) (rest : List ℕ)
    → utf16_len (hex_onto width n rest) ≤ width + width + utf16_len rest
unfolding utf16_len hex_onto
utf16_len-hex_onto zero n rest = omega arith
utf16_len-hex_onto (suc width) n rest =
    let ih = utf16_len-hex_onto width (n / 16) (hex_digit (n % 16) ∷ rest) in
    let one = char_len (hex_digit (n % 16)) in omega arith

utf16_len-decimal_onto :
    (more n : ℕ) (rest : List ℕ)
    → utf16_len (decimal_onto more n rest) ≤ 2 + more + more + utf16_len rest
unfolding utf16_len decimal_onto
utf16_len-decimal_onto zero n rest = let one = char_len (48 + n % 10) in omega arith
utf16_len-decimal_onto (suc more) n rest =
    let ih = utf16_len-decimal_onto more (n / 10) ((48 + n % 10) ∷ rest) in
    let one = char_len (48 + n % 10) in
    let two = char_len (48 + n) in
    elim (Bool-cases (ltb n 10)) [ inl e ↦ rw e (omega arith) | inr e ↦ rw e (omega arith) ]

utf16_len-attempt_part : (attempt : ℕ) → utf16_len (attempt_part attempt) ≤ 50
unfolding attempt_part utf16_len
utf16_len-attempt_part attempt =
    let dec = utf16_len-decimal_onto 19 attempt [] in
    elim (Bool-cases (attempt == 0)) [ inl e ↦ rw e (omega arith) | inr e ↦ rw e (omega arith) ]

mark_len : utf16_len (codes "~cfs-") ≡ 5
unfolding utf16_len
mark_len = refl

utf16_len-suffix_of : (id attempt : ℕ) → utf16_len (suffix_of id attempt) ≤ 255
unfolding suffix_of
utf16_len-suffix_of id attempt =
    let hex = utf16_len-hex_onto 16 id (attempt_part attempt) in
    let part = utf16_len-attempt_part attempt in
    let whole = utf16_len-append (codes "~cfs-") (hex_onto 16 id (attempt_part attempt)) in
    let mark = mark_len in omega arith

count-pop : (name : List ℕ) → count (pop name) ≡ count name - 1
unfolding pop
count-pop [] = omega arith
count-pop (ch ∷ []) = omega arith
count-pop (ch ∷ next ∷ chars) = omega (arith, count-pop (next ∷ chars))

-- With a round for each character, the shortened name leaves room for `room` more units.
shorten_fits :
    (rounds room : ℕ) (name : List ℕ)
    → count name ≤ rounds
    → room ≤ 255
    → utf16_len (shorten rounds room name) + room ≤ 255
unfolding shorten utf16_len
shorten_fits zero room [] h r = omega arith
shorten_fits zero room (ch ∷ chars) h r = absurd (omega arith)
shorten_fits (suc rounds) room name h r =
    let p = count-pop name in
    let ih = shorten_fits rounds room (pop name) (omega arith) r in
    elim (Bool-cases (ltb 255 (utf16_len name + room))) [
      | inl e ↦ rw e ih
      | inr e ↦ let fits : utf16_len name + room ≤ 255 = ground arith in rw e fits
    ]

-- A mapped name has at most 255 UTF-16 units, whatever the name, the entry's id and the attempt are.
pub mapped_name_fits :
    (name : List ℕ) (id attempt : ℕ) → utf16_len (mapped_name name id attempt) ≤ 255
unfolding mapped_name
mapped_name_fits name id attempt =
    let suffix = suffix_of id attempt in
    let cleaned = cleaned_of name in
    let a = utf16_len-append (shorten (count cleaned) (utf16_len suffix) cleaned) suffix in
    let b = utf16_len-suffix_of id attempt in
    let c = shorten_fits (count cleaned) (utf16_len suffix) cleaned (omega arith) b in omega arith
