-- ===== src/WindowsNames.antt =====
-- Names for Windows (crates/cipherfs-core/src/windows_names.rs): which names need another one, and the one
-- they are shown under. A name is the list of its code points.
pub mod Fitting
use cipher_fs.Base.{
  ℕ, zero, suc, ◌+◌, ◌-◌, ◌/◌, ◌%◌, Bool, true, false, ◌||◌, ◌&&◌, Option, none, some, List, [],
  ◌∷◌, ◌++◌, any, map, ltb, leb, ◌==◌, if◌then◌else◌,
}
use cipher_fs.Base.Words.{Bytes, bytes_eq, codes}

-- `encode_utf16().count()`
unfoldable pub utf16_len : List ℕ → ℕ
utf16_len [] = 0
utf16_len (ch ∷ chars) = (if ltb 65535 ch then 2 else 1) + utf16_len chars

abbrev pub is_one_of : List ℕ → ℕ → Bool
is_one_of set ch = any (λ c. c == ch) set

-- `ch <= '\u{1f}'`, or one of the characters that Windows refuses.
abbrev pub is_refused : ℕ → Bool
is_refused ch = leb ch 31 || is_one_of (codes "<>:\"/\\|?*") ch

-- `[' ', '.']`
abbrev pub is_end : ℕ → Bool
is_end ch = is_one_of (codes " .") ch

unfoldable pub ends_with_end : List ℕ → Bool
ends_with_end [] = false
ends_with_end (ch ∷ []) = is_end ch
ends_with_end (ch ∷ next ∷ chars) = ends_with_end (next ∷ chars)

-- `split('.').next()`
unfoldable pub stem_of : List ℕ → List ℕ
stem_of [] = []
stem_of (ch ∷ chars) = if ch == 46 then [] else ch ∷ stem_of chars

-- `to_ascii_uppercase` on one character.
abbrev pub ascii_upper : ℕ → ℕ
ascii_upper ch = if leb 97 ch && leb ch 122 then ch - 32 else ch

unfoldable pub strip_prefix : List ℕ → List ℕ → Option (List ℕ)
strip_prefix [] text = some text
strip_prefix (p ∷ prefix) [] = none
strip_prefix (p ∷ prefix) (ch ∷ text) = if p == ch then strip_prefix prefix text else none

-- One of the digits from 1 to 9, or a superscript one, two or three.
abbrev pub is_port : Option (List ℕ) → Bool
is_port none = false
is_port (some []) = false
is_port (some (ch ∷ [])) = is_one_of (codes "123456789") ch || is_one_of (185 ∷ 178 ∷ 179 ∷ []) ch
is_port (some (ch ∷ next ∷ chars)) = false

abbrev pub or_else : Option (List ℕ) → Option (List ℕ) → Option (List ℕ)
or_else (some x) other = some x
or_else none other = other

abbrev pub is_device : List ℕ → Bool
is_device upper =
    bytes_eq upper (codes "CON")
    || bytes_eq upper (codes "PRN")
    || bytes_eq upper (codes "AUX")
    || bytes_eq upper (codes "NUL")
    || is_port (or_else (strip_prefix (codes "COM") upper) (strip_prefix (codes "LPT") upper))

abbrev pub is_empty : List ℕ → Bool
is_empty [] = true
is_empty (ch ∷ chars) = false

unfoldable pub needs_mapping : List ℕ → Bool
unfolding utf16_len ends_with_end stem_of strip_prefix
needs_mapping name =
    is_empty name
    || ends_with_end name
    || any is_refused name
    || ltb 255 (utf16_len name)
    || is_device (map ascii_upper (stem_of name))

abbrev pub hex_digit : ℕ → ℕ
hex_digit d = if ltb d 10 then 48 + d else 87 + d

-- `hex::encode`
unfoldable pub hex_encode : Bytes → Bytes
hex_encode [] = []
hex_encode (b ∷ bytes) = hex_digit (b / 16) ∷ hex_digit (b % 16) ∷ hex_encode bytes

-- `{:0wx}` at a width that holds the number, in front of `rest`.
unfoldable pub hex_onto : ℕ → ℕ → List ℕ → List ℕ
hex_onto zero n rest = rest
hex_onto (suc width) n rest = hex_onto width (n / 16) (hex_digit (n % 16) ∷ rest)

-- Decimal digits of a number with at most `suc more` of them, in front of `rest`.
unfoldable pub decimal_onto : ℕ → ℕ → List ℕ → List ℕ
decimal_onto zero n rest = (48 + n % 10) ∷ rest
decimal_onto (suc more) n rest =
    let front = decimal_onto more (n / 10) ((48 + n % 10) ∷ rest) in
    if ltb n 10 then (48 + n) ∷ rest else front

-- A `u64` has at most twenty decimal digits.
unfoldable pub attempt_part : ℕ → List ℕ
attempt_part attempt = if attempt == 0 then [] else 45 ∷ decimal_onto 19 attempt []

unfoldable pub suffix_of : ℕ → ℕ → List ℕ
suffix_of id attempt = codes "~cfs-" ++ hex_onto 16 id (attempt_part attempt)

-- `trim_end_matches([' ', '.'])`
unfoldable pub trim_end : List ℕ → List ℕ
trim_end [] = []
trim_end (ch ∷ chars) =
    let rest = trim_end chars in if is_empty rest && is_end ch then [] else ch ∷ rest

-- `pop`
unfoldable pub pop : List ℕ → List ℕ
pop [] = []
pop (ch ∷ []) = []
pop (ch ∷ next ∷ chars) = ch ∷ pop (next ∷ chars)

-- The loop that shortens the name; each round pops one character, so the name's length bounds the rounds.
unfoldable pub shorten : ℕ → ℕ → List ℕ → List ℕ
unfolding utf16_len pop
shorten zero room name = name
shorten (suc rounds) room name =
    let rest = shorten rounds room (pop name) in
    if ltb 255 (utf16_len name + room) then rest else name

abbrev pub or_entry : List ℕ → List ℕ
or_entry [] = codes "entry"
or_entry (ch ∷ chars) = ch ∷ chars

abbrev pub cleaned_of : List ℕ → List ℕ
cleaned_of name = or_entry (trim_end (map (λ ch. if is_refused ch then 95 else ch) name))

abbrev pub count : List ℕ → ℕ
count [] = 0
count (ch ∷ chars) = suc (count chars)

unfoldable pub mapped_name : List ℕ → ℕ → ℕ → List ℕ
mapped_name name id attempt =
    let suffix = suffix_of id attempt in
    let cleaned = cleaned_of name in shorten (count cleaned) (utf16_len suffix) cleaned ++ suffix
