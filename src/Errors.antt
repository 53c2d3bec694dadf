-- ===== src/Errors.antt =====
-- Fallible results. The code's `anyhow::Error` is a chain of causes, the outermost context first;
-- the kinds are those of crates/cipherfs-core/src/operation.rs.
use cipher_fs.Base.{
  ◌⊎◌, inl, inr, ℕ, ◌≡◌, refl, String, Bool, true, false, Option, none, some, List, [], ◌∷◌,
}

pub data CoreErrorKind : Type 0 where
  cancelled authentication integrity invalid_format unsafe_path : CoreErrorKind
  destination_exists source_changed io internal : CoreErrorKind

-- One layer of an error: a message of the program, an I/O error or another library's error with its
-- text, the cancellation marker, or an error with a kind and a rendered text.
pub data Cause : Type 0 where
  message : String → Cause
  io_error : String → Cause
  library_error : String → Cause
  operation_cancelled : Cause
  core_error : CoreErrorKind → List ℕ → Cause

abbrev pub Error : Type 0
Error = List Cause

pub data Result {ℓ} (A : Type ℓ) : Type ℓ where
  ok : A → Result A
  err : Error → Result A

-- `bail!(text)`
abbrev pub bail {ℓ} : {A : Type ℓ} → String → Result A
bail text = err (message text ∷ [])

-- The `?` on a result, with and without a value.
infixl 5 ◌>>=◌ ◌>>◌
abbrev pub ◌>>=◌ {ℓ ℓ'} : {S : Type ℓ} {T : Type ℓ'} → Result S → (S → Result T) → Result T
err causes >>= next = err causes
ok value >>= next = next value

abbrev pub ◌>>◌ {ℓ} : {T : Type ℓ} → Result (Unit {0}) → Result T → Result T
first >> second = first >>= λ unit. second

-- `if test { bail!(text) }`
abbrev pub bail_if : Bool → String → Result (Unit {0})
bail_if true text = bail text
bail_if false text = ok tt

-- `.context(text)` on an `Option` and on a `Result`
abbrev pub context {ℓ} : {A : Type ℓ} → Option A → String → Result A
context (some a) text = ok a
context none text = bail text

abbrev pub with_context {ℓ} : {A : Type ℓ} → Result A → String → Result A
with_context (ok a) text = ok a
with_context (err e) text = err (message text ∷ e)

-- When the whole succeeds, so does each part.
pub >>-eq-ok {ℓ} :
    {T : Type ℓ} (first : Result (Unit {0})) (second : Result T) {value : T}
    → (first >> second) ≡ ok value
    → (first ≡ ok tt) × (second ≡ ok value)
>>-eq-ok (err causes) second whole = cc
>>-eq-ok (ok tt) second whole = (refl, whole)

pub >>=-eq-ok {ℓ ℓ'} :
    {S : Type ℓ} {T : Type ℓ'} (first : Result S) (next : S → Result T) {value : T}
    → (first >>= next) ≡ ok value
    → (given : S) × (first ≡ ok given) × (next given ≡ ok value)
>>=-eq-ok (err causes) next whole = cc
>>=-eq-ok (ok given) next whole = (given, refl, whole)

pub bail_if-eq-ok : (test : Bool) (text : String) → bail_if test text ≡ ok tt → test ≡ false
bail_if-eq-ok true text h = cc
bail_if-eq-ok false text h = refl

pub context-eq-ok {ℓ} :
    {A : Type ℓ} (o : Option A) (text : String) {a : A} → context o text ≡ ok a → o ≡ some a
context-eq-ok none text h = cc
context-eq-ok (some a) text h = cc

pub with_context-eq-ok {ℓ} :
    {A : Type ℓ} (r : Result A) (text : String) {a : A} → with_context r text ≡ ok a → r ≡ ok a
with_context-eq-ok (ok a) text h = h
with_context-eq-ok (err e) text h = cc

pub ok-inj {ℓ} : {A : Type ℓ} {a b : A} → ok a ≡ ok b → a ≡ b
ok-inj h = cc

pub Result-cases {ℓ} :
    {A : Type ℓ} (r : Result A) → ((e : Error) × (r ≡ err e)) ⊎ ((a : A) × (r ≡ ok a))
Result-cases (err e) = inl (e, refl)
Result-cases (ok a) = inr (a, refl)
