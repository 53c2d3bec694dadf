-- ===== src/Operation/Kinds.antt =====
-- What callers of a public operation read from its errors.
use cipher_fs.Base.{◌≡◌, true, none, some, arith, any, Option-cases, inl, inr}
use cipher_fs.Errors.{CoreErrorKind, cancelled, Error}
use cipher_fs.Operation.{core_kind, is_cancelled, error_kind, infer_kind, typed}

-- An error that passed through `typed` has a kind: its own if it had one, else the inferred one; and
-- `typed` leaves it alone from then on.
pub error_kind-typed :
    (e : Error)
    → (((k : CoreErrorKind) → core_kind e ≡ some k → error_kind (typed e) ≡ k)
        × (core_kind e ≡ none → error_kind (typed e) ≡ infer_kind e)
        × (typed (typed e) ≡ typed e))
unfolding error_kind typed core_kind
error_kind-typed e = elim (Option-cases (core_kind e)) [
  | inl none_e ↦ (λ k h. cc, λ h. ground arith, ground arith)
  | inr (k, some_e) ↦ (λ j h. ground arith, λ h. cc, ground arith)
]

-- A cancellation is reported as one, whatever context was added to it.
pub typed_cancelled :
    (e : Error) → core_kind e ≡ none → any is_cancelled e ≡ true → error_kind (typed e) ≡ cancelled
unfolding error_kind typed core_kind infer_kind
typed_cancelled e h c = ground arith
