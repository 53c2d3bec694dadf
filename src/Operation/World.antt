-- ===== src/Operation/World.antt =====
-- The environment of one operation on one container file, as a state monad with failure: the bytes of
-- the file, what the next writes, syncs and cancellation checks will meet, and the events reported so far.
use cipher_fs.Base.{
  ◌≢◌, arith, replicate, ◌-◌, refl, ap, ℕ, ◌+◌, Bool, List, [], ◌∷◌, ◌++◌, leb, if◌then◌else◌,
  length, take, drop, ◌≡◌,
}
use mathlib.Core.Path.{subst}
use cipher_fs.Base.Words.{Bytes}
use cipher_fs.Errors.{Error, Result, ok, err, io_error, operation_cancelled}
use cipher_fs.Operation.{OperationEvent}

pub record World : Type 0 where
  pub file : Bytes
  -- For each write or sync to come, whether the system refuses it; none further are refused.
  pub refusals : List Bool
  -- The value of the cancellation token at each check to come; `false` after these.
  pub cancels : List Bool
  -- Oldest first.
  pub events : List OperationEvent

-- The world of a reader that has only the container.
abbrev pub reader : Bytes → World
reader content = record { file = content; refusals = []; cancels = []; events = [] }

abbrev pub Op : Type 0 → Type 0
Op A = World → Result A × World

infixl 5 ◌>>=◌ ◌>>◌
abbrev pub continue {ℓ} :
    {A : Type 0} {B : Type ℓ} → Result A × World → (A → World → Result B × World) → Result B × World
continue (ok a, w) f = f a w
continue (err e, w) f = (err e, w)

abbrev pub ◌>>=◌ : {A B : Type 0} → Op A → (A → Op B) → Op B
◌>>=◌ m f w = continue (m w) f

abbrev pub ◌>>◌ : {B : Type 0} → Op (Unit {0}) → Op B → Op B
m >> k = m >>= λ _. k

abbrev pub lift : {A : Type 0} → Result A → Op A
lift r w = (r, w)

-- `CancellationToken::check`
unfoldable pub check : Op (Unit {0})
check w = elim w.cancels [
  | [] ↦ (ok tt, w)
  | c ∷ rest ↦ (if c then err (operation_cancelled ∷ []) else ok tt, record w { cancels = rest })
]

-- `reporter.event`
unfoldable pub report : OperationEvent → Op (Unit {0})
report e w = (ok tt, record w { events = w.events ++ (e ∷ []) })

-- `read_exact_at`: all the bytes asked for, or an error.
unfoldable pub read_exact_at : ℕ → ℕ → Bytes → Result Bytes
read_exact_at len position file =
    if leb (position + len) (length file)
    then ok (take len (drop position file))
    else err (io_error "failed to fill whole buffer" ∷ [])

-- `seek(Start(0))`, `write_all`, `sync_all` over a prefix of the file. A refused write changes nothing.
unfoldable pub write_prefix : Bytes → Op (Unit {0})
write_prefix bytes w = elim w.refusals [
  | [] ↦ (ok tt, record w { file = bytes ++ drop (length bytes) w.file })
  | r ∷ rest ↦
      if r
      then (err (io_error "write failed" ∷ []), record w { refusals = rest })
      else (ok tt, record w { file = bytes ++ drop (length bytes) w.file; refusals = rest })
]

-- `sync_all`
unfoldable pub sync_all : Op (Unit {0})
sync_all w = elim w.refusals [
  | [] ↦ (ok tt, w)
  | r ∷ rest ↦
      (if r then err (io_error "sync failed" ∷ []) else ok tt, record w { refusals = rest })
]

-- The file after `write_all_at` has succeeded; a gap before the bytes is filled with zeros.
unfoldable pub written_at : ℕ → Bytes → Bytes → Bytes
written_at position bytes file =
    take position (file ++ replicate (position - length file) 0)
    ++ (bytes ++ drop (position + length bytes) file)

-- `write_all_at`. A refused write changes nothing.
unfoldable pub write_all_at : ℕ → Bytes → Op (Unit {0})
write_all_at position bytes w = elim w.refusals [
  | [] ↦ (ok tt, record w { file = written_at position bytes w.file })
  | r ∷ rest ↦
      if r
      then (err (io_error "write failed" ∷ []), record w { refusals = rest })
      else (ok tt, record w { file = written_at position bytes w.file; refusals = rest })
]

err_ne_ok : {B : Type 0} (r : Result B) (e : Error) (b : B) → r ≡ err e → r ≢ ok b
err_ne_ok r e b h = λ q. cc

-- Inversions of a success, for proofs where the parts stay shut.
pub >>=-eq-ok :
    {A B : Type 0} (m : Op A) (f : A → Op B) (w : World) {b : B} {w' : World}
    → (m >>= f) w ≡ (ok b, w')
    → (a : A) × (m w ≡ (ok a, (m w).1)) × (f a (m w).1 ≡ (ok b, w'))
>>=-eq-ok {A} m f w {b} {w'} h = go (m w).0 refl
  where
    go :
        (r : Result A)
        → (m w).0 ≡ r
        → (a : A) × (m w ≡ (ok a, (m w).1)) × (f a (m w).1 ≡ (ok b, w'))
    go (ok a) p =
        (a, ap (λ r. (r, (m w).1)) p, subst (λ r. continue (r, (m w).1) f ≡ (ok b, w')) p h)
    go (err e) p =
        absurd (
          err_ne_ok ((m >>= f) w).0 e b (ap (λ r. (continue (r, (m w).1) f).0) p) (ap (λ r. r.0) h))

pub lift-eq-ok :
    {A : Type 0} (r : Result A) (w : World) {a : A} {w' : World}
    → lift r w ≡ (ok a, w')
    → (r ≡ ok a) × (w ≡ w')
lift-eq-ok r w h = (ap (λ r. r.0) h, ap (λ r. r.1) h)

-- The checks of the token and the reports leave the file alone.
pub file-check : (w : World) → (check w).1.file ≡ w.file
unfolding check
file-check w = ground arith

pub file-report : (e : OperationEvent) (w : World) → (report e w).1.file ≡ w.file
unfolding report
file-report e w = refl

pub write_all_at-eq-ok :
    (position : ℕ) (bytes : Bytes) (w : World) {w' : World}
    → write_all_at position bytes w ≡ (ok tt, w')
    → w'.file ≡ written_at position bytes w.file
unfolding write_all_at
write_all_at-eq-ok position bytes w {w'} h = ground arith
