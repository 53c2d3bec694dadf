-- ===== src/Base/Map.antt =====
-- `HashMap` with a decidable key, as an association list without repeated keys. The order of the
-- list is one order in which the map may be walked.
use mathlib.Core.Path.{sym, subst, ◌∙◌}
use cipher_fs.Base.{All, ◌≡◌, refl, ◌≢◌, ite, Option, none, some, List, [], ◌∷◌, ◌++◌, arith}

abbrev pub Map {ℓ} : Type ℓ → Type ℓ → Type ℓ
Map K V = List (K × V)

module _ {ℓ} {K V : Type ℓ} (dec : Discrete K) where
  unfoldable pub get : K → Map K V → Option V
  get k [] = none
  get k ((j, v) ∷ m) = ite (dec j k) (some v) (get k m)

  unfoldable pub insert : K → V → Map K V → Map K V
  insert k v [] = (k, v) ∷ []
  insert k v ((j, w) ∷ m) = ite (dec j k) ((k, v) ∷ m) ((j, w) ∷ insert k v m)

  unfoldable pub remove : K → Map K V → Map K V
  remove k [] = []
  remove k ((j, v) ∷ m) = ite (dec j k) (remove k m) ((j, v) ∷ remove k m)

  pub get-insert_self : (k : K) (v : V) (m : Map K V) → get k (insert k v m) ≡ some v
  unfolding get insert
  get-insert_self k v [] = ground arith
  get-insert_self k v ((j, w) ∷ m) = ground (arith, get-insert_self k v m)

  pub get-insert_ne : (k j : K) (v : V) (m : Map K V) → k ≢ j → get j (insert k v m) ≡ get j m
  unfolding get insert
  get-insert_ne k j v [] h = ground arith
  get-insert_ne k j v ((i, w) ∷ m) h = ground (arith, get-insert_ne k j v m)

  -- A fresh key goes to the end.
  pub insert_fresh :
      (k : K) (v : V) (m : Map K V) → get k m ≡ none → insert k v m ≡ m ++ ((k, v) ∷ [])
  unfolding get insert
  insert_fresh k v [] h = refl
  insert_fresh k v ((j, w) ∷ m) h = ground (arith, insert_fresh k v m)

  pub get-remove_self : (k : K) (m : Map K V) → get k (remove k m) ≡ none
  unfolding get remove
  get-remove_self k [] = refl
  get-remove_self k ((j, w) ∷ m) = ground (arith, get-remove_self k m)

  pub get-remove_ne : (k j : K) (m : Map K V) → k ≢ j → get j (remove k m) ≡ get j m
  unfolding get remove
  get-remove_ne k j [] h = refl
  get-remove_ne k j ((i, w) ∷ m) h = ground (arith, get-remove_ne k j m)

  -- No key stands twice in the list.
  abbrev pub HasOwnKeys : Map K V → Type ℓ
  HasOwnKeys [] = Unit
  HasOwnKeys ((j, v) ∷ m) = (get j m ≡ none) × HasOwnKeys m

  pub insert-HasOwnKeys : (k : K) (v : V) (m : Map K V) → HasOwnKeys m → HasOwnKeys (insert k v m)
  unfolding get insert
  insert-HasOwnKeys k v [] own = (refl, tt)
  insert-HasOwnKeys k v ((j, w) ∷ m) own =
      elim (dec j k) as (λ d. HasOwnKeys (ite d ((k, v) ∷ m) ((j, w) ∷ insert k v m))) [
        | yes same ↦ (subst (λ i. get i m ≡ none) same own.0, own.1)
        | no ne ↦
            (get-insert_ne k j v m (λ same. ne (sym same)) ∙ own.0, insert-HasOwnKeys k v m own.1)
      ]

  pub All-insert {κ} :
      (P : K × V → Type κ) (k : K) (v : V) (m : Map K V) → P (k, v) → All P m → All P (insert k v m)
  unfolding insert
  All-insert P k v [] h all = (h, tt)
  All-insert P k v ((j, w) ∷ m) h all =
      elim (dec j k) as (λ d. All P (ite d ((k, v) ∷ m) ((j, w) ∷ insert k v m))) [
        | yes same ↦ (h, all.1)
        | no ne ↦ (all.0, All-insert P k v m h all.1)
      ]
