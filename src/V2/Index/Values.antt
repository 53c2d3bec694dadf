-- ===== src/V2/Index/Values.antt =====
-- The values of the map that `validate_index` of v2.rs keeps: each is found under its id.
use cipher_fs.Base.Orders.{AreApartBy}
use cipher_fs.V2.Index.Scanning.{check_entry_lem}
use cipher_fs.V2.Index.Soundness.{validate_index_tree, accepted}
use mathlib.Core.Path.{subst}
use cipher_fs.Errors.{>>=-eq-ok, ok-inj, ok}
use cipher_fs.Base.{
  ◌≢◌, none, refl, ◌∙◌, [], some_ne_none, All-map, ap, arith, sym, ◌∷◌, some, ◌≡◌, All, ℕ_discrete,
  List, ℕ,
}
use cipher_fs.V2.Types.{ValidatedIndex, Entry, Index, Header}
use cipher_fs.V2.Index.{start, check_entry, values, validate_index, Scan, scan_entries}
use cipher_fs.Base.Map.{Map}
use cipher_fs.Base.Map

found_values :
    (m : Map ℕ Entry)
    → Map.HasOwnKeys ℕ_discrete m
    → All (λ (e : Entry). (k : ℕ) × (Map.get ℕ_discrete k m ≡ some e)) (values m)
unfolding Map.get
found_values [] own = tt
found_values ((j, v) ∷ m) own = (
  (j, ground arith),
  All-map (values m)
      (λ e found. (
        found.0,
        elim (ℕ_discrete j found.0) [
          | yes same ↦
              absurd
                (some_ne_none (sym found.1 ∙ ap (λ k. Map.get ℕ_discrete k m) (sym same) ∙ own.0))
          | no ne ↦ ground (arith, found.1)
        ],
      ))
      (found_values m own.1),
)

scan_entries-HasOwnKeys :
    (es : List Entry) (s s' : Scan)
    → scan_entries es s ≡ ok s'
    → Map.HasOwnKeys ℕ_discrete s.entries
    → Map.HasOwnKeys ℕ_discrete s'.entries
unfolding scan_entries
scan_entries-HasOwnKeys [] s s' h own =
    subst (λ (t : Scan). Map.HasOwnKeys ℕ_discrete t.entries) (ok-inj h) own
scan_entries-HasOwnKeys (e ∷ es) s s' h own =
    let (t, h1, h2) = >>=-eq-ok (check_entry e s) _ h in
    let (_, added, _, _) = check_entry_lem e s t h1 in
    scan_entries-HasOwnKeys es t s' h2 (
      subst (Map.HasOwnKeys ℕ_discrete) (sym added)
        (Map.insert-HasOwnKeys ℕ_discrete e.id e s.entries own))

-- Every key is its entry's id.
abbrev AreKeyed : Map ℕ Entry → Type 0
AreKeyed m = All (λ (p : ℕ × Entry). p.1.id ≡ p.0) m

scan_entries-AreKeyed :
    (es : List Entry) (s s' : Scan)
    → scan_entries es s ≡ ok s'
    → AreKeyed s.entries
    → AreKeyed s'.entries
unfolding scan_entries
scan_entries-AreKeyed [] s s' h keyed = subst (λ (t : Scan). AreKeyed t.entries) (ok-inj h) keyed
scan_entries-AreKeyed (e ∷ es) s s' h keyed =
    let (t, h1, h2) = >>=-eq-ok (check_entry e s) _ h in
    let (_, added, _, _) = check_entry_lem e s t h1 in
    scan_entries-AreKeyed es t s' h2 (
      subst AreKeyed (sym added)
        (Map.All-insert ℕ_discrete (λ (p : ℕ × Entry). p.1.id ≡ p.0) e.id e s.entries refl keyed))

other_ids :
    (j : ℕ) (m : Map ℕ Entry)
    → Map.get ℕ_discrete j m ≡ none
    → AreKeyed m
    → All (λ (e : Entry). j ≢ e.id) (values m)
unfolding Map.get
other_ids j [] free keyed = tt
other_ids j ((k, e) ∷ m) free keyed = elim (ℕ_discrete k j) [
  | yes same ↦ absurd (some_ne_none {a = e} (ground (arith, free, same)))
  | no ne ↦ (λ at_. ne (sym (at_ ∙ keyed.0)), other_ids j m (ground (arith, free)) keyed.1)
]

ids_apart :
    (m : Map ℕ Entry)
    → Map.HasOwnKeys ℕ_discrete m
    → AreKeyed m
    → AreApartBy (λ (e : Entry). e.id) (values m)
ids_apart [] own keyed = tt
ids_apart ((k, e) ∷ m) own keyed = (
  other_ids e.id m (ap (λ j. Map.get ℕ_discrete j m) keyed.0 ∙ own.0) keyed.1,
  ids_apart m own.1 keyed.1,
)

-- In an accepted index, no two values have one id.
pub validate_index_ids :
    (header : Header) (index : Index) (v : ValidatedIndex)
    → validate_index header index ≡ ok v
    → AreApartBy (λ (e : Entry). e.id) (values v.entries)
validate_index_ids header index v h =
    let a = accepted header index v h in
    subst (λ m. AreApartBy (λ (e : Entry). e.id) (values m))
      (sym (ap (λ (w : ValidatedIndex). w.entries) a.kept))
      (ids_apart a.scan.entries (scan_entries-HasOwnKeys index.entries start a.scan a.scanned tt)
        (scan_entries-AreKeyed index.entries start a.scan a.scanned tt))

-- In an accepted index, every value of the map stands under its own id.
pub validate_index_values :
    (header : Header) (index : Index) (v : ValidatedIndex)
    → validate_index header index ≡ ok v
    → All (λ (e : Entry). Map.get ℕ_discrete e.id v.entries ≡ some e) (values v.entries)
validate_index_values header index v h =
    let a = accepted header index v h in
    let kept : a.scan.entries ≡ v.entries = sym (ap (λ (w : ValidatedIndex). w.entries) a.kept) in
    let own =
      subst (Map.HasOwnKeys ℕ_discrete) kept
        (scan_entries-HasOwnKeys index.entries start a.scan a.scanned tt) in
    All-map (values v.entries)
      (λ e found.
        let (same, _, _) = validate_index_tree header index v found.0 e h found.1 in
        subst (λ k. Map.get ℕ_discrete k v.entries ≡ some e) (sym same) found.1)
      (found_values v.entries own)
