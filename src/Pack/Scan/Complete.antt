-- ===== src/Pack/Scan/Complete.antt =====
-- A whole walk of `scan_source`, and the index that it hands to `open`.
use cipher_fs.Base.Sort.{sort_by_key_of_IsSorted, sort_by_key}
use cipher_fs.Pack.Scan.Steps.{scan_item_lem}
use cipher_fs.Errors.{ok-inj, ok}
use cipher_fs.V2.Types.{max_entries, ValidatedIndex, Header}
use cipher_fs.Pack.Scan.Accepted.{
  IsIndexed-file, IsIndexed-directory, offset_of, first_scan-IsIndexed, IsIndexed,
}
use cipher_fs.Operation.World.{lift, check, World}
use cipher_fs.V2.Index.{check_parents, Extent, values, validate_index}
use cipher_fs.Pack.Scan.Growing.{Place}
use cipher_fs.Pack.Scan.{
  scan_items, scan_walked, first_scan, source_dir, unreadable, scan_item, below, SourceScan, Item,
  Walked, scan_source, scan_walk,
}
use cipher_fs.Base.{
  inr, sym, ==_iff, true, arith, false, ltb, ◌||◌, ◌==◌, not, inl, length, ◌≡◌, [], Member, ◌∷◌,
  List,
}
use cipher_fs.Operation.World
use mathlib.Core.Path.{subst}
use cipher_fs.Base.{refl}

-- No item of the walk stands at a place that the walk has shown before: each path is visited once.
abbrev pub AreNew : List Walked → List Place → Type 0
AreNew [] seen = Unit {0}
AreNew (unreadable ∷ walk) seen = AreNew walk seen
AreNew (source_dir ∷ walk) seen = AreNew walk seen
AreNew (below item ∷ walk) seen =
    (¬ Member (item.parent, item.name) seen) × AreNew walk ((item.parent, item.name) ∷ seen)

scan_item-IsIndexed :
    (seen : List Place) (item : Item) (s s' : SourceScan)
    → IsIndexed seen s
    → ¬ Member (item.parent, item.name) seen
    → scan_item item s ≡ ok s'
    → IsIndexed ((item.parent, item.name) ∷ seen) s'
scan_item-IsIndexed seen item s s' i unseen h =
    let (parent_id, placed, branch) = scan_item_lem item s s' h in
    elim branch [
      | inl p ↦
          subst (IsIndexed ((item.parent, item.name) ∷ seen)) (sym p)
            (IsIndexed-directory seen item s i parent_id placed unseen)
      | inr f ↦ IsIndexed-file seen item s i parent_id placed unseen f
    ]

scan_walked-IsIndexed :
    (x : Walked) (walk : List Walked) (seen : List Place) (s t : SourceScan)
    → IsIndexed seen s
    → AreNew (x ∷ walk) seen
    → scan_walked x s ≡ ok t
    → (seen' : List Place) × IsIndexed seen' t × AreNew walk seen'
unfolding scan_walked
scan_walked-IsIndexed unreadable walk seen s t i new h = cc
scan_walked-IsIndexed source_dir walk seen s t i new h =
    (seen, subst (IsIndexed seen) (ok-inj h) i, new)
scan_walked-IsIndexed (below item) walk seen s t i new h =
    ((item.parent, item.name) ∷ seen, scan_item-IsIndexed seen item s t i new.0 h, new.1)

-- The rest of the walk keeps the invariant, whatever the token answers.
scan_walk-IsIndexed :
    (walk : List Walked) (seen : List Place) (s s' : SourceScan) (w w' : World)
    → IsIndexed seen s
    → AreNew walk seen
    → scan_walk walk s w ≡ (ok s', w')
    → (all : List Place) × IsIndexed all s'
unfolding scan_walk
scan_walk-IsIndexed [] seen s s' w w' i new h =
    let (same, _) = World.lift-eq-ok (ok s) w h in (seen, subst (IsIndexed seen) (ok-inj same) i)
scan_walk-IsIndexed (x ∷ walk) seen s s' w w' i new h =
    let (_, _, h1) =
      World.>>=-eq-ok check (λ _. World.◌>>=◌ (lift (scan_walked x s)) λ t. scan_walk walk t) w h in
    let (t, step, h2) =
      World.>>=-eq-ok (lift (scan_walked x s)) (λ t. scan_walk walk t) (check w).1 h1 in
    let round = (World.lift-eq-ok (scan_walked x s) (check w).1 step).0 in
    let (seen', i', new') = scan_walked-IsIndexed x walk seen s t i new round in
    scan_walk-IsIndexed walk seen' t s' (lift (scan_walked x s) (check w).1).1 w' i' new' h2

-- The token can only stop the walk.
pub scan_walk-scan_items :
    (walk : List Walked) (s s' : SourceScan) (w w' : World)
    → scan_walk walk s w ≡ (ok s', w')
    → scan_items walk s ≡ ok s'
unfolding scan_walk scan_items
scan_walk-scan_items [] s s' w w' h = (World.lift-eq-ok (ok s) w h).0
scan_walk-scan_items (x ∷ walk) s s' w w' h =
    let (_, _, h1) =
      World.>>=-eq-ok check (λ _. World.◌>>=◌ (lift (scan_walked x s)) λ t. scan_walk walk t) w h in
    let (t, step, h2) =
      World.>>=-eq-ok (lift (scan_walked x s)) (λ t. scan_walk walk t) (check w).1 h1 in
    rw (World.lift-eq-ok (scan_walked x s) (check w).1 step).0
      (scan_walk-scan_items walk t s' (lift (scan_walked x s) (check w).1).1 w' h2)

-- When `scan_source` succeeds on a walk that visits each path once, `validate_index` accepts the entries
-- under the header that `pack` makes of them, one that states their count and the size of the data; and
-- the index it returns holds exactly these entries, in their order.
pub validate_index-scan_source :
    (walk : List Walked) (w w' : World) (s : SourceScan) (header : Header)
    → AreNew walk []
    → scan_source walk w ≡ (ok s, w')
    → header.entry_count ≡ length s.entries
    → header.data_size ≡ s.data_offset
    → (index : ValidatedIndex) × (validate_index header (record { entries = s.entries }) ≡ ok index)
      × (values index.entries ≡ s.entries)
unfolding scan_source validate_index
validate_index-scan_source walk w w' s header new h count size =
    let (seen, i) = scan_walk-IsIndexed walk [] first_scan s w w' first_scan-IsIndexed new h in
    let v = i.checked in
    let many : (not (length s.entries == header.entry_count) || ltb max_entries (length s.entries))
        ≡ false =
      ground (arith, i.few) in
    let order : sort_by_key (λ (x : Extent). x.offset) v.files ≡ v.files =
      sort_by_key_of_IsSorted offset_of v.files i.sorted in
    let total : (s.data_offset == header.data_size) ≡ true = (==_iff _ _).1 (sym size) in
    let parents : check_parents v.entries (values v.entries) [] ≡ ok i.names =
      rw i.tree.filed i.tree.parents in
    let index : ValidatedIndex = record { entries = v.entries; children = v.children } in
    (
      index,
      rw (many, i.scanned) (rw (i.tree.root, parents, order, i.layout) (rw total refl)),
      i.tree.filed,
    )
