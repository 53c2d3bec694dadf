-- ===== src/Pack/Scan/Accepted.antt =====
-- The index that `scan_source` makes passes `validate_index`.
use cipher_fs.Base.Paths.{PathBuf, path_discrete}
use cipher_fs.V2.Index.Scanning.{extent_of}
use cipher_fs.V2.Names.{validate_name}
use cipher_fs.Base.Sort.{IsSorted-append, IsSorted}
use cipher_fs.Errors.{ok}
use cipher_fs.V2.Index.Accepting.{
  check_layout-append, after_file, scan_entries-append, check_entry_file, after_directory,
  check_entry_directory, IsNew,
}
use cipher_fs.Base.Words.{bytes_eq, Bytes}
use cipher_fs.Base.Map.{Map}
use cipher_fs.Pack.Scan.Steps.{numbered, FileStep, depth_of, IsPlaced}
use cipher_fs.Pack.Scan.{
  root_entry, first_scan, full_path, with_file, new_file, new_directory, push_directory, Item,
  SourceScan,
}
use cipher_fs.Pack.Scan.Growing.{IsTree-open, IsTree-grow, IsTree, Place}
use cipher_fs.V2.Index.{
  has_file_data, or_default, push_at, check_parent, check_parents, start, check_layout, file_entry,
  check_kind, Scan, check_place, check_entry, scan_entries, Extent,
}
use cipher_fs.Base.{
  some-inj, some, All-snoc, ◌∙◌, length-append, ℕ_discrete, ap, ◌++◌, ◌+◌, [], length, arith, false,
  ◌==◌, Member, ◌∷◌, All, any, ◌≤◌, ℕ, List, refl, sym, ◌≡◌,
}
use cipher_fs.V2.Types.{max_entries, Entry}
use mathlib.Core.Path.{subst}
use cipher_fs.Base.Map

abbrev pub offset_of : Extent → ℕ
offset_of x = x.offset

-- The variables of the loop, with what `validate_index` makes of the entries so far.
pub record IsIndexed (seen : List Place) (s : SourceScan) : Type 0 where
  pub checked : Scan
  pub names : Map ℕ (List Bytes)
  pub tree : IsTree seen s.entries s.path_ids s.next_id checked.entries names
  pub scanned : scan_entries s.entries start ≡ ok checked
  pub unused : (k : ℕ) → s.next_id ≤ k → any (λ i. i == k) checked.ids ≡ false
  pub same_ids : checked.file_ids ≡ s.file_ids
  pub layout : check_layout checked.files 0 ≡ ok s.data_offset
  pub sorted : IsSorted offset_of checked.files
  pub below_end : All (λ (x : Extent). x.offset ≤ s.data_offset) checked.files
  pub few : length s.entries ≤ max_entries

unused_after :
    (ids : List ℕ) (next k : ℕ)
    → ((j : ℕ) → next ≤ j → any (λ i. i == j) ids ≡ false)
    → next + 1 ≤ k
    → any (λ i. i == k) (next ∷ ids) ≡ false
unused_after ids next k h lt =
    let test : (next == k) ≡ false = ground arith in rw test (h k (omega arith))

below_trans :
    (xs : List Extent) (m n : ℕ)
    → m ≤ n
    → All (λ (x : Extent). x.offset ≤ m) xs
    → All (λ (x : Extent). x.offset ≤ n) xs
below_trans [] m n h t = tt
below_trans (x ∷ xs) m n h t = (omega arith, below_trans xs m n h t.1)

no_data :
    (item : Item) (id parent_id : ℕ)
    → has_file_data (new_directory id parent_id (depth_of item) item) ≡ false
unfolding bytes_eq
no_data item id parent_id = refl

module _ (seen : List Place) (item : Item) (s : SourceScan) (i : IsIndexed seen s) (parent_id : ℕ)
    (placed : IsPlaced item parent_id s) (unseen : ¬ Member (item.parent, item.name) seen) where
  depth_lem : depth_of item ≡ length item.parent + 1
  depth_lem =
      let (_, _, _, _, bound, _) = i.tree.paths item.parent parent_id placed.found in omega arith

  IsNew-entry :
      (e : Entry)
      → e.id ≡ s.next_id
      → e.depth ≡ depth_of item
      → e.name ≡ item.name
      → IsNew e i.checked
  IsNew-entry e p q r = record {
    nonzero = λ z. absurd (omega (arith, i.tree.after_root));
    below_root = λ z. absurd (omega (arith, i.tree.after_root));
    unused = i.unused e.id (omega arith);
    shallow = omega (arith, placed.shallow);
    named = ap validate_name r ∙ placed.named;
  }

  few_after : (e : Entry) → length (s.entries ++ (e ∷ [])) ≤ max_entries
  few_after e = omega (arith, placed.room, length-append s.entries (e ∷ []))

  abbrev pub entry_of_directory : Entry
  entry_of_directory = new_directory s.next_id parent_id (depth_of item) item

  directory-IsTree :
      IsTree
        ((item.parent, item.name) ∷ seen)
        (s.entries ++ (entry_of_directory ∷ []))
        (Map.insert path_discrete (full_path item) s.next_id s.path_ids)
        (s.next_id + 1)
        (Map.insert ℕ_discrete s.next_id entry_of_directory i.checked.entries)
        (push_at parent_id item.name i.names)
  directory-IsTree =
      let (_, _, _, _, _, below) = i.tree.paths item.parent parent_id placed.found in
      let grown =
        IsTree-grow seen s.entries s.path_ids s.next_id i.checked.entries i.names i.tree
          entry_of_directory item.parent placed.found refl depth_lem placed.shallow unseen in
      IsTree-open _ _ s.path_ids (s.next_id + 1) _ _ grown entry_of_directory (full_path item)
        (Map.get-insert_self ℕ_discrete s.next_id entry_of_directory i.checked.entries) refl
        (omega (arith, depth_lem, length-append item.parent (item.name ∷ []))) placed.shallow
        (omega arith)
        (Map.get-insert_ne ℕ_discrete parent_id s.next_id
            (or_default (Map.get ℕ_discrete parent_id i.names) ++ (item.name ∷ [])) i.names
            (λ p. absurd (omega arith))
          ∙ i.tree.unlisted s.next_id (omega arith))
        (λ p is. let (_, _, _, _, _, lt) = i.tree.paths p s.next_id is in absurd (omega arith))

  pub IsIndexed-directory :
      IsIndexed
        ((item.parent, item.name) ∷ seen)
        (push_directory s.next_id parent_id (depth_of item) item (numbered s))
  unfolding push_directory file_entry
  IsIndexed-directory =
      let new = IsNew-entry entry_of_directory refl refl refl in
      let round =
        check_entry_directory entry_of_directory i.checked new refl
          (no_data item s.next_id parent_id) in
      record {
        checked = after_directory entry_of_directory i.checked;
        names = push_at parent_id item.name i.names;
        tree = directory-IsTree;
        scanned =
            scan_entries-append s.entries entry_of_directory start i.checked
              (after_directory entry_of_directory i.checked) i.scanned round;
        unused = λ k h. unused_after i.checked.ids s.next_id k i.unused h;
        same_ids = i.same_ids;
        layout = i.layout;
        sorted = i.sorted;
        below_end = i.below_end;
        few = few_after entry_of_directory;
      }

  module _ {s' : SourceScan} (f : FileStep item parent_id s s') where
    abbrev entry_of_file : Entry
    entry_of_file =
        new_file s.next_id parent_id (depth_of item) item f.size f.file_id s.data_offset
          f.encrypted_size f.chunk_count

    file-IsTree :
        IsTree
          ((item.parent, item.name) ∷ seen)
          (s.entries ++ (entry_of_file ∷ []))
          s.path_ids
          (s.next_id + 1)
          (Map.insert ℕ_discrete s.next_id entry_of_file i.checked.entries)
          (push_at parent_id item.name i.names)
    file-IsTree =
        IsTree-grow seen s.entries s.path_ids s.next_id i.checked.entries i.names i.tree
          entry_of_file item.parent placed.found refl depth_lem placed.shallow unseen

    with_file-IsIndexed :
        IsIndexed
          ((item.parent, item.name) ∷ seen)
          (with_file entry_of_file f.snapshot (numbered s))
    unfolding file_entry
    with_file-IsIndexed =
        let new = IsNew-entry entry_of_file refl refl refl in
        let unseen_id : any (bytes_eq f.file_id) i.checked.file_ids ≡ false =
          rw (i.same_ids) f.not_seen in
        let round =
          check_entry_file entry_of_file i.checked new refl f.not_zero unseen_id f.sizes in
        let x = extent_of entry_of_file in
        record {
          checked = after_file entry_of_file i.checked;
          names = push_at parent_id item.name i.names;
          tree = file-IsTree;
          scanned =
              scan_entries-append s.entries entry_of_file start i.checked
                (after_file entry_of_file i.checked) i.scanned round;
          unused = λ k h. unused_after i.checked.ids s.next_id k i.unused h;
          same_ids = ap (◌∷◌ f.file_id) i.same_ids;
          layout = check_layout-append i.checked.files x 0 s.data_offset i.layout refl f.fits;
          sorted = IsSorted-append offset_of i.checked.files x i.sorted i.below_end;
          below_end =
              All-snoc (λ (y : Extent). y.offset ≤ s.data_offset + f.encrypted_size) i.checked.files
                x (below_trans i.checked.files s.data_offset _ (omega arith) i.below_end)
                (omega arith);
          few = few_after entry_of_file;
        }

    pub IsIndexed-file : IsIndexed ((item.parent, item.name) ∷ seen) s'
    IsIndexed-file =
        subst (IsIndexed ((item.parent, item.name) ∷ seen)) (sym f.next) with_file-IsIndexed

-- Only the source directory itself has an id at first.
first_path :
    (p : PathBuf) (d : ℕ)
    → Map.get path_discrete p first_scan.path_ids ≡ some d
    → (p ≡ []) × (d ≡ 1)
unfolding Map.get path_discrete
first_path [] d h = (refl, sym (some-inj h))
first_path (x ∷ p) d h = cc

pub first_scan-IsIndexed : IsIndexed [] first_scan
unfolding scan_entries check_entry check_place check_kind file_entry check_layout check_parents
    check_parent Map.get Map.insert ℕ_discrete bytes_eq
first_scan-IsIndexed = record {
  checked = file_entry root_entry (record start { ids = 1 ∷ [] });
  names = [];
  tree = record {
    filed = refl;
    unfiled = λ k h. ground arith;
    root = refl;
    after_root = omega arith;
    parents = refl;
    paths = λ p d is.
        let (a, b) = first_path p d is in
        (root_entry, rw b refl, refl, rw a refl, rw a (omega arith), omega arith);
    unique = λ p q d is js. (first_path p d is).0 ∙ sym (first_path q d js).0;
    listed = λ p d n is h. cc;
    unlisted = λ k h. refl;
  };
  scanned = refl;
  unused = λ k h. ground arith;
  same_ids = refl;
  layout = refl;
  sorted = tt;
  below_end = tt;
  few = omega arith;
}
