-- ===== src/Extract/Paths.antt =====
-- The paths of an index's entries below the directory to which they are extracted.
use mathlib.Core.Path.{ap₂, subst}
use cipher_fs.V2.Index.{is_directory}
use cipher_fs.SafeFs.{join}
use cipher_fs.V2.Types.{Entry}
use cipher_fs.Base.Words.{Bytes}
use cipher_fs.Base.{refl, drop, ap, true, sym, ◌∷◌, ◌∙◌, some, [], ◌≢◌, ◌≡◌, ℕ_discrete, ℕ}
use cipher_fs.Base.Paths.{PathBuf}
use cipher_fs.Base.Map.{Map}
use cipher_fs.Base.Map

-- The path of an entry: the names on the way from the root of the index to the entry.
pub data PathOf (entries : Map ℕ Entry) : Entry → PathBuf → Type 0 where
  root_path : {e : Entry} {p : PathBuf} → e.id ≡ 1 → p ≡ [] → PathOf entries e p
  below_path :
      {e d : Entry} {p q : PathBuf}
      → e.id ≢ 1
      → Map.get ℕ_discrete e.parent_id entries ≡ some d
      → PathOf entries d q
      → p ≡ join q e.name
      → PathOf entries e p

-- What the validation of an index says of its entries' ids and names.
pub record IsNamed (entries : Map ℕ Entry) : Type 0 where
  pub filed : (k : ℕ) (e : Entry) → Map.get ℕ_discrete k entries ≡ some e → e.id ≡ k
  pub rooted : (root : Entry) × (Map.get ℕ_discrete 1 entries ≡ some root)
  pub root_directory :
      (k : ℕ) (e : Entry)
      → Map.get ℕ_discrete k entries ≡ some e
      → e.id ≡ 1
      → is_directory e.kind ≡ true
  pub names :
      (j k : ℕ) (e f : Entry)
      → Map.get ℕ_discrete j entries ≡ some e
      → Map.get ℕ_discrete k entries ≡ some f
      → j ≢ 1
      → k ≢ 1
      → j ≢ k
      → e.parent_id ≡ f.parent_id
      → e.name ≢ f.name

join_ne_nil : (p : PathBuf) (a : Bytes) → join p a ≢ []
join_ne_nil [] a = λ h. cc
join_ne_nil (x ∷ p) a = λ h. cc

pub join-inj : (p q : PathBuf) (a b : Bytes) → join p a ≡ join q b → (p ≡ q) × (a ≡ b)
join-inj [] [] a b h = (refl, cc)
join-inj [] (y ∷ q) a b h = absurd (join_ne_nil q b (sym (ap (drop 1) h)))
join-inj (x ∷ p) [] a b h = absurd (join_ne_nil p a (ap (drop 1) h))
join-inj (x ∷ p) (y ∷ q) a b h =
    let (tails, names) = join-inj p q a b (ap (drop 1) h) in
    let heads : x ≡ y = cc in (ap₂ (λ u us. u ∷ us) heads tails, names)

module _ (entries : Map ℕ Entry) (named : IsNamed entries) where
  -- Entries with one path have one id.
  pub PathOf-inj :
      (e f : Entry) (p : PathBuf)
      → Map.get ℕ_discrete e.id entries ≡ some e
      → Map.get ℕ_discrete f.id entries ≡ some f
      → PathOf entries e p
      → PathOf entries f p
      → e.id ≡ f.id
  PathOf-inj e f p he hf (root_path e1 pe) (root_path f1 pf) = e1 ∙ sym f1
  PathOf-inj e f p he hf (root_path e1 pe) (below_path {d = d} {q = q} n h t pf) =
      absurd (join_ne_nil q f.name (sym pf ∙ pe))
  PathOf-inj e f p he hf (below_path {d = d} {q = q} n h t pe) (root_path f1 pf) =
      absurd (join_ne_nil q e.name (sym pe ∙ pf))
  PathOf-inj e f p he hf (below_path {d = d} {q = q} n h t pe)
        (below_path {d = d'} {q = q'} n' h' t' pf) =
      let (above, same_name) = join-inj q q' e.name f.name (sym pe ∙ pf) in
      let id_d = named.filed e.parent_id d h in
      let id_d' = named.filed f.parent_id d' h' in
      let ids =
        PathOf-inj d d' q' (subst (λ k. Map.get ℕ_discrete k entries ≡ some d) (sym id_d) h)
          (subst (λ k. Map.get ℕ_discrete k entries ≡ some d') (sym id_d') h')
          (subst (PathOf entries d) above t) t' in
      elim (ℕ_discrete e.id f.id) [
        | yes same ↦ same
        | no ne ↦
            absurd (named.names e.id f.id e f he hf n n' ne (sym id_d ∙ ids ∙ id_d') same_name)
      ]

  -- A name that no entry has ends no entry's path.
  pub PathOf-apart :
      (e : Entry) (p q : PathBuf) (name : Bytes)
      → e.name ≢ name
      → PathOf entries e p
      → join q name ≢ p
  PathOf-apart e p q name ne (root_path e1 pe) = λ h. join_ne_nil q name (h ∙ pe)
  PathOf-apart e p q name ne (below_path {q = q'} n found t pe) =
      λ h. ne (sym (join-inj q q' name e.name (h ∙ pe)).1)
