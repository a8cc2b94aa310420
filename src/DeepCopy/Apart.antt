-- ===== src/DeepCopy/Apart.antt =====
-- A copy and its original, and what later writes to the one do to the other.
use mathlib.Core.Option.{some-injective}
use chia_opera.Base.{
  ℕ, ◌≤◌, ◌<◌, ◌≡◌, ◌≢◌, refl, sym, ap, ◌∙◌, subst, Option, some, arith, ◌⊎◌, inl, inr,
}
use chia_opera.Kube.{Kube}
use chia_opera.Manager.{RegisteredType}
use chia_opera.DeepCopy.{CellType, Content}
use chia_opera.DeepCopy.Memory.{Store, write, write-other, Agree}
use chia_opera.DeepCopy.Refs.{Points-copies, Points-framed, Points-widened, copy_ref}
use chia_opera.DeepCopy.Library.{CopyLibrary, IsFaithful}
use chia_opera.DeepCopy.Objects.{
  Value, cell_of, deep_copy_object, shape_of, Stands, deep_copy_object-eq,
}

module _ (K : Kube) where
  -- Writes to some of the cells, and no others.
  pub data WritesTo (Cells : CellType → ℕ → Type 0) : Store K → Store K → Type 0 where
    done : {s : Store K} → WritesTo Cells s s
    writes :
        {s t : Store K} (c : CellType) (q : ℕ) (y : Content K c)
        → Cells c q
        → WritesTo Cells (write K c q y s) t
        → WritesTo Cells s t

  -- Writes to cells from one number to another.
  abbrev pub Writes : ℕ → ℕ → Store K → Store K → Type 0
  Writes lo hi = WritesTo (λ c q. (lo ≤ q) × (q < hi))

  Agree-outside :
      {Cells : CellType → ℕ → Type 0} (a b : ℕ) {s t : Store K}
      → ((c : CellType) (q : ℕ) → Cells c q → (q < a) ⊎ (b ≤ q))
      → WritesTo Cells s t
      → Agree K a b s t
  Agree-outside a b outside done d i l h = refl
  Agree-outside a b outside (writes {s = s} c q y at_cell rest) d i l h =
      let apart : q ≢ i = λ e. elim (outside c q at_cell) [
        | inl lt ↦ omega (arith, e, l, lt)
        | inr le ↦ omega (arith, e, h, le)
      ] in
      sym (write-other K c d q i y s apart) ∙ Agree-outside a b outside rest d i l h

-- The object at `q` stands for `v` not least by the content of the cell: there is something that,
-- written to it, makes the object stand for `v` no more.
abbrev pub DependsOn :
    {K : Kube} {L : CopyLibrary K} (F : IsFaithful L) (x : RegisteredType)
    → ℕ
    → Value K x
    → Store K
    → CellType
    → ℕ
    → Type 0
DependsOn {K} F x q v t c i = (y : Content K c) × ¬ Stands F x 0 t.free (write K c i y t) q v

module _ {K : Kube} {L : CopyLibrary K} (F : IsFaithful L) (x : RegisteredType) (p : ℕ)
    (v : Value K x) (s t : Store K) where
  -- For each of the ten registered types: DeepCopyObject of an object in memory, which stands for a
  -- value with all that it points to, gives the address of an object of the type that stands for the
  -- same value by cells that were all free before; and the original still stands for it as before.
  pub deep_copy_object-Stands :
      (o : Option (CellType × ℕ))
      → Stands F x 0 s.free s p v
      → deep_copy_object L x (some p) s ≡ (o, t)
      → (q : ℕ) × (o ≡ some (cell_of x, q))
        × Stands F x s.free t.free t q v
        × Stands F x 0 s.free t p v
  deep_copy_object-Stands o stands e =
      let r = copy_ref K (cell_of x) (shape_of F x).copy (some p) s in
      let (le, agree, copied) =
        Points-copies K (cell_of x) (shape_of F x) 0 s (some p) (some v) stands in
      let ends = sym (deep_copy_object-eq F x p s) ∙ e in
      let last : r.1 ≡ t = ap (λ (r : Option (CellType × ℕ) × Store K). r.1) ends in
      (
        s.free,
        sym (ap (λ (r : Option (CellType × ℕ) × Store K). r.0) ends),
        subst (λ u. Stands F x s.free u.free u s.free v) last copied,
        subst (λ u. Stands F x 0 s.free u p v) last
            (Points-framed K (cell_of x) (shape_of F x) 0 s.free s r.1 (some p) (some v) agree
              stands),
      )

  -- Whatever is then written to the cells that were in use before the copy, the original's among them,
  -- the copy stands for the value.
  pub copy-stays :
      (q : ℕ) (c : CellType) (u : Store K)
      → Stands F x 0 s.free s p v
      → deep_copy_object L x (some p) s ≡ (some (c, q), t)
      → Writes K 0 s.free t u
      → Stands F x s.free t.free u q v
  copy-stays q c u stands e later =
      let (q', same, copied, _) = deep_copy_object-Stands (some (c, q)) stands e in
      let addresses : q' ≡ q = sym (ap (λ (r : CellType × ℕ). r.1) (some-injective _ _ same)) in
      subst (λ q. Stands F x s.free t.free u q v) addresses
        (Points-framed K (cell_of x) (shape_of F x) s.free t.free t u (some q') (some v)
          (Agree-outside K s.free t.free (λ d i h. inl h.1) later) copied)

  -- What the copy depends on was free before.
  copy-fresh :
      (q : ℕ) (c : CellType)
      → Stands F x 0 s.free s p v
      → deep_copy_object L x (some p) s ≡ (some (c, q), t)
      → (d : CellType) (i : ℕ) → DependsOn F x q v t d i
      → s.free ≤ i
  copy-fresh q c stands e d i (y, falls) =
      let not_old : ¬ (i < s.free) = λ lt. falls (
        Points-widened K (cell_of x) (shape_of F x) s.free t.free 0 t.free (write K d i y t)
          (some q) (some v) (omega arith) (omega arith)
          (copy-stays q c (write K d i y t) stands e (writes d i y (omega arith, lt) done))) in
      omega (arith, not_old)

  -- Whatever is then written, in any order, to cells that the copy depends on (those of which some
  -- content would make it stand for the value no more) and to cells that were free before the copy, the
  -- original stands for its value as before.
  pub original-stays :
      (q : ℕ) (c : CellType) (u : Store K)
      → Stands F x 0 s.free s p v
      → deep_copy_object L x (some p) s ≡ (some (c, q), t)
      → WritesTo K (λ d i. DependsOn F x q v t d i ⊎ (s.free ≤ i)) t u
      → Stands F x 0 s.free u p v
  original-stays q c u stands e later =
      let (_, _, _, kept) = deep_copy_object-Stands (some (c, q)) stands e in
      Points-framed K (cell_of x) (shape_of F x) 0 s.free t u (some p) (some v)
        (Agree-outside K 0 s.free
          (λ d i h. inr (elim h [ inl part ↦ copy-fresh q c stands e d i part | inr le ↦ le ]))
          later)
        kept
