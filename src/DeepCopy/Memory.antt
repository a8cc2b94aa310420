-- ===== src/DeepCopy/Memory.antt =====
-- The memory as typed cells at addresses, of which those from a number on are free.
use chia_opera.Base.{
  ℕ, suc, ◌≤◌, ◌<◌, ◌≡◌, ◌≢◌, refl, ap, ◌∙◌, subst, Bool, true, false, ◌&&◌, leb, arith,
}
use mathlib.Core.Path.{subst_refl}
use chia_opera.Kube.{Kube}
use chia_opera.DeepCopy.{CellType, Content}

pub CellType-discrete : Discrete CellType
CellType-discrete = hlevel

CellType-set : IsSet CellType
CellType-set = hlevel

-- A cell that was never written holds the zero value of its type.
pub record Store (K : Kube) : Type 0 where
  pub free : ℕ
  pub at : (c : CellType) → ℕ → Content K c

-- A command reads and writes the memory.
abbrev pub Cmd : Type 0 → Type 0 → Type 0
Cmd S A = S → A × S

module _ {S A B : Type 0} where
  infixl 10 ◌>>=◌
  abbrev pub ◌>>=◌ : Cmd S A → (A → Cmd S B) → Cmd S B
  ◌>>=◌ m f s = f (m s).0 (m s).1

module _ {S B : Type 0} where
  infixl 10 ◌>>◌
  abbrev pub ◌>>◌ : Cmd S Unit → Cmd S B → Cmd S B
  m >> k = m >>= λ _. k

abbrev pub pure : {S A : Type 0} → A → Cmd S A
pure a s = (a, s)

module _ (K : Kube) where
  -- The content, where the cell is of the type.
  recast : (c d : CellType) → Dec (c ≡ d) → Content K c → Content K d → Content K d
  recast c d (yes e) x old = subst (Content K) e x
  recast c d (no _) x old = old

  at_cell : (c d : CellType) → Content K c → Bool → Content K d → Content K d
  unfolding recast
  at_cell c d x true old = recast c d (CellType-discrete c d) x old
  at_cell c d x false old = old

  unfoldable pub write : (c : CellType) → ℕ → Content K c → Store K → Store K
  unfolding at_cell
  write c p x s = record s { at = λ d q. at_cell c d x (leb p q && leb q p) (s.at d q) }

  -- *p, new(T), *p = x
  abbrev pub load : (c : CellType) → ℕ → Cmd (Store K) (Content K c)
  load c p s = (s.at c p, s)

  abbrev pub new : Cmd (Store K) ℕ
  new s = (s.free, record s { free = suc s.free })

  abbrev pub store : (c : CellType) → ℕ → Content K c → Cmd (Store K) Unit
  store c p x s = (tt, write c p x s)

  recast-same : (c : CellType) (d : Dec (c ≡ c)) (x old : Content K c) → recast c c d x old ≡ x
  unfolding recast
  recast-same c (yes e) x old =
      ap (λ (p : c ≡ c). subst (Content K) p x) (CellType-set c c e refl) ∙ subst_refl (Content K) x
  recast-same c (no f) x old = absurd (f refl)

  pub write-same :
      (c : CellType) (p : ℕ) (x : Content K c) (s : Store K) → (write c p x s).at c p ≡ x
  unfolding write at_cell
  write-same c p x s =
      let here : (leb p p && leb p p) ≡ true = ground arith in
      rw here (recast-same c (CellType-discrete c c) x (s.at c p))

  pub write-other :
      (c d : CellType) (p q : ℕ) (x : Content K c) (s : Store K)
      → p ≢ q
      → (write c p x s).at d q ≡ s.at d q
  unfolding write at_cell
  write-other c d p q x s ne =
      let elsewhere : (leb p q && leb q p) ≡ false = ground (arith, ne) in rw elsewhere

  pub write-free :
      (c : CellType) (p : ℕ) (x : Content K c) (s : Store K) → (write c p x s).free ≡ s.free
  unfolding write
  write-free c p x s = refl

  -- Two memories have the same at the addresses from one number to another.
  abbrev pub Agree : ℕ → ℕ → Store K → Store K → Type 0
  Agree lo hi s t = (c : CellType) (q : ℕ) → lo ≤ q → q < hi → s.at c q ≡ t.at c q
