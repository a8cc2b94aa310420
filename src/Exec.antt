-- ===== src/Exec.antt =====
-- Statements of a `Reconcile` method: they go on with a value, return from the method, or panic, and
-- leave the state of the cluster that their calls have reached.
use chia_opera.Base.{Eval, value, panic, Panic}

-- `R` is what the method returns.
pub data Signal (R A : Type 0) : Type 0 where
  next : A → Signal R A
  returns : R → Signal R A
  panics : Panic → Signal R A

abbrev pub Exec : Type 0 → Type 0 → Type 0 → Type 0
Exec S R A = S → Signal R A × S

-- How a call of the method ends.
pub data Outcome (R : Type 0) : Type 0 where
  returned : R → Outcome R
  panicked : Panic → Outcome R

module _ {S R A B : Type 0} where
  abbrev pub continue : Signal R A → (A → Exec S R B) → Exec S R B
  continue (next a) f s = f a s
  continue (returns r) f s = (returns r, s)
  continue (panics p) f s = (panics p, s)

  infixl 10 ◌>>=◌
  abbrev pub ◌>>=◌ : Exec S R A → (A → Exec S R B) → Exec S R B
  ◌>>=◌ m f s = continue (m s).0 f (m s).1

module _ {S R B : Type 0} where
  infixl 10 ◌>>◌
  abbrev pub ◌>>◌ : Exec S R Unit → Exec S R B → Exec S R B
  m >> k = m >>= λ _. k

module _ {S R A : Type 0} where
  abbrev pub pure : A → Exec S R A
  pure a s = (next a, s)

  abbrev pub eval : Eval A → Exec S R A
  eval (value a) s = (next a, s)
  eval (panic p) s = (panics p, s)

abbrev pub outcome : {R : Type 0} → Signal R R → Outcome R
outcome (next r) = returned r
outcome (returns r) = returned r
outcome (panics p) = panicked p

-- The body of a method, whose last statement is its value.
abbrev pub run : {S R : Type 0} → Exec S R R → S → Outcome R × S
run m s = (outcome (m s).0, (m s).1)
