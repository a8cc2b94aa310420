-- ===== src/Base/Panics.antt =====
-- What an expression of the program does: it has a value, or it panics.
use chia_opera.Base.Core.{◌≡◌, refl}

-- The panics that the code can meet: a nil pointer is read, `resource.MustParse` has no quantity,
-- `utilruntime.Must` has an error.
pub data Panic : Type 0 where
  nil_dereference bad_quantity must_failed : Panic

pub data Eval {ℓ} (A : Type ℓ) : Type ℓ where
  value : A → Eval A
  panic : Panic → Eval A

abbrev pub bind_eval {ℓ κ} : {A : Type ℓ} {B : Type κ} → Eval A → (A → Eval B) → Eval B
bind_eval (value a) f = f a
bind_eval (panic p) f = panic p

-- What has a value has it because its parts have.
pub bind_eval-eq-value {ℓ κ} :
    {A : Type ℓ} {B : Type κ} (m : Eval A) (f : A → Eval B) {b : B}
    → bind_eval m f ≡ value b
    → (a : A) × (m ≡ value a) × (f a ≡ value b)
bind_eval-eq-value (value a) f h = (a, refl, h)
bind_eval-eq-value (panic p) f h = cc

pub bind_eval_of {ℓ κ} :
    {A : Type ℓ} {B : Type κ} {m : Eval A} (f : A → B) (a : A)
    → m ≡ value a
    → bind_eval m (λ x. value (f x)) ≡ value (f a)
bind_eval_of f a e = rw e

module _ {ℓ κ} {A : Type ℓ} (P : A → Type κ) where
  -- What has a value has one that meets the predicate.
  abbrev pub OnValue : Eval A → Type κ
  OnValue (value a) = P a
  OnValue (panic p) = Unit

  pub assembled-OnValue {μ} :
      {B : Type μ} (f : B → A) (m : Eval B)
      → ((b : B) → m ≡ value b → P (f b))
      → OnValue (bind_eval m (λ b. value (f b)))
  assembled-OnValue f (value b) h = h b refl
  assembled-OnValue f (panic p) h = tt
