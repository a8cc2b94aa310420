-- ===== src/Base/Lists.antt =====
-- Predicates on lists, by recursion, and the loops that number a slice.
use mathlib.Core.List.Memᴰ
use chia_opera.Base.Core.{
  ℕ, suc, ◌≤◌, subst, sym, Option, none, some, List, [], ◌∷◌, ◌++◌, map, ◌≡◌, ◌≢◌, refl, arith,
}
pub use mathlib.Core.List.{Memᴰ}
pub use Memᴰ.{head, tail}

module _ {ℓ κ} {A : Type ℓ} where
  abbrev pub All : (A → Type κ) → List A → Type κ
  All P [] = Unit
  All P (x ∷ xs) = P x × All P xs

-- No item is listed twice.
abbrev pub Distinct {ℓ} : {A : Type ℓ} → List A → Type ℓ
Distinct [] = Unit
Distinct (x ∷ xs) = All (λ y. x ≢ y) xs × Distinct xs

module _ {ℓ} {A : Type ℓ} where
  -- for i, vol := range xs { if vol != nil { … } }: the numbers and the values that the body sees,
  -- counted from a first number.
  unfoldable pub numbered : ℕ → List (Option A) → List (ℕ × A)
  numbered i [] = []
  numbered i (none ∷ xs) = numbered (suc i) xs
  numbered i (some x ∷ xs) = (i, x) ∷ numbered (suc i) xs

-- Lemmas on `All` take the predicate first.
module _ {ℓ κ μ} {A : Type ℓ} {P : A → Type κ} {Q : A → Type μ} where
  pub All-imp : ((x : A) → P x → Q x) → (xs : List A) → All P xs → All Q xs
  All-imp f [] h = tt
  All-imp f (x ∷ xs) h = (f x h.0, All-imp f xs h.1)

module _ {ℓ κ} {A : Type ℓ} (P : A → Type κ) where
  pub All-const : ((x : A) → P x) → (xs : List A) → All P xs
  All-const f [] = tt
  All-const f (x ∷ xs) = (f x, All-const f xs)

  pub All-append : (xs ys : List A) → All P xs → All P ys → All P (xs ++ ys)
  All-append [] ys hx hy = hy
  All-append (x ∷ xs) ys hx hy = (hx.0, All-append xs ys hx.1 hy)

module _ {ℓ κ μ} {A : Type ℓ} {B : Type κ} (P : B → Type μ) (f : A → B) where
  pub All-map : (xs : List A) → All (λ x. P (f x)) xs → All P (map f xs)
  All-map [] h = tt
  All-map (x ∷ xs) h = (h.0, All-map xs h.1)

  pub All-of_map : (xs : List A) → All P (map f xs) → All (λ x. P (f x)) xs
  All-of_map [] h = tt
  All-of_map (x ∷ xs) h = (h.0, All-of_map xs h.1)

module _ {ℓ} {A : Type ℓ} where
  pub Distinct-append :
      (xs ys : List A)
      → Distinct xs
      → Distinct ys
      → All (λ x. All (λ y. x ≢ y) ys) xs
      → Distinct (xs ++ ys)
  Distinct-append [] ys dx dy apart = dy
  Distinct-append (x ∷ xs) ys dx dy apart =
      (All-append (λ y. x ≢ y) xs ys dx.0 apart.0, Distinct-append xs ys dx.1 dy apart.1)

  pub All-Memᴰ : (xs : List A) → All (λ x. Memᴰ x xs) xs
  All-Memᴰ [] = tt
  All-Memᴰ (x ∷ xs) = (head refl, All-imp (λ y m. tail m) xs (All-Memᴰ xs))

  numbered-le : (i : ℕ) (xs : List (Option A)) → All (λ p. i ≤ p.0) (numbered i xs)
  unfolding numbered
  numbered-le i [] = tt
  numbered-le i (none ∷ xs) = All-imp (λ p h. omega arith) _ (numbered-le (suc i) xs)
  numbered-le i (some x ∷ xs) =
      (omega arith, All-imp (λ p h. omega arith) _ (numbered-le (suc i) xs))

-- A name that is made of the number is made once.
module _ {ℓ κ} {A : Type ℓ} {B : Type κ} (f : ℕ → B)
    (injective : (i j : ℕ) → f i ≡ f j → i ≡ j) where
  pub numbered-Distinct :
      (i : ℕ) (xs : List (Option A)) → Distinct (map (λ p. f p.0) (numbered i xs))
  unfolding numbered
  numbered-Distinct i [] = tt
  numbered-Distinct i (none ∷ xs) = numbered-Distinct (suc i) xs
  numbered-Distinct i (some x ∷ xs) = (
    All-map (λ y. f i ≢ y) (λ (p : ℕ × A). f p.0) _
        (All-imp (λ p h e. omega (arith, injective i p.0 e)) _ (numbered-le (suc i) xs)),
    numbered-Distinct (suc i) xs,
  )

module _ {ℓ κ} {A : Type ℓ} {B : Type κ} (f : A → B)
    (injective : (x y : A) → f x ≡ f y → x ≡ y) where
  pub Distinct-map : (xs : List A) → Distinct xs → Distinct (map f xs)
  Distinct-map [] d = tt
  Distinct-map (x ∷ xs) d = (
    All-map (λ y. f x ≢ y) f xs (All-imp (λ y ne e. ne (injective x y e)) xs d.0),
    Distinct-map xs d.1,
  )

module _ {ℓ κ μ} {A : Type ℓ} (P : A → Type κ) {Q : A → Type μ} where
  -- A step from one predicate to another may use that the item is listed.
  pub All-listed : (xs : List A) → All P xs → ((x : A) → Memᴰ x xs → P x → Q x) → All Q xs
  All-listed [] h f = tt
  All-listed (x ∷ xs) h f = (f x (head refl) h.0, All-listed xs h.1 (λ y m. f y (tail m)))

module _ {ℓ κ} {A : Type ℓ} (P : A → Type κ) where
  pub All-at : {x : A} {xs : List A} → All P xs → Memᴰ x xs → P x
  All-at {xs = []} h m = absurd (Memᴰ.not-nil m)
  All-at {xs = y ∷ ys} h (head e) = subst P (sym e) h.0
  All-at {xs = y ∷ ys} h (tail m) = All-at h.1 m
