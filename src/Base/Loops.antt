-- ===== src/Base/Loops.antt =====
-- What the loops that number a slice leave: an item for each value that is there, with its index.
use mathlib.Core.Option.{some-injective}
use mathlib.Core.List.Memᴰ
use chia_opera.Base.Core.{
  ℕ, zero, suc, ◌+◌, subst, sym, ap, Option, none, some, List, [], ◌∷◌, ◌++◌, map, ◌≡◌, ◌↔◌, ◌⊎◌,
  inl, inr, arith,
}
use chia_opera.Base.Lists.{Memᴰ, head, tail, numbered}

module _ {ℓ} {A : Type ℓ} where
  -- xs[i], with an index out of range told apart
  unfoldable pub get_elem? : List A → ℕ → Option A
  get_elem? [] i = none
  get_elem? (x ∷ xs) zero = some x
  get_elem? (x ∷ xs) (suc i) = get_elem? xs i

module _ {ℓ} {A : Type ℓ} where
  -- The loop sees every value that is there, with its index …
  Memᴰ-numbered :
      (k : ℕ) (xs : List (Option A)) (i : ℕ) (x : A)
      → get_elem? xs i ≡ some (some x)
      → Memᴰ (k + i, x) (numbered k xs)
  unfolding numbered get_elem?
  Memᴰ-numbered k [] i x h = cc
  Memᴰ-numbered k (none ∷ xs) zero x h = cc
  Memᴰ-numbered k (some y ∷ xs) zero x h =
      let e : k + 0 ≡ k = omega arith in head (cc (e, some-injective _ _ (some-injective _ _ h)))
  Memᴰ-numbered k (none ∷ xs) (suc i) x h =
      subst (λ n. Memᴰ (n, x) (numbered (suc k) xs)) (omega arith) (Memᴰ-numbered (suc k) xs i x h)
  Memᴰ-numbered k (some y ∷ xs) (suc i) x h = tail (
      subst (λ n. Memᴰ (n, x) (numbered (suc k) xs)) (omega arith) (Memᴰ-numbered (suc k) xs i x h))

  -- … and nothing else.
  get_elem?-of_numbered :
      (k : ℕ) (xs : List (Option A)) (p : ℕ × A)
      → Memᴰ p (numbered k xs)
      → (i : ℕ) × (p.0 ≡ k + i) × (get_elem? xs i ≡ some (some p.1))
  unfolding numbered get_elem?
  get_elem?-of_numbered k [] p m = absurd (Memᴰ.not-nil m)
  get_elem?-of_numbered k (none ∷ xs) p m =
      let (i, e, h) = get_elem?-of_numbered (suc k) xs p m in (suc i, omega (arith, e), h)
  get_elem?-of_numbered k (some y ∷ xs) p (head e) =
      let e0 : p.0 ≡ k = ap (λ (q : ℕ × A). q.0) e in
      (0, omega (arith, e0), ap (λ (q : ℕ × A). some (some q.1)) (sym e))
  get_elem?-of_numbered k (some y ∷ xs) p (tail m) =
      let (i, e, h) = get_elem?-of_numbered (suc k) xs p m in (suc i, omega (arith, e), h)

  at_zero :
      (xs : List (Option A)) (i : ℕ) (x : A)
      → get_elem? xs i ≡ some (some x)
      → Memᴰ (i, x) (numbered 0 xs)
  at_zero xs i x h =
      subst (λ n. Memᴰ (n, x) (numbered 0 xs)) (omega arith) (Memᴰ-numbered 0 xs i x h)

  of_zero :
      (xs : List (Option A)) (p : ℕ × A)
      → Memᴰ p (numbered 0 xs)
      → get_elem? xs p.0 ≡ some (some p.1)
  of_zero xs p m =
      let (i, e, h) = get_elem?-of_numbered 0 xs p m in
      subst (λ n. get_elem? xs n ≡ some (some p.1)) (omega (arith, e)) h

module _ {ℓ κ} {A : Type ℓ} {B : Type κ} (f : ℕ × A → B) where
  -- What the loop appends to a slice, an item for each value that is there.
  pub Memᴰ-map-numbered :
      (xs : List (Option A)) (v : B)
      → Memᴰ v (map f (numbered 0 xs))
        ↔ ((i : ℕ) × (x : A) × (get_elem? xs i ≡ some (some x)) × (v ≡ f (i, x)))
  Memᴰ-map-numbered xs v = (
    λ m.
        let ((i, x), listed, e) = Memᴰ.of_map f (numbered 0 xs) m in
        (i, x, of_zero xs (i, x) listed, sym e),
    λ r.
        let (i, x, h, e) = r in
        subst (λ w. Memᴰ w (map f (numbered 0 xs))) (sym e) (Memᴰ.map f (at_zero xs i x h)),
  )

module _ {ℓ} {A : Type ℓ} where
  pub Memᴰ-append : (v : A) (xs ys : List A) → Memᴰ v (xs ++ ys) ↔ (Memᴰ v xs ⊎ Memᴰ v ys)
  Memᴰ-append v xs ys = (
    Memᴰ.append_cases xs,
    λ m. elim m [ inl a ↦ Memᴰ.append_left ys a | inr b ↦ Memᴰ.append_right xs b ],
  )
