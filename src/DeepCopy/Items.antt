-- ===== src/DeepCopy/Items.antt =====
-- The items of a slice and the entries of a map.
use chia_opera.Base.{
  ℕ, ◌≤◌, ◌≡◌, refl, sym, ap, ◌∙◌, subst, none, List, [], ◌∷◌, ◌++◌, arith, String, StringMap,
  lookup, insert, HasNodupKeys, ◌==◌, Bool-cases, inl, inr, false, eq_iff,
}
use mathlib.Core.List.{append-nil}
use chia_opera.Kube.{Kube}
use chia_opera.Common.{add_all}
use chia_opera.DeepCopy.Memory.{Store, Agree}
use chia_opera.DeepCopy.Shapes.{Shape}
use chia_opera.DeepCopy.Refs.{copy_items, copy_entries}

module _ (K : Kube) {M V : Type 0} (S : Shape K M V) where
  abbrev pub Items : ℕ → ℕ → Store K → List M → List V → Type 0
  Items lo hi s [] [] = Unit
  Items lo hi s (m ∷ ms) (v ∷ vs) = S.Denotes lo hi s m v × Items lo hi s ms vs
  Items lo hi s _ _ = ⊥

  pub Items-framed :
      (lo hi : ℕ) (s t : Store K) (ms : List M) (vs : List V)
      → Agree K lo hi s t
      → Items lo hi s ms vs
      → Items lo hi t ms vs
  Items-framed lo hi s t [] [] agree d = tt
  Items-framed lo hi s t (m ∷ ms) (v ∷ vs) agree d =
      (S.framed lo hi s t m v agree d.0, Items-framed lo hi s t ms vs agree d.1)
  Items-framed lo hi s t [] (v ∷ vs) agree d = absurd d
  Items-framed lo hi s t (m ∷ ms) [] agree d = absurd d

  pub Items-widened :
      (lo hi lo' hi' : ℕ) (s : Store K) (ms : List M) (vs : List V)
      → lo' ≤ lo
      → hi ≤ hi'
      → Items lo hi s ms vs
      → Items lo' hi' s ms vs
  Items-widened lo hi lo' hi' s [] [] l h d = tt
  Items-widened lo hi lo' hi' s (m ∷ ms) (v ∷ vs) l h d =
      (S.widened lo hi lo' hi' s m v l h d.0, Items-widened lo hi lo' hi' s ms vs l h d.1)
  Items-widened lo hi lo' hi' s [] (v ∷ vs) l h d = absurd d
  Items-widened lo hi lo' hi' s (m ∷ ms) [] l h d = absurd d

  pub Items-copies :
      (lo : ℕ) (s : Store K) (ms : List M) (vs : List V)
      → Items lo s.free s ms vs
      → let r = copy_items K S.copy ms s in
        (s.free ≤ r.1.free) × Agree K 0 s.free s r.1 × Items s.free r.1.free r.1 r.0 vs
  Items-copies lo s [] [] d = (omega arith, (λ c q l h. refl), tt)
  Items-copies lo s [] (v ∷ vs) d = absurd d
  Items-copies lo s (m ∷ ms) [] d = absurd d
  Items-copies lo s (m ∷ ms) (v ∷ vs) (d, e) =
      let (x, t) = S.copy m s in
      let (le, agree, dx) = S.copies lo s m v d in
      let e' =
        Items-widened lo s.free 0 t.free t ms vs (omega arith) le
          (Items-framed lo s.free s t ms vs (λ c q l h. agree c q (omega arith) h) e) in
      let (ys, u) = copy_items K S.copy ms t in
      let (le', agree', dy) = Items-copies 0 t ms vs e' in
      (
        omega (arith, le, le'),
        (λ c q l h. agree c q l h ∙ agree' c q l (omega (arith, h, le))),
        (
          S.widened s.free t.free s.free u.free u x v (omega arith) le'
              (S.framed s.free t.free t u x v (λ c q l h. agree' c q (omega arith) h) dx),
          Items-widened t.free u.free s.free u.free u ys vs le (omega arith) dy,
        ),
      )

  abbrev pub items : Shape K (List M) (List V)
  items = record {
    Denotes = Items;
    copy = copy_items K S.copy;
    framed = Items-framed;
    widened = Items-widened;
    copies = Items-copies;
  }

-- A loop over the entries of a map writes each key once, behind those before it.
insert-new :
    (k v : String) (m : StringMap) → lookup k m ≡ none → insert k v m ≡ (m ++ ((k, v) ∷ []))
unfolding lookup insert
insert-new k v [] h = refl
insert-new k v ((first, old) ∷ m) h = elim (Bool-cases (first == k)) [
  | inl e ↦ cc (rw e at h)
  | inr e ↦ rw e (ap (λ r. (first, old) ∷ r) (insert-new k v m (rw e at h)))
]

append-one :
    {A : Type 0} (xs : List A) (y : A) (ys : List A) → ((xs ++ (y ∷ [])) ++ ys) ≡ (xs ++ (y ∷ ys))
append-one [] y ys = refl
append-one (x ∷ xs) y ys = ap (λ r. x ∷ r) (append-one xs y ys)

missing :
    (j k v : String) (a m : StringMap) → lookup j (a ++ ((k, v) ∷ m)) ≡ none → (k == j) ≡ false
unfolding lookup
missing j k v [] m h = ground (arith, h)
missing j k v ((first, old) ∷ a) m h = elim (Bool-cases (first == j)) [
  | inl e ↦ cc (rw e at h)
  | inr e ↦ missing j k v a m (rw e at h)
]

fresh : (k v : String) (a m : StringMap) → HasNodupKeys (a ++ ((k, v) ∷ m)) → lookup k a ≡ none
unfolding lookup
fresh k v [] m h = refl
fresh k v ((first, old) ∷ a) m h =
    let apart = missing first k v a m h.0 in
    let behind = fresh k v a m h.1 in ground (arith, apart, behind, eq_iff first k, eq_iff k first)

pub add_all-append : (a m : StringMap) → HasNodupKeys (a ++ m) → add_all a m ≡ (a ++ m)
unfolding add_all
add_all-append a [] h = sym (append-nil a)
add_all-append a ((k, v) ∷ m) h =
    let one = append-one a (k, v) m in
    ap (λ b. add_all b m) (insert-new k v a (fresh k v a m h))
    ∙ (add_all-append (a ++ ((k, v) ∷ [])) m (subst HasNodupKeys (sym one) h) ∙ one)

-- The entries of a map, each key once.
abbrev pub entries : (K : Kube) → Shape K StringMap StringMap
entries K = record {
  Denotes = λ lo hi s m v. (m ≡ v) × HasNodupKeys v;
  copy = copy_entries K;
  framed = λ lo hi s t m v agree d. d;
  widened = λ lo hi lo' hi' s m v l h d. d;
  copies = λ lo s m v d. (
    omega arith,
    (λ c q l h. refl),
    (add_all-append [] m (subst HasNodupKeys (sym d.0) d.1) ∙ d.0, d.1),
  );
}
