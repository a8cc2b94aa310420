-- ===== src/DeepCopy/Refs.antt =====
-- Pointers, slices and maps: each non-nil one gets a new cell.
use chia_opera.Base.{
  ℕ, suc, ◌≤◌, ◌<◌, ◌≡◌, refl, sym, ◌∙◌, subst, Option, none, some, List, [], ◌∷◌, arith, StringMap,
}
use chia_opera.Kube.{Kube}
use chia_opera.Common.{add_all}
use chia_opera.DeepCopy.{Ref, CellType, Content}
use chia_opera.DeepCopy.Memory.{
  Store, Cmd, pure, ◌>>=◌, ◌>>◌, write, load, new, store, write-same, write-other, Agree,
}
use chia_opera.DeepCopy.Shapes.{Shape}

module _ (K : Kube) where
  -- if in.F != nil { *out = new(T) or make(T, len(*in)); copy **in into **out }
  abbrev pub copy_ref :
      (c : CellType) → (Content K c → Cmd (Store K) (Content K c)) → Ref → Cmd (Store K) Ref
  copy_ref c copy none = pure none
  copy_ref c copy (some p) = do q ← new K; x ← load K c p; y ← copy x; store K c q y; pure (some q)

  -- for i := range *in { copy (*in)[i] into (*out)[i] }
  abbrev pub copy_items : {M : Type 0} → (M → Cmd (Store K) M) → List M → Cmd (Store K) (List M)
  copy_items copy [] = pure []
  copy_items copy (x ∷ xs) = do y ← copy x; ys ← copy_items copy xs; pure (y ∷ ys)

  -- for key, val := range *in { (*out)[key] = val }
  abbrev pub copy_entries : StringMap → Cmd (Store K) StringMap
  copy_entries m = pure (add_all [] m)

  module _ (c : CellType) {V : Type 0} (S : Shape K (Content K c) V) where
    abbrev pub Points : ℕ → ℕ → Store K → Ref → Option V → Type 0
    Points lo hi s none none = Unit
    Points lo hi s (some p) (some v) = (lo ≤ p) × (p < hi) × S.Denotes lo hi s (s.at c p) v
    Points lo hi s _ _ = ⊥

    pub Points-framed :
        (lo hi : ℕ) (s t : Store K) (m : Ref) (v : Option V)
        → Agree K lo hi s t
        → Points lo hi s m v
        → Points lo hi t m v
    Points-framed lo hi s t none none agree d = tt
    Points-framed lo hi s t (some p) (some v) agree (l, h, d) = (
      l,
      h,
      subst (λ x. S.Denotes lo hi t x v) (agree c p l h) (S.framed lo hi s t (s.at c p) v agree d),
    )
    Points-framed lo hi s t none (some v) agree d = absurd d
    Points-framed lo hi s t (some p) none agree d = absurd d

    pub Points-widened :
        (lo hi lo' hi' : ℕ) (s : Store K) (m : Ref) (v : Option V)
        → lo' ≤ lo
        → hi ≤ hi'
        → Points lo hi s m v
        → Points lo' hi' s m v
    Points-widened lo hi lo' hi' s none none l h d = tt
    Points-widened lo hi lo' hi' s (some p) (some v) l h (l', h', d) =
        (omega (arith, l, l'), omega (arith, h, h'), S.widened lo hi lo' hi' s (s.at c p) v l h d)
    Points-widened lo hi lo' hi' s none (some v) l h d = absurd d
    Points-widened lo hi lo' hi' s (some p) none l h d = absurd d

    pub Points-copies :
        (lo : ℕ) (s : Store K) (m : Ref) (v : Option V)
        → Points lo s.free s m v
        → let r = copy_ref c S.copy m s in
          (s.free ≤ r.1.free) × Agree K 0 s.free s r.1 × Points s.free r.1.free r.1 r.0 v
    unfolding write
    Points-copies lo s none none d = (omega arith, (λ c q l h. refl), tt)
    Points-copies lo s none (some v) d = absurd d
    Points-copies lo s (some p) none d = absurd d
    Points-copies lo s (some p) (some v) (l, h, d) =
        let q = s.free in
        let t = record s { free = suc q } in
        let x = s.at c p in
        let here : S.Denotes lo (suc q) t x v =
          S.widened lo q lo (suc q) t x v (omega arith) (omega arith)
            (S.framed lo q s t x v (λ c q l h. refl) d) in
        let (le, agree, copied) = S.copies lo t x v here in
        let (y, u) = S.copy x t in
        let w = write K c q y u in
        let le' : suc q ≤ u.free = le in
        (
          omega (arith, le'),
          (λ d i l i_lt.
              agree d i l (omega (arith, i_lt))
              ∙ sym (write-other K c d q i y u (λ e. omega (arith, e, i_lt)))),
          (
            omega arith,
            omega (arith, le'),
            subst (λ z. S.Denotes q u.free w z v) (sym (write-same K c q y u))
                (S.widened (suc q) u.free q u.free w y v (omega arith) (omega arith) (
                  S.framed (suc q) u.free u w y v
                    (λ d i l i_lt. sym (write-other K c d q i y u (λ e. omega (arith, e, l))))
                    copied)),
          ),
        )

    -- A pointer, with nil told apart.
    abbrev pub ref : Shape K Ref (Option V)
    ref = record {
      Denotes = Points;
      copy = copy_ref c S.copy;
      framed = Points-framed;
      widened = Points-widened;
      copies = Points-copies;
    }

  -- A map or a slice, of which nil is the empty one.
  module _ (c : CellType) {X : Type 0} (S : Shape K (Content K c) (List X)) where
    abbrev pub Fills : ℕ → ℕ → Store K → Ref → List X → Type 0
    Fills lo hi s none v = v ≡ []
    Fills lo hi s (some p) v = Points c S lo hi s (some p) (some v)

    pub Fills-copies :
        (lo : ℕ) (s : Store K) (m : Ref) (v : List X)
        → Fills lo s.free s m v
        → let r = copy_ref c S.copy m s in
          (s.free ≤ r.1.free) × Agree K 0 s.free s r.1 × Fills s.free r.1.free r.1 r.0 v
    Fills-copies lo s none v d = (omega arith, (λ c q l h. refl), d)
    Fills-copies lo s (some p) v d = Points-copies c S lo s (some p) (some v) d

    pub Fills-framed :
        (lo hi : ℕ) (s t : Store K) (m : Ref) (v : List X)
        → Agree K lo hi s t
        → Fills lo hi s m v
        → Fills lo hi t m v
    Fills-framed lo hi s t none v agree d = d
    Fills-framed lo hi s t (some p) v agree d =
        Points-framed c S lo hi s t (some p) (some v) agree d

    pub Fills-widened :
        (lo hi lo' hi' : ℕ) (s : Store K) (m : Ref) (v : List X)
        → lo' ≤ lo
        → hi ≤ hi'
        → Fills lo hi s m v
        → Fills lo' hi' s m v
    Fills-widened lo hi lo' hi' s none v l h d = d
    Fills-widened lo hi lo' hi' s (some p) v l h d =
        Points-widened c S lo hi lo' hi' s (some p) (some v) l h d

    abbrev pub ref_or_nil : Shape K Ref (List X)
    ref_or_nil = record {
      Denotes = Fills;
      copy = copy_ref c S.copy;
      framed = Fills-framed;
      widened = Fills-widened;
      copies = Fills-copies;
    }
