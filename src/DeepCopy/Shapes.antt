-- ===== src/DeepCopy/Shapes.antt =====
-- What a value in memory stands for, and that its copy stands for the same in new memory: for
-- each way in which the types of api/v1 are put together.
use chia_opera.Base.{ℕ, ◌≤◌, ◌≡◌, refl, sym, ◌∙◌, subst, arith}
use chia_opera.Kube.{Kube}
use chia_opera.DeepCopy.Memory.{Store, Cmd, pure, ◌>>=◌, Agree}

module _ (K : Kube) where
  -- `Denotes lo hi s m v`: in the memory `s`, the value `m` stands for `v`, by cells from `lo` to `hi`
  -- alone.
  pub record Shape (M V : Type 0) : Type 1 where
    pub Denotes : ℕ → ℕ → Store K → M → V → Type 0
    pub copy : M → Cmd (Store K) M
    pub framed :
        (lo hi : ℕ) (s t : Store K) (m : M) (v : V)
        → Agree K lo hi s t
        → Denotes lo hi s m v
        → Denotes lo hi t m v
    pub widened :
        (lo hi lo' hi' : ℕ) (s : Store K) (m : M) (v : V)
        → lo' ≤ lo
        → hi ≤ hi'
        → Denotes lo hi s m v
        → Denotes lo' hi' s m v
    -- The copy changes no cell in use, and stands for the same by new cells alone.
    pub copies :
        (lo : ℕ) (s : Store K) (m : M) (v : V)
        → Denotes lo s.free s m v
        → (s.free ≤ (copy m s).1.free)
          × Agree K 0 s.free s (copy m s).1
          × Denotes s.free (copy m s).1.free (copy m s).1 (copy m s).0 v

  -- A value without addresses, and one that a library copies.
  abbrev pub plain : (A : Type 0) → Shape A A
  plain A = record {
    Denotes = λ lo hi s m v. m ≡ v;
    copy = pure;
    framed = λ lo hi s t m v agree e. e;
    widened = λ lo hi lo' hi' s m v l h e. e;
    copies = λ lo s m v e. (omega arith, (λ c q l h. refl), e);
  }

  abbrev pub copied_by : {A : Type 0} (f : A → A) → ((a : A) → f a ≡ a) → Shape A A
  copied_by f same = record {
    Denotes = λ lo hi s m v. m ≡ v;
    copy = λ m. pure (f m);
    framed = λ lo hi s t m v agree e. e;
    widened = λ lo hi lo' hi' s m v l h e. e;
    copies = λ lo s m v e. (omega arith, (λ c q l h. refl), same m ∙ e);
  }

  -- Two fields, the first copied first.
  module _ {M N V W : Type 0} (S : Shape M V) (T : Shape N W) where
    abbrev copy_both : M × N → Cmd (Store K) (M × N)
    copy_both (m, n) = do x ← S.copy m; y ← T.copy n; pure (x, y)

    pub both-copies :
        (lo : ℕ) (s : Store K) (m : M) (n : N) (v : V) (w : W)
        → S.Denotes lo s.free s m v
        → T.Denotes lo s.free s n w
        → let r = copy_both (m, n) s in
          (s.free ≤ r.1.free)
          × Agree K 0 s.free s r.1
          × (S.Denotes s.free r.1.free r.1 r.0.0 v × T.Denotes s.free r.1.free r.1 r.0.1 w)
    both-copies lo s m n v w d e =
        let (x, t) = S.copy m s in
        let (le, agree, dx) = S.copies lo s m v d in
        let e' =
          T.widened lo s.free 0 t.free t n w (omega arith) le
            (T.framed lo s.free s t n w (λ c q l h. agree c q (omega arith) h) e) in
        let (y, u) = T.copy n t in
        let (le', agree', dy) = T.copies 0 t n w e' in
        (
          omega (arith, le, le'),
          (λ c q l h. agree c q l h ∙ agree' c q l (omega (arith, h, le))),
          (
            S.widened s.free t.free s.free u.free u x v (omega arith) le'
                (S.framed s.free t.free t u x v (λ c q l h. agree' c q (omega arith) h) dx),
            T.widened t.free u.free s.free u.free u y w le (omega arith) dy,
          ),
        )

    abbrev pub both : Shape (M × N) (V × W)
    both = record {
      Denotes = λ lo hi s m v. S.Denotes lo hi s m.0 v.0 × T.Denotes lo hi s m.1 v.1;
      copy = copy_both;
      framed = λ lo hi s t m v agree d.
          (S.framed lo hi s t m.0 v.0 agree d.0, T.framed lo hi s t m.1 v.1 agree d.1);
      widened = λ lo hi lo' hi' s m v l h d.
          (S.widened lo hi lo' hi' s m.0 v.0 l h d.0, T.widened lo hi lo' hi' s m.1 v.1 l h d.1);
      copies = λ lo s m v d. both-copies lo s m.0 m.1 v.0 v.1 d.0 d.1;
    }

  -- A record, by its fields.
  module _ {M V T W : Type 0} (S : Shape T W) (fields : M → T) (made : T → M) (seen : V → W)
      (same : (t : T) → fields (made t) ≡ t) where
    abbrev pub fields_of : Shape M V
    fields_of = record {
      Denotes = λ lo hi s m v. S.Denotes lo hi s (fields m) (seen v);
      copy = λ m. (do t ← S.copy (fields m); pure (made t));
      framed = λ lo hi s t m v. S.framed lo hi s t (fields m) (seen v);
      widened = λ lo hi lo' hi' s m v. S.widened lo hi lo' hi' s (fields m) (seen v);
      copies = λ lo s m v d.
          let r = S.copy (fields m) s in
          let (le, agree, e) = S.copies lo s (fields m) (seen v) d in
          (le, agree, subst (λ t. S.Denotes s.free r.1.free r.1 t (seen v)) (sym (same r.0)) e);
    }
