-- ===== src/Base/Suffix.antt =====
-- Names that end in different suffixes are different names, whatever stands before the suffixes. A
-- list of literal suffixes is checked by evaluation.
use Prim.Native.Char.{code}
use Prim.Native.String.append
use mathlib.Core.List.Memᴰ
use text.Mathlib.TextLemmas.{append_cancel_right, append_assoc}
use chia_opera.Base.Core.{
  ℕ, String, ◌<>◌, ◌≡◌, ◌≢◌, sym, ap, ◌∙◌, Bool, true, false, ◌&&◌, ◌||◌, List, [], ◌∷◌, arith, ltb,
}
use chia_opera.Base.Lists.{Memᴰ, head, tail}

-- The text backwards, in front of another.
backwards : String → String → String
backwards acc String.[] = acc
backwards acc (String.◌∷◌ c s) = backwards (String.◌∷◌ c acc) s

backwards-append : (acc s t : String) → backwards acc (s <> t) ≡ backwards (backwards acc s) t
unfolding backwards
backwards-append acc String.[] t = rw (append.nil t)
backwards-append acc (String.◌∷◌ c s) t =
    rw (append.cons c s t) (backwards-append (String.◌∷◌ c acc) s t)

backwards-eq : (acc s : String) → backwards acc s ≡ backwards "" s <> acc
unfolding backwards
backwards-eq acc String.[] = sym (append.nil acc)
backwards-eq acc (String.◌∷◌ c s) =
    backwards-eq (String.◌∷◌ c acc) s
    ∙ (ap (λ t. backwards "" s <> t)
          (sym (append.cons c "" acc ∙ ap (λ t. String.◌∷◌ c t) (append.nil acc)))
        ∙ (sym (append_assoc (backwards "" s) (String.◌∷◌ c "") acc)
            ∙ ap (λ t. t <> acc) (sym (backwards-eq (String.◌∷◌ c "") s))))

-- Two texts have different characters at some place.
differ : String → String → Bool
differ String.[] t = false
differ (String.◌∷◌ c s) String.[] = false
differ (String.◌∷◌ c s) (String.◌∷◌ d t) =
    ltb (code c) (code d) || (ltb (code d) (code c) || differ s t)

first_code : String → ℕ
first_code String.[] = 0
first_code (String.◌∷◌ c s) = code c

rest_of : String → String
rest_of String.[] = ""
rest_of (String.◌∷◌ c s) = s

differ-ne : (s t x y : String) → differ s t ≡ true → s <> x ≢ t <> y
unfolding differ first_code rest_of
differ-ne String.[] t x y h e = cc
differ-ne (String.◌∷◌ c s) String.[] x y h e = cc
differ-ne (String.◌∷◌ c s) (String.◌∷◌ d t) x y h e =
    let same : String.◌∷◌ c (s <> x) ≡ String.◌∷◌ d (t <> y) =
      sym (append.cons c s x) ∙ (e ∙ append.cons d t y) in
    let codes : code c ≡ code d = ap first_code same in
    differ-ne s t x y (ground (arith, codes, h)) (ap rest_of same)

abbrev ends_differ : String → String → Bool
ends_differ s t = differ (backwards "" s) (backwards "" t)

ends_differ-ne : (n m s t : String) → ends_differ s t ≡ true → n <> s ≢ m <> t
ends_differ-ne n m s t h e =
    differ-ne (backwards "" s) (backwards "" t) (backwards "" n) (backwards "" m) h (
      sym (backwards-append "" n s ∙ backwards-eq (backwards "" n) s)
      ∙ (ap (backwards "") e ∙ (backwards-append "" m t ∙ backwards-eq (backwards "" m) t)))

-- Items with suffixes, of which no two end alike.
module _ {ℓ} {A : Type ℓ} where
  abbrev differs_from : String → List (A × String) → Bool
  differs_from s [] = true
  differs_from s (q ∷ qs) = ends_differ s q.1 && differs_from s qs

  unfoldable pub ends_all_differ : List (A × String) → Bool
  unfolding backwards differ
  ends_all_differ [] = true
  ends_all_differ (p ∷ ps) = differs_from p.1 ps && ends_all_differ ps

  differs_from-at :
      (s : String) (qs : List (A × String)) {q : A × String}
      → differs_from s qs ≡ true
      → Memᴰ q qs
      → ends_differ s q.1 ≡ true
  differs_from-at s [] h m = absurd (Memᴰ.not-nil m)
  differs_from-at s (r ∷ qs) h (head e) = rw e (ground (arith, h))
  differs_from-at s (r ∷ qs) h (tail m) = differs_from-at s qs (ground (arith, h)) m

  -- A name with one of the suffixes tells which, and what stands before it.
  pub suffixed-eq :
      (ps : List (A × String)) (p q : A × String) (n m : String)
      → ends_all_differ ps ≡ true
      → Memᴰ p ps
      → Memᴰ q ps
      → n <> p.1 ≡ m <> q.1
      → (p ≡ q) × (n ≡ m)
  unfolding ends_all_differ
  suffixed-eq [] p q n m h a b e = absurd (Memᴰ.not-nil a)
  suffixed-eq (r ∷ ps) p q n m h (head a) (head b) e =
      let same : p ≡ q = a ∙ sym b in
      (same, append_cancel_right n m q.1 (sym (ap (λ r. n <> r.1) same) ∙ e))
  suffixed-eq (r ∷ ps) p q n m h (head a) (tail b) e = absurd (
      ends_differ-ne n m r.1 q.1 (differs_from-at r.1 ps (ground (arith, h)) b)
        (sym (ap (λ r. n <> r.1) a) ∙ e))
  suffixed-eq (r ∷ ps) p q n m h (tail a) (head b) e = absurd (
      ends_differ-ne m n r.1 p.1 (differs_from-at r.1 ps (ground (arith, h)) a)
        (sym (ap (λ r. m <> r.1) b) ∙ sym e))
  suffixed-eq (r ∷ ps) p q n m h (tail a) (tail b) e =
      suffixed-eq ps p q n m (ground (arith, h)) a b e
