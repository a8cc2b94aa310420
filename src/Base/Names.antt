-- ===== src/Base/Names.antt =====
-- A list of literal names is checked for repetitions by evaluation.
use chia_opera.Base.Core.{
  String, ◌≡◌, ◌≢◌, Bool, true, false, ◌&&◌, List, [], ◌∷◌, arith, ◌==◌, eq_iff, if◌then◌else◌,
}
use chia_opera.Base.Lists.{All, Distinct}

abbrev is_fresh : String → List String → Bool
is_fresh x [] = true
is_fresh x (y ∷ ys) = if x == y then false else is_fresh x ys

abbrev pub are_distinct : List String → Bool
are_distinct [] = true
are_distinct (x ∷ xs) = is_fresh x xs && are_distinct xs

is_fresh-All : (x : String) (ys : List String) → is_fresh x ys ≡ true → All (λ y. x ≢ y) ys
is_fresh-All x [] h = tt
is_fresh-All x (y ∷ ys) h = (ground (arith, eq_iff x y), is_fresh-All x ys (ground arith))

pub are_distinct-Distinct : (xs : List String) → are_distinct xs ≡ true → Distinct xs
are_distinct-Distinct [] h = tt
are_distinct-Distinct (x ∷ xs) h =
    (is_fresh-All x xs (ground arith), are_distinct-Distinct xs (ground arith))
