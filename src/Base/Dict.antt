-- ===== src/Base/Dict.antt =====
-- Go's `map[string]string` as an association list.
use chia_opera.Base.Core.{
  String, ◌≡◌, refl, Option, none, some, List, [], ◌∷◌, arith, ◌==◌, eq_iff, if◌then◌else◌,
}

-- The order of the entries is that in which a `range` loop meets them: Go leaves it open.
abbrev pub StringMap : Type 0
StringMap = List (String × String)

-- labels[asked], with a missing key told apart
unfoldable pub lookup : String → StringMap → Option String
lookup asked [] = none
lookup asked ((key, text) ∷ labels) = if key == asked then some text else lookup asked labels

-- labels[key] = text
unfoldable pub insert : String → String → StringMap → StringMap
insert key text [] = (key, text) ∷ []
insert key text ((first, old) ∷ labels) =
    if first == key then (key, text) ∷ labels else (first, old) ∷ insert key text labels

pub lookup-insert :
    (labels : StringMap) (key text asked : String)
    → lookup asked (insert key text labels)
      ≡ (if key == asked then some text else lookup asked labels)
unfolding lookup insert
lookup-insert [] key text asked = refl
lookup-insert ((first, old) ∷ labels) key text asked =
    let deeper = lookup-insert labels key text asked in
    ground (arith, deeper, eq_iff first key, eq_iff first asked, eq_iff key asked)

-- Every entry of the one map is in the other.
abbrev pub IsSubmap : StringMap → StringMap → Type 0
IsSubmap a b = (k v : String) → lookup k a ≡ some v → lookup k b ≡ some v

-- A Go map has each key once.
abbrev pub HasNodupKeys : StringMap → Type 0
HasNodupKeys [] = Unit
HasNodupKeys ((k, v) ∷ m) = (lookup k m ≡ none) × HasNodupKeys m
