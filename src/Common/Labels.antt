-- ===== src/Common/Labels.antt =====
-- What the labels of an object are, whatever the user adds.
use chia_opera.Base.{
  String, ◌≡◌, refl, Option, none, some, List, [], ◌∷◌, arith, ◌==◌, eq_iff, if◌then◌else◌,
  StringMap, lookup, insert, lookup-insert, HasNodupKeys, IsSubmap,
}
use chia_opera.Common.{add_all, merge_labels, component_labels}

abbrev pub or_else : Option String → Option String → Option String
or_else none d = d
or_else (some v) d = some v

pub lookup-add_all :
    (j : String) (labels addition : StringMap)
    → HasNodupKeys addition
    → lookup j (add_all labels addition) ≡ or_else (lookup j addition) (lookup j labels)
unfolding add_all lookup
lookup-add_all j labels [] u = refl
lookup-add_all j labels ((k, v) ∷ addition) u = ground (
  arith,
  lookup-add_all j (insert k v labels) addition u.1,
  lookup-insert labels k v j,
  eq_iff k j,
  u.0,
)

pub lookup-component_labels :
    (owner name k : String) (additions : List StringMap)
    → lookup k (component_labels owner name additions) ≡ (
        if "app.kubernetes.io/managed-by" == k
        then some "chia-operator"
        else if "app.kubernetes.io/name" == k
        then some "chia"
        else if owner == k
        then some name
        else if "app.kubernetes.io/instance" == k
        then some name
        else lookup k (merge_labels [] additions))
unfolding component_labels
lookup-component_labels owner name k additions = simp lookup-insert

pub lookup-instance :
    (owner name : String) (additions : List StringMap)
    → lookup "app.kubernetes.io/instance" (component_labels owner name additions) ≡ some name
lookup-instance owner name additions =
    ground (arith, lookup-component_labels owner name "app.kubernetes.io/instance" additions)

pub lookup-managed_by :
    (owner name : String) (additions : List StringMap)
    → lookup "app.kubernetes.io/managed-by" (component_labels owner name additions)
      ≡ some "chia-operator"
lookup-managed_by owner name additions =
    ground (arith, lookup-component_labels owner name "app.kubernetes.io/managed-by" additions)

-- The selector of a workload, which has no added labels, fits the pods, which have.
pub component_labels-IsSubmap :
    (owner name : String) (additions : List StringMap)
    → IsSubmap (component_labels owner name []) (component_labels owner name additions)
unfolding merge_labels lookup
component_labels-IsSubmap owner name additions k v h = rw lookup-component_labels (
    ground (
      arith,
      lookup-component_labels owner name k [],
      lookup-component_labels owner name k additions,
    ))
