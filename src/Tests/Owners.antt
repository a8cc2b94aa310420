-- ===== src/Tests/Owners.antt =====
-- What tells the pods of the sample resources apart.
use chia_opera.Base.{◌≡◌, refl, some, none, [], ◌∷◌, IsSubmap, lookup}
use chia_opera.Common.Labels.{component_labels-IsSubmap}
use chia_opera.Isolation.{
  Component, name_of, selector_of, pod_labels_of, selector_by_name, selector_by_kind,
}
use chia_opera.Tests.Data.{sample, directory, root_storage, node, farmer, wallet}

-- Two settings of one node.
abbrev one_node : Component sample
one_node = Component.node (node none)

abbrev same_node : Component sample
same_node = Component.node (node (root_storage none (some directory)))

one_node-selects : IsSubmap (selector_of one_node []) (pod_labels_of same_node)
unfolding selector_of pod_labels_of
one_node-selects = component_labels-IsSubmap "chianode-owner" "my" ((("team", "a") ∷ []) ∷ [])

selector_by_name_example : name_of one_node ≡ name_of same_node
selector_by_name_example = selector_by_name one_node same_node [] one_node-selects

selector_by_kind_example :
    ¬ IsSubmap
      (selector_of {K = sample} (Component.farmer (farmer none)) [])
      (pod_labels_of {K = sample} (Component.wallet (wallet none)))
unfolding lookup
selector_by_kind_example =
    selector_by_kind (Component.farmer (farmer none)) (Component.wallet (wallet none)) [] (λ e. cc)
      (refl, tt) refl
