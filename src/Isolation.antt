-- ===== src/Isolation.antt =====
-- The labels by which the services and the workloads of different resources tell their pods apart:
-- getCommonLabels of the four component controllers.
use chia_opera.Base.{
  String, ◌≡◌, ◌≢◌, refl, sym, ap, ◌∙◌, false, none, some, List, [], ◌∷◌, arith, ◌==◌, eq_iff,
  eq_refl, if◌then◌else◌, StringMap, lookup, HasNodupKeys, IsSubmap,
}
use mathlib.Core.Option.{none-ne-some, some-injective}
use chia_opera.Kube.{Kube}
use chia_opera.Api.Node.{ChiaNode}
use chia_opera.Api.Farmer.{ChiaFarmer}
use chia_opera.Api.Wallet.{ChiaWallet}
use chia_opera.Api.Harvester.{ChiaHarvester}
use chia_opera.Client.{ResourceKind, chia_node, chia_farmer, chia_wallet, chia_harvester, chia_ca}
use chia_opera.Common.{merge_labels, component_labels}
use chia_opera.Common.Labels.{lookup-add_all, lookup-component_labels, lookup-instance}
use chia_opera.Node
use chia_opera.Farmer
use chia_opera.Wallet
use chia_opera.Harvester

pub data Component (K : Kube) : Type 0 where
  node : ChiaNode K → Component K
  farmer : ChiaFarmer K → Component K
  wallet : ChiaWallet K → Component K
  harvester : ChiaHarvester K → Component K

module _ {K : Kube} where
  abbrev pub kind_of : Component K → ResourceKind
  kind_of (node c) = chia_node
  kind_of (farmer c) = chia_farmer
  kind_of (wallet c) = chia_wallet
  kind_of (harvester c) = chia_harvester

  abbrev pub name_of : Component K → String
  name_of (node c) = c.meta.name
  name_of (farmer c) = c.meta.name
  name_of (wallet c) = c.meta.name
  name_of (harvester c) = c.meta.name

  -- spec.additionalMetadata.labels
  abbrev pub user_labels : Component K → StringMap
  user_labels (node c) = c.spec.additional_metadata.labels
  user_labels (farmer c) = c.spec.additional_metadata.labels
  user_labels (wallet c) = c.spec.additional_metadata.labels
  user_labels (harvester c) = c.spec.additional_metadata.labels

  -- What a service or a workload of the component selects, by the labels that are added.
  unfoldable pub selector_of : Component K → List StringMap → StringMap
  unfolding Node.get_common_labels Farmer.get_common_labels Wallet.get_common_labels
      Harvester.get_common_labels
  selector_of (node c) added = Node.get_common_labels K c added
  selector_of (farmer c) added = Farmer.get_common_labels K c added
  selector_of (wallet c) added = Wallet.get_common_labels K c added
  selector_of (harvester c) added = Harvester.get_common_labels K c added

  unfoldable pub pod_labels_of : Component K → StringMap
  unfolding Node.pod_template Farmer.pod_template Wallet.pod_template Harvester.pod_template
  pod_labels_of (node c) = (Node.pod_template K c []).labels
  pod_labels_of (farmer c) = (Farmer.pod_template K c []).labels
  pod_labels_of (wallet c) = (Wallet.pod_template K c []).labels
  pod_labels_of (harvester c) = (Harvester.pod_template K c []).labels

abbrev pub owner_key : ResourceKind → String
owner_key chia_node = "chianode-owner"
owner_key chia_farmer = "chiafarmer-owner"
owner_key chia_wallet = "chiawallet-owner"
owner_key chia_harvester = "ChiaHarvester-owner"
owner_key chia_ca = "chiaca-owner"

kind_of_key : String → ResourceKind
kind_of_key key =
    if key == "chianode-owner"
    then chia_node
    else if key == "chiafarmer-owner"
    then chia_farmer
    else if key == "chiawallet-owner"
    then chia_wallet
    else if key == "ChiaHarvester-owner"
    then chia_harvester
    else chia_ca

kind_of_key-owner_key : (k : ResourceKind) → kind_of_key (owner_key k) ≡ k
unfolding kind_of_key
kind_of_key-owner_key chia_node = refl
kind_of_key-owner_key chia_farmer = refl
kind_of_key-owner_key chia_wallet = refl
kind_of_key-owner_key chia_harvester = refl
kind_of_key-owner_key chia_ca = refl

owner_key_injective : (k l : ResourceKind) → owner_key k ≡ owner_key l → k ≡ l
owner_key_injective k l e =
    sym (kind_of_key-owner_key k) ∙ (ap kind_of_key e ∙ kind_of_key-owner_key l)

-- A key that is none of those that all objects bear.
record IsOwn (key : String) : Type 0 where
  not_managed : ("app.kubernetes.io/managed-by" == key) ≡ false
  not_name : ("app.kubernetes.io/name" == key) ≡ false
  not_instance : ("app.kubernetes.io/instance" == key) ≡ false

owner_key-IsOwn : (k : ResourceKind) → IsOwn (owner_key k)
owner_key-IsOwn chia_node = record { not_managed = refl; not_name = refl; not_instance = refl }
owner_key-IsOwn chia_farmer = record { not_managed = refl; not_name = refl; not_instance = refl }
owner_key-IsOwn chia_wallet = record { not_managed = refl; not_name = refl; not_instance = refl }
owner_key-IsOwn chia_harvester = record { not_managed = refl; not_name = refl; not_instance = refl }
owner_key-IsOwn chia_ca = record { not_managed = refl; not_name = refl; not_instance = refl }

-- The label that tells kinds apart.
lookup-owner :
    (k l : ResourceKind) (name : String) (added : List StringMap)
    → lookup (owner_key k) (component_labels (owner_key l) name added) ≡ (
        if owner_key l == owner_key k
        then some name
        else lookup (owner_key k) (merge_labels [] added))
lookup-owner k l name added = ground (
  arith,
  lookup-component_labels (owner_key l) name (owner_key k) added,
  (owner_key-IsOwn k).not_managed,
  (owner_key-IsOwn k).not_name,
  (owner_key-IsOwn k).not_instance,
)

-- A label of the user's map, each key of which is there once.
lookup-user :
    (key : String) (labels : StringMap)
    → HasNodupKeys labels
    → lookup key labels ≡ none
    → lookup key (merge_labels [] (labels ∷ [])) ≡ none
unfolding merge_labels lookup
lookup-user key labels nodup h = rw (lookup-add_all key [] labels nodup, h)

module _ {K : Kube} where
  selector_of-eq :
      (c : Component K) (added : List StringMap)
      → selector_of c added ≡ component_labels (owner_key (kind_of c)) (name_of c) added
  unfolding selector_of
  selector_of-eq (node c) added = refl
  selector_of-eq (farmer c) added = refl
  selector_of-eq (wallet c) added = refl
  selector_of-eq (harvester c) added = refl

  pod_labels_of-eq : (c : Component K) → pod_labels_of c ≡ selector_of c (user_labels c ∷ [])
  unfolding pod_labels_of selector_of
  pod_labels_of-eq (node c) = refl
  pod_labels_of-eq (farmer c) = refl
  pod_labels_of-eq (wallet c) = refl
  pod_labels_of-eq (harvester c) = refl

  instance_of :
      (c : Component K) (added : List StringMap)
      → lookup "app.kubernetes.io/instance" (selector_of c added) ≡ some (name_of c)
  instance_of c added =
      rw (selector_of-eq c added) (lookup-instance (owner_key (kind_of c)) (name_of c) added)

  owner_of :
      (k : ResourceKind) (c : Component K) (added : List StringMap)
      → lookup (owner_key k) (selector_of c added) ≡ (
          if owner_key (kind_of c) == owner_key k
          then some (name_of c)
          else lookup (owner_key k) (merge_labels [] added))
  owner_of k c added = rw (selector_of-eq c added) (lookup-owner k (kind_of c) (name_of c) added)

  -- A selector of one component, whatever labels are added to it, fits the pods of another only if
  -- the two have one name.
  pub selector_by_name :
      (a b : Component K) (added : List StringMap)
      → IsSubmap (selector_of a added) (pod_labels_of b)
      → name_of a ≡ name_of b
  selector_by_name a b added sub = some-injective _ _ (
      sym (sub "app.kubernetes.io/instance" (name_of a) (instance_of a added))
      ∙ (ap (lookup "app.kubernetes.io/instance") (pod_labels_of-eq b)
          ∙ instance_of b (user_labels b ∷ [])))

  -- A selector of one component fits no pods of a component of another kind, even of the same name,
  -- unless the user's labels of the other have the owner key of the first.
  pub selector_by_kind :
      (a b : Component K) (added : List StringMap)
      → kind_of a ≢ kind_of b
      → HasNodupKeys (user_labels b)
      → lookup (owner_key (kind_of a)) (user_labels b) ≡ none
      → ¬ IsSubmap (selector_of a added) (pod_labels_of b)
  selector_by_kind a b added ne nodup h sub =
      let key = owner_key (kind_of a) in
      let keys_differ : owner_key (kind_of b) ≢ owner_key (kind_of a) =
        λ e. ne (sym (owner_key_injective (kind_of b) (kind_of a) e)) in
      let own : lookup key (selector_of a added) ≡ some (name_of a) =
        ground (arith, owner_of (kind_of a) a added, eq_refl key) in
      let other : lookup key (selector_of b (user_labels b ∷ [])) ≡ none = ground (
        arith,
        owner_of (kind_of a) b (user_labels b ∷ []),
        eq_iff (owner_key (kind_of b)) (owner_key (kind_of a)),
        keys_differ,
        lookup-user key (user_labels b) nodup h,
      ) in
      none-ne-some (name_of a)
        (sym other ∙ (sym (ap (lookup key) (pod_labels_of-eq b)) ∙ sub key (name_of a) own))
