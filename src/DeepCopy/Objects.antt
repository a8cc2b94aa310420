-- ===== src/DeepCopy/Objects.antt =====
-- DeepCopyObject of every registered type: the copy stands for the same value and shares nothing
-- with the original.
use chia_opera.Base.{ℕ, ◌≡◌, refl, Option, some}
use chia_opera.Kube.{Kube}
use chia_opera.Api.Node.{ChiaNodeList}
use chia_opera.Api.Farmer.{ChiaFarmerList}
use chia_opera.Api.Wallet.{ChiaWalletList}
use chia_opera.Api.Harvester.{ChiaHarvesterList}
use chia_opera.Api.Ca.{ChiaCaList}
use chia_opera.Client.{Resource, chia_node, chia_farmer, chia_wallet, chia_harvester, chia_ca}
use chia_opera.Manager.{RegisteredType, object_type, list_type}
use chia_opera.DeepCopy.{
  Ref, CellType, Content, nodes, node_lists, farmers, farmer_lists, wallets, wallet_lists,
  harvesters, harvester_lists, cas, ca_lists,
}
use chia_opera.DeepCopy.Memory.{Store, Cmd}
use chia_opera.DeepCopy.Shapes.{Shape}
use chia_opera.DeepCopy.Refs.{Points, copy_ref}
use chia_opera.DeepCopy.Library.{CopyLibrary, IsFaithful}
use chia_opera.DeepCopy.Node as NodeCopy
use chia_opera.DeepCopy.Farmer as FarmerCopy
use chia_opera.DeepCopy.Wallet as WalletCopy
use chia_opera.DeepCopy.Harvester as HarvesterCopy
use chia_opera.DeepCopy.Ca as CaCopy

abbrev pub Value : Kube → RegisteredType → Type 0
Value K (object_type k) = Resource K k
Value K (list_type chia_node) = ChiaNodeList K
Value K (list_type chia_farmer) = ChiaFarmerList K
Value K (list_type chia_wallet) = ChiaWalletList K
Value K (list_type chia_harvester) = ChiaHarvesterList K
Value K (list_type chia_ca) = ChiaCaList

abbrev pub cell_of : RegisteredType → CellType
cell_of (object_type chia_node) = nodes
cell_of (object_type chia_farmer) = farmers
cell_of (object_type chia_wallet) = wallets
cell_of (object_type chia_harvester) = harvesters
cell_of (object_type chia_ca) = cas
cell_of (list_type chia_node) = node_lists
cell_of (list_type chia_farmer) = farmer_lists
cell_of (list_type chia_wallet) = wallet_lists
cell_of (list_type chia_harvester) = harvester_lists
cell_of (list_type chia_ca) = ca_lists

-- The method DeepCopyObject of each type.
unfoldable pub deep_copy_object :
    {K : Kube} → CopyLibrary K → RegisteredType → Ref → Cmd (Store K) (Option (CellType × ℕ))
deep_copy_object L (object_type chia_node) = NodeCopy.chia_node_deep_copy_object L
deep_copy_object L (object_type chia_farmer) = FarmerCopy.chia_farmer_deep_copy_object L
deep_copy_object L (object_type chia_wallet) = WalletCopy.chia_wallet_deep_copy_object L
deep_copy_object L (object_type chia_harvester) = HarvesterCopy.chia_harvester_deep_copy_object L
deep_copy_object L (object_type chia_ca) = CaCopy.chia_ca_deep_copy_object L
deep_copy_object L (list_type chia_node) = NodeCopy.chia_node_list_deep_copy_object L
deep_copy_object L (list_type chia_farmer) = FarmerCopy.chia_farmer_list_deep_copy_object L
deep_copy_object L (list_type chia_wallet) = WalletCopy.chia_wallet_list_deep_copy_object L
deep_copy_object L (list_type chia_harvester) = HarvesterCopy.chia_harvester_list_deep_copy_object L
deep_copy_object L (list_type chia_ca) = CaCopy.chia_ca_list_deep_copy_object L

module _ {K : Kube} {L : CopyLibrary K} (F : IsFaithful L) where
  -- What a cell of the type stands for.
  abbrev pub shape_of : (x : RegisteredType) → Shape K (Content K (cell_of x)) (Value K x)
  shape_of (object_type chia_node) = NodeCopy.chia_node F
  shape_of (object_type chia_farmer) = FarmerCopy.chia_farmer F
  shape_of (object_type chia_wallet) = WalletCopy.chia_wallet F
  shape_of (object_type chia_harvester) = HarvesterCopy.chia_harvester F
  shape_of (object_type chia_ca) = CaCopy.chia_ca F
  shape_of (list_type chia_node) = NodeCopy.chia_node_list F
  shape_of (list_type chia_farmer) = FarmerCopy.chia_farmer_list F
  shape_of (list_type chia_wallet) = WalletCopy.chia_wallet_list F
  shape_of (list_type chia_harvester) = HarvesterCopy.chia_harvester_list F
  shape_of (list_type chia_ca) = CaCopy.chia_ca_list F

  -- `Stands x lo hi s p v`: the object at `p` stands for `v`, with all that it points to, by cells from
  -- `lo` to `hi`.
  abbrev pub Stands : (x : RegisteredType) → ℕ → ℕ → Store K → ℕ → Value K x → Type 0
  Stands x lo hi s p v = Points K (cell_of x) (shape_of x) lo hi s (some p) (some v)

  pub deep_copy_object-eq :
      (x : RegisteredType) (p : ℕ) (s : Store K)
      → deep_copy_object L x (some p) s
        ≡ (some (cell_of x, s.free), (copy_ref K (cell_of x) (shape_of x).copy (some p) s).1)
  unfolding deep_copy_object NodeCopy.chia_node_deep_copy_object
      FarmerCopy.chia_farmer_deep_copy_object WalletCopy.chia_wallet_deep_copy_object
      HarvesterCopy.chia_harvester_deep_copy_object CaCopy.chia_ca_deep_copy_object
      NodeCopy.chia_node_list_deep_copy_object FarmerCopy.chia_farmer_list_deep_copy_object
      WalletCopy.chia_wallet_list_deep_copy_object
      HarvesterCopy.chia_harvester_list_deep_copy_object CaCopy.chia_ca_list_deep_copy_object
  deep_copy_object-eq (object_type chia_node) p s = refl
  deep_copy_object-eq (object_type chia_farmer) p s = refl
  deep_copy_object-eq (object_type chia_wallet) p s = refl
  deep_copy_object-eq (object_type chia_harvester) p s = refl
  deep_copy_object-eq (object_type chia_ca) p s = refl
  deep_copy_object-eq (list_type chia_node) p s = refl
  deep_copy_object-eq (list_type chia_farmer) p s = refl
  deep_copy_object-eq (list_type chia_wallet) p s = refl
  deep_copy_object-eq (list_type chia_harvester) p s = refl
  deep_copy_object-eq (list_type chia_ca) p s = refl
