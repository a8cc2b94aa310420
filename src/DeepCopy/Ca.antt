-- ===== src/DeepCopy/Ca.antt =====
-- api/v1/zz_generated.deepcopy.go: the types of api/v1/chiaca_types.go.
use chia_opera.Base.{◌≡◌, refl}
use chia_opera.Kube.{Kube}
use chia_opera.DeepCopy.{Ref, ListCell, CellType}
use chia_opera.DeepCopy.Memory.{Store, Cmd, pure, ◌>>=◌}
use chia_opera.DeepCopy.Shapes.{Shape, plain, copied_by, both, fields_of}
use chia_opera.DeepCopy.Refs.{copy_ref, copy_items, ref_or_nil}
use chia_opera.DeepCopy.Items.{items}
use chia_opera.DeepCopy.Library.{CopyLibrary, IsFaithful, copied_with}
use chia_opera.Api.Ca.{ChiaCa, ChiaCaList, ChiaCaSpec, ChiaCaStatus}
use chia_opera.DeepCopy.{ChiaCaCell, ca_specs, ca_statuses, cas, ca_slices, ca_lists}
use chia_opera.DeepCopy.Library.{as_object}
use chia_opera.Base.{Option, ℕ}

module _ {K : Kube} (L : CopyLibrary K) where
  unfoldable pub chia_ca_spec_deep_copy_into : ChiaCaSpec → Cmd (Store K) ChiaCaSpec
  chia_ca_spec_deep_copy_into m = pure m

  unfoldable pub chia_ca_spec_deep_copy : Ref → Cmd (Store K) Ref
  chia_ca_spec_deep_copy = copy_ref K ca_specs chia_ca_spec_deep_copy_into

  unfoldable pub chia_ca_status_deep_copy_into : ChiaCaStatus → Cmd (Store K) ChiaCaStatus
  chia_ca_status_deep_copy_into m = pure m

  unfoldable pub chia_ca_status_deep_copy : Ref → Cmd (Store K) Ref
  chia_ca_status_deep_copy = copy_ref K ca_statuses chia_ca_status_deep_copy_into

  unfoldable pub chia_ca_deep_copy_into : ChiaCaCell → Cmd (Store K) ChiaCaCell
  chia_ca_deep_copy_into m = do meta ← pure (L.object_meta m.meta); pure (record m { meta = meta })

  unfoldable pub chia_ca_deep_copy : Ref → Cmd (Store K) Ref
  chia_ca_deep_copy = copy_ref K cas chia_ca_deep_copy_into

  unfoldable pub chia_ca_deep_copy_object : Ref → Cmd (Store K) (Option (CellType × ℕ))
  unfolding chia_ca_deep_copy
  chia_ca_deep_copy_object p = do c ← chia_ca_deep_copy p; pure (as_object cas c)

  unfoldable pub chia_ca_list_deep_copy_into : ListCell → Cmd (Store K) ListCell
  chia_ca_list_deep_copy_into m = do
    meta ← pure (L.list_meta m.meta)
    items ← copy_ref K ca_slices (copy_items K (chia_ca_deep_copy_into)) m.items
    pure (record m { meta = meta; items = items })

  unfoldable pub chia_ca_list_deep_copy : Ref → Cmd (Store K) Ref
  chia_ca_list_deep_copy = copy_ref K ca_lists chia_ca_list_deep_copy_into

  unfoldable pub chia_ca_list_deep_copy_object : Ref → Cmd (Store K) (Option (CellType × ℕ))
  unfolding chia_ca_list_deep_copy
  chia_ca_list_deep_copy_object p = do c ← chia_ca_list_deep_copy p; pure (as_object ca_lists c)

module _ {K : Kube} {L : CopyLibrary K} (F : IsFaithful L) where
  pub chia_ca_spec-copy :
      (m : ChiaCaSpec) (s : Store K) → chia_ca_spec_deep_copy_into L m s ≡ (m, s)
  unfolding chia_ca_spec_deep_copy_into
  chia_ca_spec-copy m s = refl

  abbrev pub chia_ca_spec : Shape K ChiaCaSpec ChiaCaSpec
  chia_ca_spec =
      copied_with K (plain K ChiaCaSpec) (chia_ca_spec_deep_copy_into L) chia_ca_spec-copy

  pub chia_ca_status-copy :
      (m : ChiaCaStatus) (s : Store K) → chia_ca_status_deep_copy_into L m s ≡ (m, s)
  unfolding chia_ca_status_deep_copy_into
  chia_ca_status-copy m s = refl

  abbrev pub chia_ca_status : Shape K ChiaCaStatus ChiaCaStatus
  chia_ca_status =
      copied_with K (plain K ChiaCaStatus) (chia_ca_status_deep_copy_into L) chia_ca_status-copy

  abbrev chia_ca_fields : Shape K ChiaCaCell ChiaCa
  chia_ca_fields =
      fields_of K
        (both K (copied_by K L.object_meta F.same_object_meta)
          (both K (plain K ChiaCaSpec) (plain K ChiaCaStatus)))
        (λ (m : ChiaCaCell). (m.meta, (m.spec, m.status)))
        (λ t. record { meta = t.0; spec = t.1.0; status = t.1.1 })
        (λ (v : ChiaCa). (v.meta, (v.spec, v.status))) (λ t. refl)

  pub chia_ca-copy :
      (m : ChiaCaCell) (s : Store K) → chia_ca_deep_copy_into L m s ≡ chia_ca_fields.copy m s
  unfolding chia_ca_deep_copy_into
  chia_ca-copy m s = refl

  abbrev pub chia_ca : Shape K ChiaCaCell ChiaCa
  chia_ca = copied_with K chia_ca_fields (chia_ca_deep_copy_into L) chia_ca-copy

  abbrev chia_ca_list_fields : Shape K ListCell ChiaCaList
  chia_ca_list_fields =
      fields_of K
        (both K (copied_by K L.list_meta F.same_list_meta)
          (ref_or_nil K ca_slices (items K (chia_ca))))
        (λ (m : ListCell). (m.meta, m.items)) (λ t. record { meta = t.0; items = t.1 })
        (λ (v : ChiaCaList). (v.meta, v.items)) (λ t. refl)

  pub chia_ca_list-copy :
      (m : ListCell) (s : Store K)
      → chia_ca_list_deep_copy_into L m s ≡ chia_ca_list_fields.copy m s
  unfolding chia_ca_list_deep_copy_into
  chia_ca_list-copy m s = refl

  abbrev pub chia_ca_list : Shape K ListCell ChiaCaList
  chia_ca_list = copied_with K chia_ca_list_fields (chia_ca_list_deep_copy_into L) chia_ca_list-copy
