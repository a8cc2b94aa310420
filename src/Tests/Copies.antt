-- ===== src/Tests/Copies.antt =====
-- DeepCopyObject of the sample harvester with plots, as it lies in a memory of twelve cells.
use chia_opera.Base.{
  ℕ, false, Option, some, ◌≡◌, refl, ap, sym, ◌∙◌, subst, arith, lookup, [], ◌∷◌, inl,
}
use chia_opera.Client.{chia_harvester}
use chia_opera.Manager.{RegisteredType, object_type}
use chia_opera.DeepCopy
use chia_opera.DeepCopy.{CellType, Content, Ref}
use chia_opera.DeepCopy.Memory.{Store, write, write-same, write-other}
use chia_opera.DeepCopy.Refs.{Fills}
use chia_opera.DeepCopy.Items.{entries}
use chia_opera.DeepCopy.Library.{CopyLibrary, IsFaithful}
use chia_opera.DeepCopy.Objects.{Stands, deep_copy_object}
use chia_opera.DeepCopy.Apart.{
  DependsOn, done, writes, deep_copy_object-Stands, original-stays, copy-stays,
}
use chia_opera.Tests.Data.{sample, plot_storage, harvester}
use chia_opera.Tests.Cells.{stored, cells}

abbrev library : CopyLibrary sample
library = record {
  object_meta = λ m. m;
  list_meta = λ m. m;
  probe = λ p. p;
  resources = λ r. r;
  security_context = λ c. c;
  pod_security_context = λ c. c;
}

abbrev library-IsFaithful : IsFaithful library
library-IsFaithful = record {
  same_object_meta = λ m. refl;
  same_list_meta = λ m. refl;
  same_probe = λ p. refl;
  same_resources = λ r. refl;
  same_security_context = λ c. refl;
  same_pod_security_context = λ c. refl;
}

abbrev memory : Store sample
memory = record { free = 12; at = cells }

abbrev kind : RegisteredType
kind = object_type chia_harvester

in_memory : Stands library-IsFaithful kind 0 12 memory 11 (harvester plot_storage)
unfolding cells lookup
in_memory = ground arith

-- What the call leaves.
abbrev copied : Option (CellType × ℕ) × Store sample
copied = deep_copy_object library kind (some 11) memory

deep_copy_object-Stands_example :
    (q : ℕ) × (copied.0 ≡ some (CellType.harvesters, q))
    × Stands library-IsFaithful kind 12 copied.1.free copied.1 q (harvester plot_storage)
    × Stands library-IsFaithful kind 0 12 copied.1 11 (harvester plot_storage)
deep_copy_object-Stands_example =
    deep_copy_object-Stands library-IsFaithful kind 11 (harvester plot_storage) memory copied.1
      copied.0 in_memory refl

copied_at : copied.0 ≡ some (CellType.harvesters, 12)
unfolding deep_copy_object DeepCopy.Harvester.chia_harvester_deep_copy_object
copied_at = refl

-- The copy's own map of labels, and the cell that has it.
labels_at : (copied.1.at CellType.harvesters 12).spec.additional_metadata.labels ≡ some 13
unfolding deep_copy_object DeepCopy.Harvester.chia_harvester_deep_copy_object
    DeepCopy.Harvester.chia_harvester_deep_copy_into
    DeepCopy.Harvester.chia_harvester_spec_deep_copy_into
    DeepCopy.Parts.additional_metadata_deep_copy_into cells
labels_at =
    let (copy, t) =
      DeepCopy.Harvester.chia_harvester_deep_copy_into library stored
        (record { free = 13; at = cells }) in
    ap (λ (m : DeepCopy.ChiaHarvesterCell). m.spec.additional_metadata.labels)
      (write-same sample CellType.harvesters 12 copy t)

-- Without its labels the copy is another harvester.
labels_part :
    DependsOn library-IsFaithful kind 12 (harvester plot_storage) copied.1 CellType.maps 13
labels_part = (
  [],
  λ h.
      let t = write sample CellType.maps 13 [] copied.1 in
      let at_labels : (t.at CellType.harvesters 12).spec.additional_metadata.labels ≡ some 13 =
        ap (λ (m : DeepCopy.ChiaHarvesterCell). m.spec.additional_metadata.labels)
          (write-other sample CellType.maps CellType.harvesters 13 12 [] copied.1
            (λ e. omega (arith, e)))
        ∙ labels_at in
      let (_, _, (_, (((held, _), _), _))) = h in
      let (_, _, (labels, _)) =
        subst
          (λ m.
            Fills sample CellType.maps (entries sample) 0 copied.1.free t m (("team", "a") ∷ []))
          at_labels held in
      let kept : ("team", "a") ∷ [] ≡ [] =
        sym labels ∙ write-same sample CellType.maps 13 [] copied.1 in
      cc,
)

original-stays_example :
    Stands library-IsFaithful kind 0 12
      (write sample CellType.maps 13 (("team", "b") ∷ []) copied.1)
      11
      (harvester plot_storage)
original-stays_example =
    original-stays library-IsFaithful kind 11 (harvester plot_storage) memory copied.1 12
      CellType.harvesters (write sample CellType.maps 13 (("team", "b") ∷ []) copied.1) in_memory
      (ap (λ o. (o, copied.1)) copied_at)
      (writes CellType.maps 13 (("team", "b") ∷ []) (inl labels_part) done)

copy-stays_example :
    Stands library-IsFaithful kind 12 copied.1.free
      (write sample CellType.bools 0 false copied.1)
      12
      (harvester plot_storage)
copy-stays_example =
    copy-stays library-IsFaithful kind 11 (harvester plot_storage) memory copied.1 12
      CellType.harvesters (write sample CellType.bools 0 false copied.1) in_memory
      (ap (λ o. (o, copied.1)) copied_at)
      (writes CellType.bools 0 false (omega arith, omega arith) done)
