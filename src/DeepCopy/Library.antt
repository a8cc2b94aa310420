-- ===== src/DeepCopy/Library.antt =====
-- How the libraries copy the parts that are theirs, and how a copy becomes a runtime.Object.
use chia_opera.Base.{ℕ, ◌≤◌, ◌≡◌, sym, subst, Option, none, some}
use chia_opera.Kube.{Kube}
use chia_opera.Api.Common.{ResourceMeta, ListMeta}
use chia_opera.DeepCopy.{Ref, CellType}
use chia_opera.DeepCopy.Memory.{Store, Cmd, Agree}
use chia_opera.DeepCopy.Shapes.{Shape}

-- The DeepCopyInto methods of metav1 and corev1 that the generated code calls. Their types are taken
-- as values: what they point to is not part of the memory.
pub record CopyLibrary (K : Kube) : Type 0 where
  -- TypeMeta, which is assigned, and ObjectMeta
  pub object_meta : ResourceMeta → ResourceMeta
  pub list_meta : ListMeta → ListMeta
  pub probe : K.Probe → K.Probe
  pub resources : K.ResourceRequirements → K.ResourceRequirements
  pub security_context : K.SecurityContext → K.SecurityContext
  pub pod_security_context : K.PodSecurityContext → K.PodSecurityContext

-- A copy is equal to what it is made of.
pub record IsFaithful {K : Kube} (L : CopyLibrary K) : Type 0 where
  pub same_object_meta : (m : ResourceMeta) → L.object_meta m ≡ m
  pub same_list_meta : (m : ListMeta) → L.list_meta m ≡ m
  pub same_probe : (p : K.Probe) → L.probe p ≡ p
  pub same_resources : (r : K.ResourceRequirements) → L.resources r ≡ r
  pub same_security_context : (c : K.SecurityContext) → L.security_context c ≡ c
  pub same_pod_security_context : (c : K.PodSecurityContext) → L.pod_security_context c ≡ c

-- if c := in.DeepCopy(); c != nil { return c }; return nil
abbrev pub as_object : CellType → Ref → Option (CellType × ℕ)
as_object c none = none
as_object c (some p) = some (c, p)

module _ (K : Kube) {M V : Type 0} (S : Shape K M V) (copy : M → Cmd (Store K) M)
    (same : (m : M) (s : Store K) → copy m s ≡ S.copy m s) where
  -- A shape, for the function of the source that copies it.
  abbrev pub copied_with : Shape K M V
  copied_with = record {
    Denotes = S.Denotes;
    copy = copy;
    framed = S.framed;
    widened = S.widened;
    copies = λ lo s m v d.
        subst
          (λ (r : M × Store K).
            (s.free ≤ r.1.free) × Agree K 0 s.free s r.1 × S.Denotes s.free r.1.free r.1 r.0 v)
          (sym (same m s)) (S.copies lo s m v d);
  }
