-- ===== src/System/Apart.antt =====
-- The objects of different resources are different objects of the cluster.
use chia_opera.Base.{
  String, ◌≡◌, ◌≢◌, refl, sym, ap, ◌∙◌, true, Memᴰ, value, Eval, OnValue, subst, ends_all_differ,
  suffixed-eq, All-at,
}
use chia_opera.Kube.{Kube, Object}
use chia_opera.Client.{Client, NamespacedName, ResourceKind, Resource}
use chia_opera.Plan.{Plan}
use chia_opera.Plan.Keys.{
  ObjectKind, ObjectKey, key, services, deployments, stateful_sets, service_accounts, roles,
  role_bindings, jobs,
}
use chia_opera.System.{meta_of, plan_of}
use chia_opera.System.Claims.{claims, IsClaimed, plan_of-AllClaimed}

-- A resource of the cluster.
pub record ResourceId : Type 0 where
  pub kind : ResourceKind
  pub namespace : String
  pub name : String

abbrev pub id_of : (K : Kube) (k : ResourceKind) → Resource K k → ResourceId
id_of K k cr = record {
  kind = k;
  namespace = (meta_of K k cr).namespace;
  name = (meta_of K k cr).name;
}

abbrev pub requested : ResourceKind → NamespacedName → ResourceId
requested k req = record { kind = k; namespace = req.namespace; name = req.name }

claims_differ : (kind : ObjectKind) → ends_all_differ (claims kind) ≡ true
unfolding ends_all_differ
claims_differ services = refl
claims_differ deployments = refl
claims_differ stateful_sets = refl
claims_differ service_accounts = refl
claims_differ roles = refl
claims_differ role_bindings = refl
claims_differ jobs = refl

module _ {K : Kube} where
  -- The object is one of the plan's.
  abbrev pub IsPlanned : Object K → Plan K → Type 0
  IsPlanned o plan = (text : String) × Memᴰ (text, value o) plan

module _ {K : Kube} (C : Client K) (k l : ResourceKind) (c : Resource K k) (d : Resource K l) where
  claimed-id :
      (i j : ObjectKey)
      → i ≡ j
      → IsClaimed k (meta_of K k c) i
      → IsClaimed l (meta_of K l d) j
      → id_of K k c ≡ id_of K l d
  claimed-id i j e (s, m, ns, n) (t, m', ns', n') =
      let kinds : i.kind ≡ j.kind = ap (λ (k : ObjectKey). k.kind) e in
      let (pairs, names) =
        suffixed-eq (claims j.kind) (k, s) (l, t) (meta_of K k c).name (meta_of K l d).name
          (claims_differ j.kind) (subst (λ kind. Memᴰ (k, s) (claims kind)) kinds m) m'
          (sym n ∙ (ap (λ (k : ObjectKey). k.name) e ∙ n')) in
      let spaces : (meta_of K k c).namespace ≡ (meta_of K l d).namespace =
        sym ns ∙ (ap (λ (k : ObjectKey). k.namespace) e ∙ ns') in
      λ i. record { kind = (pairs i).0; namespace = spaces i; name = names i }

  -- The calls for two resources that differ in kind, namespace or name have no object of the cluster
  -- in common, whatever the requests.
  pub plans-apart :
      (req req' : NamespacedName)
      → id_of K k c ≢ id_of K l d
      → (o p : Object K) → IsPlanned o (plan_of C k req c)
      → IsPlanned p (plan_of C l req' d)
      → key o ≢ key p
  plans-apart req req' ne o p mine other e = ne (
      claimed-id (key o) (key p) e
        (All-at
          (λ (step : String × Eval (Object K)).
            OnValue (λ o. IsClaimed k (meta_of K k c) (key o)) step.1)
          (plan_of-AllClaimed C req k c) mine.1)
        (All-at
          (λ (step : String × Eval (Object K)).
            OnValue (λ o. IsClaimed l (meta_of K l d) (key o)) step.1)
          (plan_of-AllClaimed C req' l d) other.1))
