-- ===== src/Plan/Keys.antt =====
-- Which objects of the cluster a plan is about: the kind, the namespace and the name tell objects
-- apart.
use chia_opera.Base.{
  String, ◌≡◌, ◌≢◌, List, map, Distinct, All-of_map, Eval, [], ◌∷◌, Eval, value, All, subst, sym,
  ap, ◌∙◌, bind_eval, bind_eval-eq-value,
}
use chia_opera.Kube.{
  Kube, Object, ObjectMeta, Service, service, deployment, stateful_set, service_account, role,
  role_binding, job,
}
use chia_opera.Plan.{Plan}

-- Objects of one kind with one name in one namespace are one object of the cluster.
pub data ObjectKind : Type 0 where
  services deployments stateful_sets service_accounts roles role_bindings jobs : ObjectKind

pub record ObjectKey : Type 0 where
  pub kind : ObjectKind
  pub namespace : String
  pub name : String

abbrev pub key_at : ObjectKind → ObjectMeta → ObjectKey
key_at kind meta = record { kind = kind; namespace = meta.namespace; name = meta.name }

module _ {K : Kube} where
  abbrev pub key : Object K → ObjectKey
  key (service o) = key_at services o.meta
  key (deployment o) = key_at deployments o.meta
  key (stateful_set o) = key_at stateful_sets o.meta
  key (service_account o) = key_at service_accounts o.meta
  key (role o) = key_at roles o.meta
  key (role_binding o) = key_at role_bindings o.meta
  key (job o) = key_at jobs o.meta

  abbrev pub IsApartFrom : Object K → Plan K → Type 0
  IsApartFrom o = All (λ step. (p : Object K) → step.1 ≡ value p → key o ≢ key p)

  -- No two steps are about one object of the cluster.
  abbrev pub HasDistinctKeys : Plan K → Type 0
  HasDistinctKeys [] = Unit
  HasDistinctKeys (step ∷ rest) =
      ((o : Object K) → step.1 ≡ value o → IsApartFrom o rest) × HasDistinctKeys rest

module _ {K : Kube} where
  pub value_injective : (p q : Object K) → value p ≡ value q → p ≡ q
  value_injective p q e = cc

  -- A step whose object is at hand.
  pub known_step :
      (o : Object K) (rest : Plan K)
      → IsApartFrom o rest
      → (p : Object K) → value o ≡ value p
      → IsApartFrom p rest
  known_step o rest h p e = subst (λ q. IsApartFrom q rest) (value_injective o p e) h

  pub known_apart :
      (o q : Object K) → key o ≢ key q → (p : Object K) → value q ≡ value p → key o ≢ key p
  known_apart o q ne p e same = ne (same ∙ ap key (value_injective p q (sym e)))

  services_apart :
      (a b : Service)
      → a.meta.name ≢ b.meta.name
      → (p : Object K) → value (service b) ≡ value p
      → key_at services a.meta ≢ key p
  services_apart a b ne p e same =
      ne (ap (λ (k : ObjectKey). k.name) (same ∙ ap key (value_injective p (service b) (sym e))))

  -- An object that is assembled at the end of a plan, of another kind than the one before.
  assembled_apart :
      {A : Type 0} (o : Object K) (f : A → Object K) (m : Eval A)
      → ((a : A) → (key o).kind ≢ (key (f a)).kind)
      → (p : Object K) → bind_eval m (λ a. value (f a)) ≡ value p
      → key o ≢ key p
  assembled_apart o f m ne p e same =
      let (a, _, made) = bind_eval-eq-value m (λ a. value (f a)) e in
      ne a (ap (λ (k : ObjectKey). k.kind) (same ∙ ap key (value_injective p (f a) (sym made))))

  -- Services, and then a workload that is assembled.
  abbrev pub service_steps : List (String × Service) → Plan K → Plan K
  service_steps [] rest = rest
  service_steps ((text, s) ∷ ss) rest = (text, value (service s)) ∷ service_steps ss rest

  module _ {A : Type 0} (text : String) (f : A → Object K) (m : Eval A)
      (no_service : (a : A) → services ≢ (key (f a)).kind) where
    abbrev workload : Plan K
    workload = (text, bind_eval m (λ a. value (f a))) ∷ []

    service-IsApartFrom :
        (s : Service) (ss : List (String × Service))
        → All (λ t. s.meta.name ≢ t.1.meta.name) ss
        → IsApartFrom (service s) (service_steps ss workload)
    service-IsApartFrom s [] h = (assembled_apart (service s) f m no_service, tt)
    service-IsApartFrom s ((_, t) ∷ ss) h = (services_apart s t h.0, service-IsApartFrom s ss h.1)

    -- Services of different names and a workload are different objects of the cluster.
    pub service_steps-HasDistinctKeys :
        (ss : List (String × Service))
        → Distinct (map (λ t. t.1.meta.name) ss)
        → HasDistinctKeys (service_steps ss workload)
    service_steps-HasDistinctKeys [] d = ((λ o e. tt), tt)
    service_steps-HasDistinctKeys ((_, s) ∷ ss) d = (
      known_step (service s) (service_steps ss workload) (
          service-IsApartFrom s ss
            (All-of_map (λ n. s.meta.name ≢ n) (λ (t : String × Service). t.1.meta.name) ss d.0)),
      service_steps-HasDistinctKeys ss d.1,
    )
