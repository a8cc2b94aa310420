-- ===== src/System/Stays.antt =====
-- What a call has put into the cluster stays there, however the calls for other resources are
-- interleaved.
use chia_opera.Base.{◌≡◌, ◌≢◌, sym, ◌∙◌, value, Memᴰ, All-listed, subst}
use chia_opera.Kube.{Kube, Object}
use chia_opera.Client.{Client, NamespacedName, ResourceKind, Resource}
use chia_opera.Plan.{Plan}
use chia_opera.Plan.Holds.{IsLawful}
use chia_opera.Plan.Reached.{AllIn}
use chia_opera.System.{plan_of}
use chia_opera.System.Apart.{ResourceId, id_of, requested, IsPlanned, plans-apart}
use chia_opera.System.Acts.{
  Acts, gets, queries, applies, updates, sleeps, Steps, done, step, KeepsByReading,
}

module _ {K : Kube} (C : Client K) (mine : ResourceId) where
  -- A client call of some call of `Reconcile` for another resource.
  pub data OthersAct : C.State → C.State → Type 0 where
    act :
        {s t : C.State} (k : ResourceKind) (req : NamespacedName)
        → requested k req ≢ mine
        → Acts C k req s t
        → OthersAct s t

module _ {K : Kube} {C : Client K} (L : IsLawful C) where
  -- What keeps each planned object keeps them all.
  pub AllIn-kept :
      (plan : Plan K) (s t : C.State)
      → ((o : Object K) → IsPlanned o plan → L.Holds o s → L.Holds o t)
      → AllIn L plan s
      → AllIn L plan t
  AllIn-kept plan s t keeps h =
      All-listed (λ step. (o : Object K) × (step.1 ≡ value o) × L.Holds o s) plan h
        (λ step listed held.
          let (o, e, holds) = held in
          (o, e, keeps o (step.0, subst (λ v. Memᴰ (step.0, v) plan) e listed) holds))

module _ {K : Kube} {C : Client K} (L : IsLawful C) (reading : KeepsByReading L) where
  module _ (k : ResourceKind) (c : Resource K k) (req : NamespacedName) (o : Object K)
      (planned : IsPlanned o (plan_of C k req c)) where
    kept_by_act :
        (l : ResourceKind) (other : NamespacedName) {s t : C.State}
        → requested l other ≢ id_of K k c
        → Acts C l other s t
        → L.Holds o s
        → L.Holds o t
    kept_by_act l other ne (gets e) h = reading.kept_by_get o l other _ _ _ e h
    kept_by_act l other ne (queries secret e) h = reading.kept_by_get_secret o secret _ _ _ e h
    kept_by_act l other ne (applies d p named has e) h =
        L.kept o p _ _ _
          (plans-apart C k l c d req other (λ same. ne (sym (same ∙ named))) o p planned has) e h
    kept_by_act l other ne (updates d e) h = L.kept_by_status o l d _ _ _ e h
    kept_by_act l other ne (sleeps d e) h = reading.kept_by_sleep o d _ _ e h

    pub kept_by_others :
        {s t : C.State} → Steps (OthersAct C (id_of K k c)) s t → L.Holds o s → L.Holds o t
    kept_by_others done h = h
    kept_by_others (step (act l other ne a) rest) h =
        kept_by_others rest (kept_by_act l other ne a h)

  -- On a lawful client, of which what only reads or waits keeps the objects: objects of a resource's
  -- plan that are all in the cluster are all still there after any client calls of calls of `Reconcile`
  -- for resources of another kind, namespace or name, however these are interleaved, whatever they
  -- return and whether they end.
  pub plan_of-stays :
      (k : ResourceKind) (c : Resource K k) (req : NamespacedName) (s t : C.State)
      → AllIn L (plan_of C k req c) s
      → Steps (OthersAct C (id_of K k c)) s t
      → AllIn L (plan_of C k req c) t
  plan_of-stays k c req s t there others =
      AllIn-kept L (plan_of C k req c) s t (λ o planned. kept_by_others k c req o planned others)
        there

module _ {K : Kube} {C : Client K} {mine : ResourceId} (k : ResourceKind) (req : NamespacedName)
    (ne : requested k req ≢ mine) where
  -- A whole call for another resource is one of the others' sequences of client calls.
  pub others_call : {s t : C.State} → Steps (Acts C k req) s t → Steps (OthersAct C mine) s t
  others_call done = done
  others_call (step a rest) = step (act k req ne a) (others_call rest)
