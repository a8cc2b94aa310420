-- ===== src/System/CaSettled.antt =====
-- A second call for the same ChiaCA, when its secret is there.
use chia_opera.Base.{
  ◌≡◌, refl, ap, sym, subst, ◌∙◌, Bool, true, false, Option, none, some, value, Memᴰ-append, inl,
}
use chia_opera.Kube.{Kube, Object}
use chia_opera.Api.Ca.{ChiaCa}
use chia_opera.Exec.{Outcome, returned}
use chia_opera.Client.{Client, NamespacedName, Return, found, chia_ca}
use chia_opera.Plan.Holds.{IsLawful, IsHealthy}
use chia_opera.Plan.Reached.{AllIn}
use chia_opera.Plan.Settled.{WritesOnlyChanges, Runs-ended}
use chia_opera.Ca.{
  assemble_ca_service_account, assemble_ca_role, assemble_ca_role_binding, object_meta,
  get_chia_ca_common_labels, get_chia_ca_owner_reference,
}
use chia_opera.Ca.Reconcile.{get_ca_secret, reconcile}
use chia_opera.Ca.Generate.{plan, job_plan, ca-Follows, generate-Answers}
use chia_opera.System.{plan_of}
use chia_opera.System.Apart.{id_of, IsPlanned}
use chia_opera.System.Acts.{Steps, KeepsByReading}
use chia_opera.System.Stays.{OthersAct, AllIn-kept, kept_by_others}
use chia_opera.System.CaReady.{GeneratorWorks, Concludes, kept_by_query, ca_converges}

module _ {K : Kube} (C : Client K) (req : NamespacedName) where
  -- The objects before the query depend on the meta data and the spec alone.
  plan_status : (c d : ChiaCa) → plan C req c ≡ plan C req (record c { status = d.status })
  unfolding plan assemble_ca_service_account assemble_ca_role assemble_ca_role_binding object_meta
      get_chia_ca_common_labels get_chia_ca_owner_reference
  plan_status c d = refl

  plan_spec : (c d : ChiaCa) → c.meta ≡ d.meta → c.spec ≡ d.spec → plan C req c ≡ plan C req d
  plan_spec c d m s =
      (λ i. plan C req (record { meta = m i; spec = s i; status = c.status }))
      ∙ sym (plan_status d c)

  before_query :
      (ca : ChiaCa) (o : Object K)
      → IsPlanned o (plan C req ca)
      → IsPlanned o (plan_of C chia_ca req ca)
  unfolding plan_of
  before_query ca o (text, m) =
      (text, (Memᴰ-append (text, value o) (plan C req ca) (job_plan C req ca)).1 (inl m))

module _ {K : Kube} {C : Client K} (L : IsLawful C) (reading : KeepsByReading L) (H : IsHealthy C)
    (idle : WritesOnlyChanges L) (req : NamespacedName) where
  planned_before :
      (c : ChiaCa) (u : C.State) → AllIn L (plan_of C chia_ca req c) u → AllIn L (plan C req c) u
  unfolding plan_of plan job_plan
  planned_before c u (account, (role, (binding, _))) = (account, (role, (binding, tt)))

  kept_at :
      (c : ChiaCa) (u : C.State) (answer : Bool × Option C.Error) (v w : C.State)
      → get_ca_secret C c u ≡ (answer, v)
      → w ≡ v
      → AllIn L (plan C req c) u
      → AllIn L (plan C req c) w
  kept_at c u answer v w e same = AllIn-kept L (plan C req c) u w (λ o _ h.
      subst (L.Holds o) (ap (λ (r : (Bool × Option C.Error) × C.State). r.1) e ∙ sym same)
        (kept_by_query L c reading o u h))

  -- After a call, however the query went, the objects before it are there.
  concluded :
      (c : ChiaCa) (u : C.State) (answer : Bool × Option C.Error) (v : C.State)
      (end : Outcome (Return C) × C.State)
      → get_ca_secret C c u ≡ (answer, v)
      → AllIn L (plan C req c) u
      → Concludes L c req answer v end
      → AllIn L (plan C req c) end.1
  concluded c u (true, none) v end e h (_, all, _) = planned_before c end.1 all
  concluded c u (false, none) v end e h (ends, all) =
      subst (AllIn L (plan C req c)) (sym (ap (λ (r : Outcome (Return C) × C.State). r.1) ends)) all
  concluded c u (true, some _) v end e h ends = kept_at c u _ v end.1 e (ap (λ r. r.1) ends) h
  concluded c u (false, some _) v end e h ends = kept_at c u _ v end.1 e (ap (λ r. r.1) ends) h

  settled :
      (d : ChiaCa) (u v : C.State)
      → C.get chia_ca req u ≡ (found d, v)
      → AllIn L (plan C req d) u
      → (get_ca_secret C d v).0 ≡ (false, none)
      → reconcile C req u ≡ (returned (C.zero_result, none), (get_ca_secret C d v).1)
  settled d u v e h there =
      let kept =
        AllIn-kept L (plan C req d) u v
          (λ o _ holds. reading.kept_by_get o chia_ca req u v (found d) e holds) h in
      let ended = Runs-ended L H idle (ca-Follows C req u v (found d) e) kept in
      let answer : get_ca_secret C d v ≡ ((false, none), (get_ca_secret C d v).1) =
        ap (λ (a : Bool × Option C.Error). (a, (get_ca_secret C d v).1)) there in
      sym ended ∙ generate-Answers C req d v _ (false, none) answer

  -- On a lawful client whose calls do not fail, on which reading and waiting keep the objects and
  -- which changes nothing to reconcile an object that is in the cluster as desired, and with a
  -- generator whose job, where it is in the cluster, has made the secret by one of the hundred rounds:
  -- let a call for a fetched ChiaCA be followed by any client calls of calls of `Reconcile` for
  -- resources of another kind, namespace or name, and then by a second call, which fetches the ChiaCA
  -- with the same meta data and spec, whatever its status, and queries the secret when it is there.
  -- The second call returns the zero result and no error, and does no more to the state than `Get` and
  -- the query; it writes no ready status either.
  pub second_ca_call :
      (c d : ChiaCa) (s t u v : C.State)
      → GeneratorWorks L c
      → C.get chia_ca req s ≡ (found c, t)
      → Steps (OthersAct C (id_of K chia_ca c)) (reconcile C req s).1 u
      → c.meta ≡ d.meta
      → c.spec ≡ d.spec
      → C.get chia_ca req u ≡ (found d, v)
      → (get_ca_secret C d v).0 ≡ (false, none)
      → reconcile C req u ≡ (returned (C.zero_result, none), (get_ca_secret C d v).1)
  second_ca_call c d s t u v works first others metas specs second there =
      let (w, all, conclusion) = ca_converges L reading H req c works s t first in
      let before = concluded c w _ _ (reconcile C req s) refl all conclusion in
      settled d u v second
        (subst (λ p. AllIn L p u) (plan_spec C req c d metas specs)
          (AllIn-kept L (plan C req c) (reconcile C req s).1 u
            (λ o planned.
              kept_by_others L reading chia_ca c req o (before_query C req c o planned) others)
            before))
        there
