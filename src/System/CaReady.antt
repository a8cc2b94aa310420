-- ===== src/System/CaReady.antt =====
-- A whole call for a ChiaCA on a cluster whose calls do not fail and whose generator works.
use chia_opera.Base.{
  ℕ, zero, suc, ◌<◌, ◌≡◌, ◌≢◌, refl, sym, ap, subst, Bool, true, false, Option, none, some, value,
  All, All-imp, All-append, All-listed, All-at, String, Eval,
}
use chia_opera.Kube.{Kube, Object, job}
use chia_opera.Api.Ca.{ChiaCa}
use chia_opera.Exec.{Outcome, returned, run}
use chia_opera.Client.{Client, NamespacedName, Return, found, chia_ca, client_error}
use chia_opera.Plan.{Plan}
use chia_opera.Plan.Keys.{key}
use chia_opera.Plan.Holds.{IsLawful, IsHealthy}
use chia_opera.Plan.Reached.{AllIn}
use chia_opera.Ca.{assemble_ca_job}
use chia_opera.Ca.Reconcile.{ready, pause, get_ca_secret, generate, reconcile}
use chia_opera.Ca.Wait.{after_rounds, IsAbsentFor}
use chia_opera.Ca.Generate.{plan, job_plan, generate_ready, generate-Answers}
use chia_opera.Ca.Prepared.{ca_prepared}
use chia_opera.System.{plan_of}
use chia_opera.System.Acts.{KeepsByReading}

module _ {K : Kube} {C : Client K} (L : IsLawful C) (ca : ChiaCa) where
  -- Wherever the job is in the cluster, the secret appears in one of the hundred rounds: what the
  -- image of the job is for.
  abbrev pub GeneratorWorks : Type 0
  GeneratorWorks =
      (u : C.State)
      → L.Holds (job (assemble_ca_job K ca)) u
      → (n : ℕ) × (n < 100)
        × IsAbsentFor C ca n u
        × ((get_ca_secret C ca (after_rounds C ca n u)).0 ≡ (false, none))

  -- How the call goes on from the answer to the query.
  abbrev pub Concludes :
      NamespacedName → Bool × Option C.Error → C.State → Outcome (Return C) × C.State → Type 0
  Concludes req (_, some e) v end = end ≡ (returned (C.zero_result, some (client_error e)), v)
  Concludes req (false, none) v end =
      (end ≡ (returned (C.zero_result, none), v)) × AllIn L (plan C req ca) v
  Concludes req (true, none) v end =
      (end.0 ≡ returned (C.zero_result, none))
      × AllIn L (plan_of C chia_ca req ca) end.1
      × L.Stores chia_ca (ready ca) end.1

  module _ (reading : KeepsByReading L) (o : Object K) where
    pub kept_by_query : (s : C.State) → L.Holds o s → L.Holds o (get_ca_secret C ca s).1
    unfolding get_ca_secret
    kept_by_query s h = reading.kept_by_get_secret o _ s _ _ refl h

    kept_after_rounds : (n : ℕ) (s : C.State) → L.Holds o s → L.Holds o (after_rounds C ca n s)
    kept_after_rounds zero s h = h
    kept_after_rounds (suc n) s h =
        kept_after_rounds n _ (reading.kept_by_sleep o pause _ _ refl (kept_by_query s h))

module _ {K : Kube} {C : Client K} (L : IsLawful C) (reading : KeepsByReading L) (H : IsHealthy C)
    (req : NamespacedName) (ca : ChiaCa) where
  abbrev the_job : Object K
  the_job = job (assemble_ca_job K ca)

  job_applied :
      (s : C.State)
      → C.reconcile_resource the_job s
        ≡ (((C.reconcile_resource the_job s).0.0, none), (C.reconcile_resource the_job s).1)
  job_applied s =
      let r = C.reconcile_resource the_job s in
      ap (λ (e : Option C.Error). ((r.0.0, e), r.1)) (H.reconciles the_job s)

  status_written :
      (s : C.State)
      → C.update_status chia_ca (ready ca) s ≡ (none, (C.update_status chia_ca (ready ca) s).1)
  status_written s =
      let r = C.update_status chia_ca (ready ca) s in
      ap (λ (e : Option C.Error). (e, r.1)) (H.updates chia_ca (ready ca) s)

  -- No object before the query is a job.
  not_jobs : All (λ step. (o : Object K) → step.1 ≡ value o → key o ≢ key the_job) (plan C req ca)
  unfolding plan
  not_jobs = ((λ o e. cc e), ((λ o e. cc e), ((λ o e. cc e), tt)))

  -- From the state after the job on.
  keep_all :
      (n : ℕ) (w x : C.State) (p : Plan K)
      → C.update_status chia_ca (ready ca) (get_ca_secret C ca (after_rounds C ca n w)).1
        ≡ (none, x)
      → AllIn L p w
      → AllIn L p x
  keep_all n w x p e h =
      All-imp
        (λ step held.
          let (o, same, holds) = held in
          (
            o,
            same,
            L.kept_by_status o chia_ca (ready ca) _ x none e
                (kept_by_query L ca reading o _ (kept_after_rounds L ca reading o n w holds)),
          ))
        p h

  before_job :
      (u w : C.State) (r : Option C.Result × Option C.Error)
      → C.reconcile_resource the_job (get_ca_secret C ca u).1 ≡ (r, w)
      → AllIn L (plan C req ca) u
      → AllIn L (plan C req ca) w
  before_job u w r e h =
      All-listed (λ step. (o : Object K) × (step.1 ≡ value o) × L.Holds o u) (plan C req ca) h
        (λ step listed held.
          let (o, same, holds) = held in
          (
            o,
            same,
            L.kept o the_job _ w r
                (All-at
                  (λ (step : String × Eval (Object K)).
                    (o : Object K) → step.1 ≡ value o → key o ≢ key the_job)
                  not_jobs listed o same)
                e (kept_by_query L ca reading o u holds),
          ))

  generated :
      GeneratorWorks L ca
      → (u v : C.State) (answer : Bool × Option C.Error) → get_ca_secret C ca u ≡ (answer, v)
      → AllIn L (plan C req ca) u
      → Concludes L ca req answer v (run (generate C req ca) u)
  unfolding plan_of job_plan
  generated works u v (true, some e) h all = generate-Answers C req ca u v _ h
  generated works u v (false, some e) h all = generate-Answers C req ca u v _ h
  generated works u v (false, none) h all = (
    generate-Answers C req ca u v _ h,
    All-imp
        (λ step held.
          let (o, same, holds) = held in
          (
            o,
            same,
            subst (L.Holds o) (ap (λ (r : (Bool × Option C.Error) × C.State). r.1) h)
                (kept_by_query L ca reading o u holds),
          ))
        (plan C req ca) all,
  )
  generated works u v (true, none) h all =
      let w = (C.reconcile_resource the_job v).1 in
      let held : L.Holds the_job w = L.applied the_job v w _ (job_applied v) in
      let (n, lt, absent, there) = works w held in
      let at_secret = (get_ca_secret C ca (after_rounds C ca n w)).1 in
      let x = (C.update_status chia_ca (ready ca) at_secret).1 in
      let (ended, stores) =
        generate_ready C req L ca u v w x _ n h (job_applied v) lt absent there
          (status_written at_secret) in
      let before =
        before_job u w (C.reconcile_resource the_job v).0
          (ap (λ (r : (Bool × Option C.Error) × C.State). C.reconcile_resource the_job r.1) h)
          all in
      let whole : AllIn L (plan_of C chia_ca req ca) w =
        All-append _ (plan C req ca) (job_plan C req ca) before ((the_job, refl, held), tt) in
      (
        ap (λ (r : Outcome (Return C) × C.State). r.0) ended,
        subst (AllIn L (plan_of C chia_ca req ca))
            (sym (ap (λ (r : Outcome (Return C) × C.State). r.1) ended))
            (keep_all n w x (plan_of C chia_ca req ca) (status_written at_secret) whole),
        subst (L.Stores chia_ca (ready ca))
            (sym (ap (λ (r : Outcome (Return C) × C.State). r.1) ended)) stores,
      )

  pub ca_converges :
      GeneratorWorks L ca
      → (s t : C.State) → C.get chia_ca req s ≡ (found ca, t)
      → (u : C.State) × AllIn L (plan C req ca) u
        × Concludes L ca req (get_ca_secret C ca u).0 (get_ca_secret C ca u).1 (reconcile C req s)
  ca_converges works s t e =
      let (u, all, same) = ca_prepared C req ca L H s t e in
      (
        u,
        all,
        subst (Concludes L ca req (get_ca_secret C ca u).0 (get_ca_secret C ca u).1) same
            (generated works u _ _ refl all),
      )
