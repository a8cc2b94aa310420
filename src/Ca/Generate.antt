-- ===== src/Ca/Generate.antt =====
-- A whole call of `Reconcile` for a ChiaCA: the three objects of the generator, the query for the
-- secret, the job and the wait.
use chia_opera.Base.{
  ℕ, ◌<◌, true, false, Bool, Option, none, some, ◌≡◌, ◌∙◌, [], ◌∷◌, value, arith, if◌then◌else◌,
}
use chia_opera.Kube.{Kube, service_account, role, role_binding, job}
use chia_opera.Api.Ca.{ChiaCa}
use chia_opera.Exec.{Outcome, returned, run}
use chia_opera.Client.{
  Client, NamespacedName, chia_ca, Return, client_error, Fetched, found, failed, ensure,
  update_ready,
}
use chia_opera.Plan.{Plan, Runs, follow, follow-Runs}
use chia_opera.Plan.Holds.{IsLawful}
use chia_opera.Ca.{
  assemble_ca_job, assemble_ca_service_account, assemble_ca_role, assemble_ca_role_binding,
}
use chia_opera.Ca.Reconcile.{
  ready, get_ca_secret, query, wait_for_secret, error_text, generate, fetch_ca, reconcile,
}
use chia_opera.Ca.Wait.{after_rounds, IsAbsentFor, wait_for_secret_answered}

module _ {K : Kube} (C : Client K) (req : NamespacedName) where
  -- The objects before the query, in the order in which they are applied.
  unfoldable pub plan : ChiaCa → Plan K
  plan ca =
      (error_text C req "ServiceAccount", value (service_account (assemble_ca_service_account ca)))
      ∷ (error_text C req "Role", value (role (assemble_ca_role ca)))
      ∷ (error_text C req "RoleBinding", value (role_binding (assemble_ca_role_binding ca)))
      ∷ []

  -- The object behind the query.
  unfoldable pub job_plan : ChiaCa → Plan K
  job_plan ca = (error_text C req "Job", value (job (assemble_ca_job K ca))) ∷ []

  -- How a call goes on from what `Get` gives, in the state that `Get` leaves: over the objects before
  -- the query and then with the query; or to a return, with no call more, of no error where the ChiaCA
  -- is not found, and else of the error.
  abbrev pub Follows : Fetched C.Error ChiaCa → C.State → Outcome (Return C) × C.State → Type 0
  Follows (found ca) t end = Runs C (generate C req ca) (plan ca) t end.0 end.1
  Follows (failed e) t end =
      end ≡ (returned (C.zero_result, if C.is_not_found e then none else some (client_error e)), t)

  -- On every client, what `Get` gives decides the call. Once the ChiaCA is fetched, the service
  -- account, the role and the role binding are applied in order, the first error ends the call with
  -- it, and the query comes after the last. A ChiaCA that is not found ends the call with no error, and
  -- any other error is returned; then nothing is applied.
  pub ca-Follows :
      (s t : C.State) (r : Fetched C.Error ChiaCa)
      → C.get chia_ca req s ≡ (r, t)
      → Follows r t (reconcile C req s)
  unfolding reconcile fetch_ca plan follow
  ca-Follows s t (found ca) e = rw e (follow-Runs C (generate C req ca) (plan ca) t)
  ca-Follows s t (failed e) h = rw h (ground arith)

  -- How a call goes on from the answer to the query for the secret, in the state that the query
  -- leaves: an error is returned; where the secret is there, the call returns no error, with no call
  -- more, so that no ready status is written either; where it is not found, the call runs over the
  -- job, with the loop of a hundred rounds at its end.
  abbrev pub Answers :
      ChiaCa → Bool × Option C.Error → C.State → Outcome (Return C) × C.State → Type 0
  Answers ca (_, some e) t end = end ≡ (returned (C.zero_result, some (client_error e)), t)
  Answers ca (false, none) t end = end ≡ (returned (C.zero_result, none), t)
  Answers ca (true, none) t end = Runs C (wait_for_secret C 100 ca) (job_plan ca) t end.0 end.1

  -- On every client, the answer to the query for the secret decides the rest of the call: an error is
  -- returned; a secret that is there ends the call with no error and with nothing written; and where
  -- it is not found the job is applied, or its error returned, and the loop of a hundred rounds
  -- follows.
  pub generate-Answers :
      (ca : ChiaCa) (s t : C.State) (answer : Bool × Option C.Error)
      → get_ca_secret C ca s ≡ (answer, t)
      → Answers ca answer t (run (generate C req ca) s)
  unfolding generate query job_plan follow
  generate-Answers ca s t (true, none) h =
      rw h (follow-Runs C (wait_for_secret C 100 ca) (job_plan ca) t)
  generate-Answers ca s t (false, none) h = rw h
  generate-Answers ca s t (true, some err) h = rw h
  generate-Answers ca s t (false, some err) h = rw h

  generate-eq-wait :
      (ca : ChiaCa) (s t u : C.State) (res : Option C.Result)
      → get_ca_secret C ca s ≡ ((true, none), t)
      → C.reconcile_resource (job (assemble_ca_job K ca)) t ≡ ((res, none), u)
      → run (generate C req ca) s ≡ run (wait_for_secret C 100 ca) u
  unfolding generate query ensure
  generate-eq-wait ca s t u res h j = rw (h, j)

  -- Where the secret is missing, the job is applied and the secret appears within a hundred rounds,
  -- a call whose status update succeeds returns no error, and the ChiaCA is stored as ready.
  pub generate_ready :
      (L : IsLawful C) (ca : ChiaCa) (s t u v : C.State) (res : Option C.Result) (n : ℕ)
      → get_ca_secret C ca s ≡ ((true, none), t)
      → C.reconcile_resource (job (assemble_ca_job K ca)) t ≡ ((res, none), u)
      → n < 100
      → IsAbsentFor C ca n u
      → (get_ca_secret C ca (after_rounds C ca n u)).0 ≡ (false, none)
      → C.update_status chia_ca (ready ca) (get_ca_secret C ca (after_rounds C ca n u)).1
        ≡ (none, v)
      → (run (generate C req ca) s ≡ (returned (C.zero_result, none), v))
        × L.Stores chia_ca (ready ca) v
  unfolding update_ready
  generate_ready L ca s t u v res n h j lt absent there update = (
    generate-eq-wait ca s t u res h j
        ∙ (wait_for_secret_answered C ca 100 n u (false, none) lt absent tt there ∙ rw update),
    L.stored chia_ca (ready ca) _ v update,
  )
