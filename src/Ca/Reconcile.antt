-- ===== src/Ca/Reconcile.antt =====
-- `Reconcile` and `getCASecret` of internal/controller/chiaca_controller.go.
use chia_opera.Base.{
  ℕ, zero, suc, ◌*◌, String, ◌<>◌, Bool, true, false, Option, none, some, if◌then◌else◌,
}
use chia_opera.Kube.{Kube, service_account, role, role_binding, job}
use chia_opera.Api.Ca.{ChiaCa}
use chia_opera.Exec.{Exec, Signal, next, returns, Outcome, run, pure, ◌>>=◌, ◌>>◌}
use chia_opera.Client.{
  Client, NamespacedName, chia_ca, Return, client_error, Fetched, found, failed, ensure,
  update_ready,
}
use chia_opera.Ca.{
  assemble_ca_job, assemble_ca_service_account, assemble_ca_role, assemble_ca_role_binding,
}

abbrev pub ready : ChiaCa → ChiaCa
ready ca = record ca { status = record { ready = true } }

-- 10 * time.Second
abbrev pub pause : ℕ
pause = 10 * 1_000_000_000

module _ {K : Kube} (C : Client K) where
  -- The last two results of `getCASecret`.
  abbrev pub secret_result : Option C.Error → Bool × Option C.Error
  secret_result none = (false, none)
  secret_result (some e) = if C.is_not_found e then (true, none) else (false, some e)

  unfoldable pub get_ca_secret : ChiaCa → C.State → (Bool × Option C.Error) × C.State
  get_ca_secret ca s =
      let (r, t) =
        C.get_secret (record { namespace = ca.meta.namespace; name = ca.spec.secret }) s in
      (secret_result r, t)

  -- if err != nil { return ctrl.Result{}, err }
  abbrev pub after_query : Bool × Option C.Error → Signal (Return C) Bool
  after_query (not_found, none) = next not_found
  after_query (not_found, some e) = returns (C.zero_result, some (client_error e))

  unfoldable pub query : ChiaCa → Exec C.State (Return C) Bool
  query ca s = let (r, t) = get_ca_secret ca s in (after_query r, t)

  abbrev sleep : ℕ → Exec C.State (Return C) Unit
  sleep d s = (next tt, C.sleep d s)

  -- The loop over the iterations that are left.
  unfoldable pub wait_for_secret : ℕ → ChiaCa → Exec C.State (Return C) (Return C)
  unfolding query
  wait_for_secret zero ca = pure (C.zero_result, none)
  wait_for_secret (suc left) ca = do
    not_found ← query ca
    let rest : Exec C.State (Return C) (Return C) = wait_for_secret left ca
    if not_found then (do sleep pause; rest) else update_ready C chia_ca (ready ca)

  abbrev after_get_ca : Fetched C.Error ChiaCa → Signal (Return C) ChiaCa
  after_get_ca (found ca) = next ca
  after_get_ca (failed e) =
      if C.is_not_found e
      then returns (C.zero_result, none)
      else returns (C.zero_result, some (client_error e))

  unfoldable pub fetch_ca : NamespacedName → Exec C.State (Return C) ChiaCa
  fetch_ca req s = let (r, t) = C.get chia_ca req s in (after_get_ca r, t)

  module _ (req : NamespacedName) where
    abbrev pub error_text : String → String
    error_text what =
        "ChiaCAReconciler ChiaCA="
        <> (C.show_name req <> (" encountered error reconciling CA generator " <> (what <> ": ")))

    -- From the query for the CA secret on.
    unfoldable pub generate : ChiaCa → Exec C.State (Return C) (Return C)
    unfolding query
    generate ca = do
      not_found ← query ca
      if not_found
          then (do ensure C (error_text "Job") (job (assemble_ca_job K ca)); wait_for_secret 100 ca)
          else pure (C.zero_result, none)

    unfoldable pub body : Exec C.State (Return C) (Return C)
    unfolding fetch_ca
    body = do
      ca ← fetch_ca req
      ensure C (error_text "ServiceAccount") (service_account (assemble_ca_service_account ca))
      ensure C (error_text "Role") (role (assemble_ca_role ca))
      ensure C (error_text "RoleBinding") (role_binding (assemble_ca_role_binding ca))
      generate ca

    unfoldable pub reconcile : C.State → Outcome (Return C) × C.State
    unfolding body
    reconcile = run body
