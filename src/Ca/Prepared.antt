-- ===== src/Ca/Prepared.antt =====
-- The part of `Reconcile` before the query for the CA secret, on a cluster whose calls do not fail.
use chia_opera.Base.{◌≡◌, refl, [], ◌∷◌, value}
use chia_opera.Kube.{Kube, Object, service_account, role, role_binding}
use chia_opera.Api.Ca.{ChiaCa}
use chia_opera.Exec.{run}
use chia_opera.Client.{Client, NamespacedName, chia_ca, found}
use chia_opera.Plan.{Plan}
use chia_opera.Plan.Keys.{HasDistinctKeys, known_step, known_apart}
use chia_opera.Plan.Holds.{IsLawful, IsHealthy, IsAssembled}
use chia_opera.Plan.Reached.{AllIn, Runs-AllIn}
use chia_opera.Ca.{assemble_ca_service_account, assemble_ca_role, assemble_ca_role_binding}
use chia_opera.Ca.Reconcile.{generate, reconcile, error_text}
use chia_opera.Ca.Generate.{plan, ca-Follows}

module _ {K : Kube} (C : Client K) (req : NamespacedName) (ca : ChiaCa) where
  plan-HasDistinctKeys : HasDistinctKeys (plan C req ca)
  unfolding plan
  plan-HasDistinctKeys =
      let account : Object K = service_account (assemble_ca_service_account ca) in
      let r : Object K = role (assemble_ca_role ca) in
      let binding : Object K = role_binding (assemble_ca_role_binding ca) in
      let last : Plan K = (error_text C req "RoleBinding", value binding) ∷ [] in
      let later : Plan K = (error_text C req "Role", value r) ∷ last in
      (
        known_step account later
            (known_apart account r (λ e. cc), (known_apart account binding (λ e. cc), tt)),
        (known_step r last (known_apart r binding (λ e. cc), tt), ((λ p e. tt), tt)),
      )

  plan-IsAssembled : IsAssembled (plan C req ca)
  unfolding plan
  plan-IsAssembled = ((_, refl), ((_, refl), ((_, refl), tt)))

  -- On a lawful client whose calls do not fail, a call for a fetched ChiaCA reaches a state in which
  -- the service account, the role and the role binding are in the cluster, and then goes as from the
  -- query for the secret in that state.
  pub ca_prepared :
      (L : IsLawful C)
      → IsHealthy C
      → (s t : C.State) → C.get chia_ca req s ≡ (found ca, t)
      → (u : C.State) × AllIn L (plan C req ca) u × (run (generate C req ca) u ≡ reconcile C req s)
  ca_prepared L H s t e =
      Runs-AllIn L H (ca-Follows C req s t (found ca) e) plan-IsAssembled plan-HasDistinctKeys
