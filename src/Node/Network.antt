-- ===== src/Node/Network.antt =====
-- The network that a node is for: getFullNodePort and getChiaNodeEnv of
-- internal/controller/chianode_controller.go.
use chia_opera.Base.{
  String, ◌≡◌, refl, ap, Bool, true, false, Option, none, some, List, [], ◌∷◌, inl, inr, ◌↔◌, ◌⊎◌,
  arith, Memᴰ, head, tail, nth, ne_of_nth,
}
use mathlib.Core.List.Memᴰ
use chia_opera.Kube.{Kube, EnvVar}
use chia_opera.Api.Node.{ChiaNode}
use chia_opera.Common.{env_if_set, env_testnet}
use chia_opera.Common.Env.{env_if_set-cases}
use chia_opera.Node.{
  mainnet_node_port, testnet_node_port, port_of, get_full_node_port, get_chia_node_env,
}

abbrev pub testnet_variable : EnvVar
testnet_variable = record { name = "testnet"; value = "true" }

-- The variable is none of the optional ones behind it.
not_behind :
    (timezone log_level : Option String)
    → ¬ Memᴰ testnet_variable (env_if_set "TZ" timezone (env_if_set "log_level" log_level []))
unfolding nth
not_behind timezone log_level m = elim (env_if_set-cases testnet_variable _ "TZ" timezone m) [
  | inl e ↦ ne_of_nth 0 "testnet" "TZ" refl refl (omega arith) e
  | inr m' ↦ elim (env_if_set-cases testnet_variable _ "log_level" log_level m') [
    | inl e ↦ ne_of_nth 0 "testnet" "log_level" refl refl (omega arith) e
    | inr m'' ↦ Memᴰ.not-nil m''
  ]
]

port_iff :
    (testnet : Option Bool) (rest : List EnvVar)
    → ¬ Memᴰ testnet_variable rest
    → (port_of testnet ≡ testnet_node_port) ↔ Memᴰ testnet_variable (env_testnet testnet rest)
unfolding port_of
port_iff none rest h = (λ e. absurd (omega arith), λ m. absurd (h m))
port_iff (some true) rest h = (λ e. head refl, λ m. refl)
port_iff (some false) rest h = (λ e. absurd (omega arith), λ m. absurd (h m))

-- Nor one of the four in front of it.
behind_front :
    (rest : List EnvVar)
    → Memᴰ testnet_variable (
        record { name = "service"; value = "node" }
        ∷ record { name = "CHIA_ROOT"; value = "/chia-data" }
        ∷ record { name = "keys"; value = "none" }
        ∷ record { name = "ca"; value = "/chia-ca" }
        ∷ rest)
    → Memᴰ testnet_variable rest
unfolding nth
behind_front rest (head e) =
    absurd (ne_of_nth 0 "testnet" "service" refl refl (omega arith) (ap (λ (x : EnvVar). x.name) e))
behind_front rest (tail (head e)) =
    absurd
      (ne_of_nth 0 "testnet" "CHIA_ROOT" refl refl (omega arith) (ap (λ (x : EnvVar). x.name) e))
behind_front rest (tail (tail (head e))) =
    absurd (ne_of_nth 0 "testnet" "keys" refl refl (omega arith) (ap (λ (x : EnvVar). x.name) e))
behind_front rest (tail (tail (tail (head e)))) =
    absurd (ne_of_nth 0 "testnet" "ca" refl refl (omega arith) (ap (λ (x : EnvVar). x.name) e))
behind_front rest (tail (tail (tail (tail m)))) = m

port_of-cases :
    (testnet : Option Bool)
    → (port_of testnet ≡ mainnet_node_port) ⊎ (port_of testnet ≡ testnet_node_port)
unfolding port_of
port_of-cases none = inl refl
port_of-cases (some true) = inr refl
port_of-cases (some false) = inl refl

module _ (K : Kube) (node : ChiaNode K) where
  -- The port for peers is that of the main network or that of the test network, and it is the latter
  -- exactly when the chia container has the variable `testnet` with the value `true`.
  pub testnet_agrees :
      ((get_full_node_port K node ≡ mainnet_node_port)
        ⊎ (get_full_node_port K node ≡ testnet_node_port))
      × ((get_full_node_port K node ≡ testnet_node_port)
          ↔ Memᴰ testnet_variable (get_chia_node_env K node))
  unfolding get_full_node_port get_chia_node_env
  testnet_agrees =
      let config = node.spec.chia_config in
      let (to, of) = port_iff config.testnet _ (not_behind config.timezone config.log_level) in
      (
        port_of-cases config.testnet,
        (λ e. tail (tail (tail (tail (to e)))), λ m. of (behind_front _ m)),
      )
