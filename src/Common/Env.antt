-- ===== src/Common/Env.antt =====
-- The optional environment variables of the component containers.
use chia_opera.Base.{
  String, ◌≡◌, Bool, true, false, Option, none, some, List, ap, inl, inr, ◌⊎◌, Memᴰ, head, tail,
}
use chia_opera.Kube.{EnvVar}
use chia_opera.Common.{env_if_set, env_testnet}

module _ (e : EnvVar) (rest : List EnvVar) where
  -- What comes behind an optional variable stays listed …
  pub Memᴰ-env_if_set :
      (name : String) (o : Option String) → Memᴰ e rest → Memᴰ e (env_if_set name o rest)
  Memᴰ-env_if_set name none m = m
  Memᴰ-env_if_set name (some v) m = tail m

  pub Memᴰ-env_testnet : (testnet : Option Bool) → Memᴰ e rest → Memᴰ e (env_testnet testnet rest)
  Memᴰ-env_testnet none m = m
  Memᴰ-env_testnet (some true) m = tail m
  Memᴰ-env_testnet (some false) m = m

  -- … and nothing else is, but for the variable itself.
  pub env_if_set-cases :
      (name : String) (o : Option String)
      → Memᴰ e (env_if_set name o rest)
      → (e.name ≡ name) ⊎ Memᴰ e rest
  env_if_set-cases name none m = inr m
  env_if_set-cases name (some v) (head h) = inl (ap (λ (x : EnvVar). x.name) h)
  env_if_set-cases name (some v) (tail m) = inr m
