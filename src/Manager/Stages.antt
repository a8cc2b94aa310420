-- ===== src/Manager/Stages.antt =====
-- The stages of `main` behind the flags: the first that fails ends the process.
use chia_opera.Base.{String, ℕ, ◌≡◌, refl, Option, none, some, List, [], ◌∷◌}
use chia_opera.Exec.{
  Signal, next, returns, panics, Outcome, returned, panicked, run, continue, pure, ◌>>◌,
}
use chia_opera.Client.{ResourceKind, chia_node, chia_farmer, chia_wallet, chia_harvester, chia_ca}
use chia_opera.Manager.{
  Platform, Process, options, attempt, setup_with_manager, init, parse, manage, main,
}

-- What is called, and what is logged of its error.
pub record Stage (P : Platform) : Type 0 where
  pub message : String
  pub values : List (String × String)
  pub action : P.State → Option P.Error × P.State

module _ (P : Platform) where
  -- The stages in their order, with exit code 0 behind the last; the first that fails is logged and
  -- ends the process with exit code 1.
  pub data Starts : List (Stage P) → P.State → Outcome ℕ → P.State → Type 0 where
    ends : {s : P.State} → Starts [] s (returned 0) s
    passes :
        {stage : Stage P} {rest : List (Stage P)} {s t u : P.State} {out : Outcome ℕ}
        → stage.action s ≡ (none, t)
        → Starts rest t out u
        → Starts (stage ∷ rest) s out u
    fails :
        {stage : Stage P} {rest : List (Stage P)} {s t u : P.State} {e : P.Error}
        → stage.action s ≡ (some e, t)
        → P.log_error stage.message stage.values e t ≡ u
        → Starts (stage ∷ rest) s (returned 1) u

  abbrev set_up_stage : String → ResourceKind → Stage P
  set_up_stage name k = record {
    message = "unable to create controller";
    values = ("controller", name) ∷ [];
    action = setup_with_manager P k;
  }

  abbrev pub stages : List (Stage P)
  stages =
      record {
        message = "unable to start manager";
        values = [];
        action = λ s. P.new_manager (options P s) s;
      }
      ∷ set_up_stage "ChiaNode" chia_node
      ∷ set_up_stage "ChiaFarmer" chia_farmer
      ∷ set_up_stage "ChiaHarvester" chia_harvester
      ∷ set_up_stage "ChiaCA" chia_ca
      ∷ set_up_stage "ChiaWallet" chia_wallet
      ∷ record {
        message = "unable to set up health check";
        values = [];
        action = P.add_healthz_check "healthz";
      }
      ∷ record {
        message = "unable to set up ready check";
        values = [];
        action = P.add_readyz_check "readyz";
      }
      ∷ record {
        message = "problem running manager";
        values = [];
        action = λ s. P.start (P.log_info "starting manager" s);
      }
      ∷ []

  attempts : List (Stage P) → Process P ℕ
  attempts [] = pure 0
  attempts (stage ∷ rest) = do attempt P stage.message stage.values stage.action; attempts rest

  attempted :
      (stage : Stage P) (rest : List (Stage P)) (s t : P.State) (r : Option P.Error)
      → ((u : P.State) → Starts rest u (run (attempts rest) u).0 (run (attempts rest) u).1)
      → stage.action s ≡ (r, t)
      → Starts
          (stage ∷ rest)
          s
          (run (attempts (stage ∷ rest)) s).0
          (run (attempts (stage ∷ rest)) s).1
  unfolding attempts attempt
  attempted stage rest s t none ih h = rw h (passes h (ih t))
  attempted stage rest s t (some e) ih h = rw h (fails h refl)

  attempts-Starts :
      (xs : List (Stage P)) (s : P.State)
      → Starts xs s (run (attempts xs) s).0 (run (attempts xs) s).1
  unfolding attempts
  attempts-Starts [] s = ends
  attempts-Starts (stage ∷ rest) s =
      let (r, t) = stage.action s in attempted stage rest s t r (attempts-Starts rest) refl

  -- How the process goes on from a part of it: with the rest, or to its end, in the state that the
  -- part leaves.
  abbrev pub Proceeds :
      Signal ℕ Unit
      → (P.State → Outcome ℕ × P.State → Type 0)
      → P.State
      → Outcome ℕ × P.State
      → Type 0
  Proceeds (next _) rest t end = rest t end
  Proceeds (returns code) rest t end = end ≡ (returned code, t)
  Proceeds (panics p) rest t end = end ≡ (panicked p, t)

  signalled :
      (k : Process P ℕ) (rest : P.State → Outcome ℕ × P.State → Type 0) (r : Signal ℕ Unit)
      (t : P.State)
      → ((u : P.State) → rest u (run k u))
      → Proceeds r rest t (run (λ (s : P.State). continue r (λ _. k) s) t)
  signalled k rest (next _) t h = h t
  signalled k rest (returns code) t h = refl
  signalled k rest (panics p) t h = refl

  proceeded :
      (k : Process P ℕ) (rest : P.State → Outcome ℕ × P.State → Type 0) (m : Process P Unit)
      (s : P.State)
      → ((t : P.State) → rest t (run k t))
      → Proceeds (m s).0 rest (m s).1 (run (m >> k) s)
  proceeded k rest m s h = signalled k rest (m s).0 (m s).1 h

  manage-Starts : (s : P.State) → Starts stages s (run (manage P) s).0 (run (manage P) s).1
  unfolding manage attempts
  manage-Starts s = attempts-Starts stages s

  -- On every platform, the process initialises itself, parses the flags and then goes through its
  -- stages: the manager is made, the controllers of nodes, farmers, harvesters, certificate
  -- authorities and wallets are set up in this order, both checks are added, and the manager is
  -- started. The first stage with an error has it logged and ends the process with exit code 1 and with no call
  -- more; the code is 0 behind the last. An exit or a panic before the stages ends the process as it is.
  pub main-Starts :
      (s : P.State)
      → Proceeds
          (init P s).0
          (λ t end. Proceeds (parse P t).0 (λ u end. Starts stages u end.0 end.1) (parse P t).1 end)
          (init P s).1
          (main P s)
  unfolding main
  main-Starts s =
      proceeded (parse P >> manage P)
        (λ t end. Proceeds (parse P t).0 (λ u end. Starts stages u end.0 end.1) (parse P t).1 end)
        (init P) s
        (λ t. proceeded (manage P) (λ u end. Starts stages u end.0 end.1) (parse P) t manage-Starts)
