-- ===== src/Plan.antt =====
-- The contract of a component's `Reconcile`: a plan of objects, and a big-step relation that says
-- how a run over the plan may go, over any client.
pub mod Keys
pub mod Holds
pub mod Reached
pub mod Owned
pub mod Fetched
pub mod Settled
use chia_opera.Base.{
  String, ◌<>◌, ◌≡◌, refl, Option, none, some, List, [], ◌∷◌, Eval, value, panic, bind_eval, Panic,
}
use chia_opera.Kube.{Kube, Object}
use chia_opera.Common.{or_zero}
use chia_opera.Exec.{Exec, eval, Outcome, returned, panicked, run, outcome, continue, ◌>>=◌, ◌>>◌}
use chia_opera.Client.{
  Client, ResourceKind, Resource, Return, Failure, client_error, errorf, after_reconcile,
  after_update, ensure, update_ready,
}

-- The text of the error that a failed call is reported with, and the object, whose assembly may
-- panic.
abbrev pub Plan : Kube → Type 0
Plan K = List (String × Eval (Object K))

module _ {K : Kube} (C : Client K) (end : Exec C.State (Return C) (Return C)) where
  -- A run from a state to an outcome and a state. Objects are applied in the plan's order; the run
  -- stops at the first error and at the first panic; what is at the end of the method comes after
  -- the last object.
  pub data Runs : Plan K → C.State → Outcome (Return C) → C.State → Type 0 where
    ends : {s t : C.State} {out : Outcome (Return C)} → run end s ≡ (out, t) → Runs [] s out t
    applies :
        {text : String} {object : Object K} {rest : Plan K} {s t u : C.State}
        {out : Outcome (Return C)} {res : Option C.Result}
        → C.reconcile_resource object s ≡ ((res, none), t)
        → Runs rest t out u
        → Runs ((text, value object) ∷ rest) s out u
    fails :
        {text : String} {object : Object K} {rest : Plan K} {s t : C.State}
        {out : Outcome (Return C)} {res : Option C.Result} {e : C.Error}
        → C.reconcile_resource object s ≡ ((res, some e), t)
        → out ≡ returned (or_zero C.zero_result res, some (errorf (text <> C.message e)))
        → Runs ((text, value object) ∷ rest) s out t
    aborts :
        {text : String} {p : Panic} {rest : Plan K} {s : C.State} {out : Outcome (Return C)}
        → out ≡ panicked p
        → Runs ((text, panic p) ∷ rest) s out s

  -- The statements over a plan.
  unfoldable pub follow : Plan K → Exec C.State (Return C) (Return C)
  follow [] = end
  follow ((text, object) ∷ rest) = do o ← eval object; ensure C text o; follow rest

  -- A step whose object is assembled first.
  pub follow-assembled :
      {A : Type 0} (text : String) (f : A → Object K) (m : Eval A) (rest : Plan K)
      → follow ((text, bind_eval m (λ a. value (f a))) ∷ rest)
        ≡ (do a ← eval m; ensure C text (f a); follow rest)
  unfolding follow
  follow-assembled text f (value a) rest = refl
  follow-assembled text f (panic p) rest = refl

  ensured-Runs :
      (text : String) (object : Object K) (rest : Plan K) (s t : C.State) (res : Option C.Result)
      (err : Option C.Error)
      → C.reconcile_resource object s ≡ ((res, err), t)
      → Runs rest t (run (follow rest) t).0 (run (follow rest) t).1
      → let end = continue (after_reconcile C text (res, err)) (λ _. follow rest) t in
        Runs ((text, value object) ∷ rest) s (outcome end.0) end.1
  ensured-Runs text object rest s t res none e ih = applies e ih
  ensured-Runs text object rest s t res (some err) e ih = fails e refl

  -- They go as the relation says.
  pub follow-Runs :
      (plan : Plan K) (s : C.State) → Runs plan s (run (follow plan) s).0 (run (follow plan) s).1
  unfolding follow ensure
  follow-Runs [] s = ends refl
  follow-Runs ((text, panic p) ∷ rest) s = aborts refl
  follow-Runs ((text, value object) ∷ rest) s =
      let (r, t) = C.reconcile_resource object s in
      ensured-Runs text object rest s t r.0 r.1 refl (follow-Runs rest t)
