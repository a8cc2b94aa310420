-- ===== src/Plan/Fetched.antt =====
-- A `Reconcile` method that gets its resource and then follows the plan of it.
use mathlib.Core.Option
use chia_opera.Base.{◌≡◌, none, arith, if◌then◌else◌}
use chia_opera.Kube.{Kube}
use chia_opera.Exec.{Exec, Outcome, returned, run, ◌>>=◌}
use chia_opera.Client.{
  Client, NamespacedName, ResourceKind, Resource, Fetched, found, failed, Return, client_error,
  fetch, update_ready,
}
use chia_opera.Plan.{Plan, Runs, follow, follow-Runs}

module _ {K : Kube} (C : Client K) (k : ResourceKind) (ready : Resource K k → Resource K k)
    (plan : Resource K k → Plan K) where
  -- How a call goes on from what `Get` gives, in the state that `Get` leaves: over the plan of the
  -- resource, with the ready status at its end; or to a return, with no call more, of no error where
  -- the resource is not found, and else of what `IgnoreNotFound` leaves of the error.
  abbrev pub Follows :
      Fetched C.Error (Resource K k) → C.State → Outcome (Return C) × C.State → Type 0
  Follows (found cr) t end = Runs C (update_ready C k (ready cr)) (plan cr) t end.0 end.1
  Follows (failed e) t end = end ≡ (
    returned (
      C.zero_result,
      if C.is_not_found e then none else Option.map client_error (C.ignore_not_found e),
    ),
    t,
  )

  module _ (req : NamespacedName) {rest : Resource K k → Exec C.State (Return C) (Return C)}
      (follows : (cr : Resource K k)
        → rest cr ≡ follow C (update_ready C k (ready cr)) (plan cr)) where
    pub fetch-Follows :
        (s t : C.State) (r : Fetched C.Error (Resource K k))
        → C.get k req s ≡ (r, t)
        → Follows r t (run (fetch C k req >>= rest) s)
    unfolding fetch
    fetch-Follows s t (found cr) e =
        rw (e, follows cr) (follow-Runs C (update_ready C k (ready cr)) (plan cr) t)
    fetch-Follows s t (failed e) h = rw h (ground arith)
