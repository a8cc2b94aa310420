-- ===== src/System/Traces.antt =====
-- Every call of `Reconcile` is a sequence of the client calls that it is allowed.
use chia_opera.Base.{◌≡◌, refl, sym, ap, subst, head, tail}
use chia_opera.Kube.{Kube, Object}
use chia_opera.Exec.{Exec, Outcome, run}
use chia_opera.Client.{
  Client, NamespacedName, ResourceKind, Resource, Return, Fetched, found, failed, update_ready,
}
use chia_opera.Plan.{Plan, Runs, ends, applies, fails, aborts}
use chia_opera.Plan.Fetched.{Follows}
use chia_opera.Plan.Holds.{update-state}
use chia_opera.Ca.Reconcile.{ready}
use chia_opera.System.{plan_of}
use chia_opera.System.Apart.{id_of, requested, IsPlanned}
use chia_opera.System.Acts.{Acts, Steps, done, step, IsAddressed}

module _ {K : Kube} (C : Client K) (k : ResourceKind) (req : NamespacedName) where
  abbrev pub Trace : C.State → C.State → Type 0
  Trace = Steps (Acts C k req)

  module _ (cr : Resource K k) (named : id_of K k cr ≡ requested k req)
      {end : Exec C.State (Return C) (Return C)}
      (at_end : (s t : C.State) (out : Outcome (Return C)) → run end s ≡ (out, t) → Trace s t) where
    pub Runs-Trace :
        {plan : Plan K} {s t : C.State} {out : Outcome (Return C)}
        → ((o : Object K) → IsPlanned o plan → IsPlanned o (plan_of C k req cr))
        → Runs C end plan s out t
        → Trace s t
    Runs-Trace f (ends e) = at_end _ _ _ e
    Runs-Trace f (applies {text = text} {object = o} e r) =
        step (Acts.applies cr o named (f o (text, head refl)) e)
          (Runs-Trace (λ p m. f p (m.0, tail m.1)) r)
    Runs-Trace f (fails {text = text} {object = o} e out) =
        step (Acts.applies cr o named (f o (text, head refl)) e) done
    Runs-Trace f (aborts out) = done

  pub ended-Trace :
      (cr : Resource K k) (s t : C.State) (out : Outcome (Return C))
      → run (update_ready C k cr) s ≡ (out, t)
      → Trace s t
  ended-Trace cr s t out e = step (Acts.updates cr (update-state C k cr s t out e)) done

  pub Follows-Trace :
      (named : IsAddressed C) (ready : Resource K k → Resource K k) (s t : C.State)
      (r : Fetched C.Error (Resource K k)) (end : Outcome (Return C) × C.State)
      → C.get k req s ≡ (r, t)
      → Follows C k ready (plan_of C k req) r t end
      → Trace s end.1
  Follows-Trace named ready s t (found cr) end e runs =
      step (Acts.gets e)
        (Runs-Trace cr (named k req cr s t e) (ended-Trace (ready cr)) (λ o m. m) runs)
  Follows-Trace named ready s t (failed err) end e runs =
      step (Acts.gets e)
        (subst (Trace t) (sym (ap (λ (r : Outcome (Return C) × C.State). r.1) runs)) done)
