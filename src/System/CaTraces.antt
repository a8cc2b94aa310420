-- ===== src/System/CaTraces.antt =====
-- A call of `Reconcile` for a ChiaCA is a sequence of client calls, the wait for the secret included.
use chia_opera.Base.{
  ℕ, zero, suc, ◌≡◌, refl, sym, ap, subst, Bool, true, false, Option, none, some, Memᴰ-append, inl,
  inr,
}
use chia_opera.Kube.{Kube, Object}
use chia_opera.Api.Ca.{ChiaCa}
use chia_opera.Exec.{Outcome, returned, run}
use chia_opera.Client.{Client, NamespacedName, Return, found, chia_ca, client_error, update_ready}
use chia_opera.Ca.Reconcile.{ready, pause, get_ca_secret, wait_for_secret, generate}
use chia_opera.Ca.Generate.{plan, job_plan, Follows, Answers, generate-Answers}
use chia_opera.System.{plan_of}
use chia_opera.System.Apart.{id_of, requested, IsPlanned}
use chia_opera.System.Acts.{Acts, done, step}
use chia_opera.System.Traces.{Trace, Runs-Trace, ended-Trace}

module _ {K : Kube} (C : Client K) (req : NamespacedName) (ca : ChiaCa) where
  abbrev CaTrace : C.State → C.State → Type 0
  CaTrace = Trace C chia_ca req

  -- A state that is named in two ways.
  end_of :
      {r : Outcome (Return C) × C.State} {out : Outcome (Return C)} {s t : C.State}
      → r ≡ (out, t)
      → CaTrace s r.1
      → CaTrace s t
  end_of e p = subst (CaTrace _) (ap (λ (r : Outcome (Return C) × C.State). r.1) e) p

  query-step : (s : C.State) → Acts C chia_ca req s (get_ca_secret C ca s).1
  unfolding get_ca_secret
  query-step s = Acts.queries (record { namespace = ca.meta.namespace; name = ca.spec.secret }) refl

  -- What the loop does with an answer.
  abbrev pub after_answer : ℕ → Bool × Option C.Error → C.State → Outcome (Return C) × C.State
  after_answer left (_, some e) t = (returned (C.zero_result, some (client_error e)), t)
  after_answer left (true, none) t = run (wait_for_secret C left ca) (C.sleep pause t)
  after_answer left (false, none) t = run (update_ready C chia_ca (ready ca)) t

  pub wait-after_answer :
      (left : ℕ) (s t : C.State) (answer : Bool × Option C.Error)
      → get_ca_secret C ca s ≡ (answer, t)
      → run (wait_for_secret C (suc left) ca) s ≡ after_answer left answer t
  unfolding wait_for_secret
  wait-after_answer left s t (true, none) h = rw h
  wait-after_answer left s t (false, none) h = rw h
  wait-after_answer left s t (true, some e) h = rw h
  wait-after_answer left s t (false, some e) h = rw h

  answer-Trace :
      (left : ℕ)
      → ((s : C.State) → CaTrace s (run (wait_for_secret C left ca) s).1)
      → (answer : Bool × Option C.Error) (t : C.State) → CaTrace t (after_answer left answer t).1
  answer-Trace left ih (true, some e) t = done
  answer-Trace left ih (false, some e) t = done
  answer-Trace left ih (true, none) t = step (Acts.sleeps pause refl) (ih (C.sleep pause t))
  answer-Trace left ih (false, none) t = ended-Trace C chia_ca req (ready ca) t _ _ refl

  wait-Trace : (left : ℕ) (s : C.State) → CaTrace s (run (wait_for_secret C left ca) s).1
  unfolding wait_for_secret
  wait-Trace zero s = done
  wait-Trace (suc left) s =
      let (answer, t) = get_ca_secret C ca s in
      step (query-step s) (
        end_of (sym (wait-after_answer left s t answer refl))
          (answer-Trace left (wait-Trace left) answer t))

  module _ (named : id_of K chia_ca ca ≡ requested chia_ca req) where
    IsPlanned-job :
        (o : Object K) → IsPlanned o (job_plan C req ca) → IsPlanned o (plan_of C chia_ca req ca)
    unfolding plan_of
    IsPlanned-job o (text, m) = (text, (Memᴰ-append _ _ _).1 (inr m))

    IsPlanned-before :
        (o : Object K) → IsPlanned o (plan C req ca) → IsPlanned o (plan_of C chia_ca req ca)
    unfolding plan_of
    IsPlanned-before o (text, m) = (text, (Memᴰ-append _ _ _).1 (inl m))

    Answers-Trace :
        (answer : Bool × Option C.Error) (t : C.State) (end : Outcome (Return C) × C.State)
        → Answers C req ca answer t end
        → CaTrace t end.1
    Answers-Trace (true, some e) t end h = end_of (sym h) done
    Answers-Trace (false, some e) t end h = end_of (sym h) done
    Answers-Trace (false, none) t end h = end_of (sym h) done
    Answers-Trace (true, none) t end runs =
        Runs-Trace C chia_ca req ca named (λ s u out e. end_of e (wait-Trace 100 s)) IsPlanned-job
          runs

    generate-Trace : (s : C.State) → CaTrace s (run (generate C req ca) s).1
    generate-Trace s =
        let (answer, t) = get_ca_secret C ca s in
        step (query-step s) (Answers-Trace answer t _ (generate-Answers C req ca s t answer refl))

    pub found-Trace :
        (t : C.State) (end : Outcome (Return C) × C.State)
        → Follows C req (found ca) t end
        → CaTrace t end.1
    found-Trace t end runs =
        Runs-Trace C chia_ca req ca named (λ s u out e. end_of e (generate-Trace s))
          IsPlanned-before runs
