-- ===== src/Ca/Wait.antt =====
-- The loop that waits for the CA secret, and what `Reconcile` makes of a secret that is there.
use chia_opera.Base.{ℕ, zero, suc, ◌<◌, Bool, true, false, Option, none, some, ◌≡◌, refl, arith}
use chia_opera.Kube.{Kube}
use chia_opera.Api.Ca.{ChiaCa}
use chia_opera.Exec.{Outcome, returned, run}
use chia_opera.Client.{Client, chia_ca, Return, client_error, update_ready}
use chia_opera.Ca.Reconcile.{ready, pause, get_ca_secret, wait_for_secret}

module _ {K : Kube} (C : Client K) (ca : ChiaCa) where
  -- The state after a number of rounds, each a query and a pause.
  abbrev pub after_rounds : ℕ → C.State → C.State
  after_rounds zero s = s
  after_rounds (suc n) s = after_rounds n (C.sleep pause (get_ca_secret C ca s).1)

  -- The secret is not found in any of the first rounds.
  abbrev pub IsAbsentFor : ℕ → C.State → Type 0
  IsAbsentFor zero s = Unit
  IsAbsentFor (suc n) s =
      ((get_ca_secret C ca s).0 ≡ (true, none))
      × IsAbsentFor n (C.sleep pause (get_ca_secret C ca s).1)

  -- What the loop does with an answer that ends it.
  abbrev pub conclude : Bool × Option C.Error → C.State → Outcome (Return C) × C.State
  conclude (not_found, some e) t = (returned (C.zero_result, some (client_error e)), t)
  conclude (not_found, none) t = run (update_ready C chia_ca (ready ca)) t

  abbrev pub EndsWait : Bool × Option C.Error → Type 0
  EndsWait (true, none) = ⊥
  EndsWait (_, _) = Unit

  -- A loop that finds the secret in none of its rounds returns no error after all the pauses, and has
  -- written no status: the state is the one that the queries and the pauses leave.
  pub wait_for_secret_absent :
      (rounds : ℕ) (s : C.State)
      → IsAbsentFor rounds s
      → run (wait_for_secret C rounds ca) s
        ≡ (returned (C.zero_result, none), after_rounds rounds s)
  unfolding wait_for_secret
  wait_for_secret_absent zero s h = refl
  wait_for_secret_absent (suc rounds) s h = rw h.0 (wait_for_secret_absent rounds _ h.1)

  first_answer :
      (rounds : ℕ) (s : C.State) (answer : Bool × Option C.Error)
      → EndsWait answer
      → (get_ca_secret C ca s).0 ≡ answer
      → run (wait_for_secret C (suc rounds) ca) s ≡ conclude answer (get_ca_secret C ca s).1
  unfolding wait_for_secret update_ready
  first_answer rounds s (true, none) h e = absurd h
  first_answer rounds s (false, none) h e = rw e (ground arith)
  first_answer rounds s (true, some err) h e = rw e
  first_answer rounds s (false, some err) h e = rw e

  -- A loop whose first answer other than "not found" comes in a round that it still has ends in that
  -- round: on an error it returns the error, and on a secret it writes the ready status.
  pub wait_for_secret_answered :
      (rounds n : ℕ) (s : C.State) (answer : Bool × Option C.Error)
      → n < rounds
      → IsAbsentFor n s
      → EndsWait answer
      → (get_ca_secret C ca (after_rounds n s)).0 ≡ answer
      → run (wait_for_secret C rounds ca) s
        ≡ conclude answer (get_ca_secret C ca (after_rounds n s)).1
  unfolding wait_for_secret
  wait_for_secret_answered zero n s answer lt h w e = absurd (omega arith)
  wait_for_secret_answered (suc rounds) zero s answer lt h w e = first_answer rounds s answer w e
  wait_for_secret_answered (suc rounds) (suc n) s answer lt h w e =
      rw h.0 (wait_for_secret_answered rounds n _ answer (omega arith) h.1 w e)
