-- ===== src/System/Bounded.antt =====
-- How many client calls a call of `Reconcile` makes at most, so that it ends whatever the cluster
-- answers, where the client's calls do.
use chia_opera.Base.{
  ℕ, zero, suc, ◌+◌, ◌*◌, ◌≤◌, ◌≡◌, refl, sym, ap, Bool, true, false, Option, none, some, List, [],
  ◌∷◌, arith,
}
use chia_opera.Kube.{Kube}
use chia_opera.Api.Ca.{ChiaCa}
use chia_opera.Exec.{Exec, Outcome, run}
use chia_opera.Client.{
  Client, NamespacedName, ResourceKind, Resource, Return, Fetched, found, failed, chia_node,
  chia_farmer, chia_wallet, chia_harvester, chia_ca, update_ready,
}
use chia_opera.Plan.{Plan, Runs, ends, applies, fails, aborts}
use chia_opera.Plan.Fetched.{Follows}
use chia_opera.Plan.Holds.{update-state}
use chia_opera.Node
use chia_opera.Farmer
use chia_opera.Wallet
use chia_opera.Harvester
use chia_opera.Ca
use chia_opera.Ca.Reconcile.{ready, pause, get_ca_secret, wait_for_secret, generate}
use chia_opera.Ca.Generate.{plan, job_plan, Answers, ca-Follows, generate-Answers}
use chia_opera.System.{reconcile_of, plan_of}
use chia_opera.System.CaTraces.{after_answer, wait-after_answer}
use chia_opera.System.Interleaved.{interleaved, moved}

abbrev pub size {ℓ} : {A : Type ℓ} → List A → ℕ
size [] = 0
size (x ∷ xs) = suc (size xs)

-- `Get`, the objects of the plan, and the status; for a ChiaCA `Get`, three objects, the query for the
-- secret, the job, and a query and a pause in each of the hundred rounds.
abbrev pub most_calls : ResourceKind → ℕ
most_calls chia_node = 7
most_calls chia_farmer = 5
most_calls chia_wallet = 5
most_calls chia_harvester = 5
most_calls chia_ca = 206

module _ {K : Kube} (C : Client K) (schedule : ℕ → C.State → C.State) where
  abbrev Counted : Client K
  Counted = interleaved C schedule

  -- One call is counted.
  one_call :
      {A : Type 0} (f : C.State → A × C.State) (s t : C.State × ℕ) {r : A}
      → moved C schedule f s ≡ (r, t)
      → t.1 ≡ suc s.1
  one_call f s t e = sym (ap (λ (r : _ × (C.State × ℕ)). r.1.1) e)

  module _ {end : Exec Counted.State (Return Counted) (Return Counted)} (b : ℕ)
      (at_end : (s t : C.State × ℕ) (out : Outcome (Return Counted))
        → run end s ≡ (out, t)
        → t.1 ≤ s.1 + b) where
    Runs-le :
        {plan : Plan K} {s t : C.State × ℕ} {out : Outcome (Return Counted)}
        → Runs Counted end plan s out t
        → t.1 ≤ s.1 + (size plan + b)
    Runs-le (ends {s = s} {t = t} {out = out} e) = omega (arith, at_end s t out e)
    Runs-le (applies {object = o} {s = s} {t = t} e r) =
        omega (arith, one_call (C.reconcile_resource o) s t e, Runs-le r)
    Runs-le (fails {object = o} {s = s} {t = t} e out) =
        omega (arith, one_call (C.reconcile_resource o) s t e)
    Runs-le (aborts out) = omega arith

  ended-le :
      (k : ResourceKind) (cr : Resource K k) (s t : C.State × ℕ) (out : Outcome (Return Counted))
      → run (update_ready Counted k cr) s ≡ (out, t)
      → t.1 ≤ s.1 + 1
  ended-le k cr s t out e =
      omega (arith, one_call (C.update_status k cr) s t (update-state Counted k cr s t out e))

  module _ (k : ResourceKind) (req : NamespacedName) where
    Follows-le :
        (ready : Resource K k → Resource K k) (b : ℕ)
        → ((cr : Resource K k) → size (plan_of Counted k req cr) ≡ b)
        → (s t : C.State × ℕ) (r : Fetched C.Error (Resource K k))
          (end : Outcome (Return Counted) × (C.State × ℕ))
        → moved C schedule (C.get k req) s ≡ (r, t)
        → Follows Counted k ready (plan_of Counted k req) r t end
        → end.1.1 ≤ s.1 + (b + 2)
    Follows-le ready b sized s t (found cr) end e runs =
        omega
          (arith, one_call (C.get k req) s t e, sized cr, Runs-le 1 (ended-le k (ready cr)) runs)
    Follows-le ready b sized s t (failed err) end e h =
        let same : end.1.1 ≡ t.1 = ap (λ (r : Outcome (Return Counted) × (C.State × ℕ)). r.1.1) h in
        omega (arith, one_call (C.get k req) s t e, same)

  module _ (req : NamespacedName) (ca : ChiaCa) where
    query-le : (s : C.State × ℕ) → (get_ca_secret Counted ca s).1.1 ≡ suc s.1
    unfolding get_ca_secret
    query-le s = refl

    answer-le :
        (left : ℕ)
        → ((s : C.State × ℕ) → (run (wait_for_secret Counted left ca) s).1.1 ≤ s.1 + 2 * left)
        → (answer : Bool × Option C.Error) (t : C.State × ℕ)
        → (after_answer Counted req ca left answer t).1.1 ≤ t.1 + (1 + 2 * left)
    answer-le left ih (true, some e) t = omega arith
    answer-le left ih (false, some e) t = omega arith
    answer-le left ih (true, none) t = omega (arith, ih (Counted.sleep pause t))
    answer-le left ih (false, none) t = omega (arith, ended-le chia_ca (ready ca) t _ _ refl)

    wait-le :
        (left : ℕ) (s : C.State × ℕ)
        → (run (wait_for_secret Counted left ca) s).1.1 ≤ s.1 + 2 * left
    unfolding wait_for_secret
    wait-le zero s = omega arith
    wait-le (suc left) s =
        let (answer, t) = get_ca_secret Counted ca s in
        let same = wait-after_answer Counted req ca left s t answer refl in
        let ended = ap (λ (r : Outcome (Return Counted) × (C.State × ℕ)). r.1.1) same in
        omega (arith, ended, query-le s, answer-le left (wait-le left) answer t)

    Answers-le :
        (answer : Bool × Option C.Error) (t : C.State × ℕ)
        (end : Outcome (Return Counted) × (C.State × ℕ))
        → Answers Counted req ca answer t end
        → end.1.1 ≤ t.1 + 201
    unfolding job_plan
    Answers-le (true, some e) t end h =
        omega (arith, ap (λ (r : Outcome (Return Counted) × (C.State × ℕ)). r.1.1) h)
    Answers-le (false, some e) t end h =
        omega (arith, ap (λ (r : Outcome (Return Counted) × (C.State × ℕ)). r.1.1) h)
    Answers-le (false, none) t end h =
        omega (arith, ap (λ (r : Outcome (Return Counted) × (C.State × ℕ)). r.1.1) h)
    Answers-le (true, none) t end runs =
        let most =
          Runs-le (2 * 100)
            (λ s u out e.
              let same = ap (λ (r : Outcome (Return Counted) × (C.State × ℕ)). r.1.1) e in
              omega (arith, same, wait-le 100 s))
            runs in
        omega (arith, most)

    generate-le :
        (s t : C.State × ℕ) (out : Outcome (Return Counted))
        → run (generate Counted req ca) s ≡ (out, t)
        → t.1 ≤ s.1 + 202
    generate-le s t out e =
        let (answer, u) = get_ca_secret Counted ca s in
        let same = ap (λ (r : Outcome (Return Counted) × (C.State × ℕ)). r.1.1) e in
        omega (
          arith,
          same,
          query-le s,
          Answers-le answer u _ (generate-Answers Counted req ca s u answer refl),
        )

  module _ (req : NamespacedName) where
    ca-le :
        (s t : C.State × ℕ) (r : Fetched C.Error ChiaCa)
        (end : Outcome (Return Counted) × (C.State × ℕ))
        → moved C schedule (C.get chia_ca req) s ≡ (r, t)
        → Ca.Generate.Follows Counted req r t end
        → end.1.1 ≤ s.1 + 206
    unfolding plan
    ca-le s t (found ca) end e runs =
        omega (arith, one_call (C.get chia_ca req) s t e, Runs-le 202 (generate-le req ca) runs)
    ca-le s t (failed err) end e h =
        let same : end.1.1 ≡ t.1 = ap (λ (r : Outcome (Return Counted) × (C.State × ℕ)). r.1.1) h in
        omega (arith, one_call (C.get chia_ca req) s t e, same)

    -- On every client, whatever it answers and whatever others do in between, a call of `Reconcile`
    -- makes at most seven client calls for a node, five for a farmer, a wallet or a harvester, and two
    -- hundred and six for a ChiaCA, a pause counted as a call.
    pub reconcile_of-le :
        (k : ResourceKind) (s : C.State × ℕ)
        → (reconcile_of Counted k req s).1.1 ≤ s.1 + most_calls k
    unfolding reconcile_of plan_of Node.Reconcile.plan Farmer.Reconcile.plan Wallet.Reconcile.plan
        Harvester.Reconcile.plan
    reconcile_of-le chia_node s =
        let (r, t) = Counted.get chia_node req s in
        Follows-le chia_node req Node.Reconcile.ready 5 (λ cr. refl) s t r _ refl
          (Node.Reconcile.node-Follows Counted req s t r refl)
    reconcile_of-le chia_farmer s =
        let (r, t) = Counted.get chia_farmer req s in
        Follows-le chia_farmer req Farmer.Reconcile.ready 3 (λ cr. refl) s t r _ refl
          (Farmer.Reconcile.farmer-Follows Counted req s t r refl)
    reconcile_of-le chia_wallet s =
        let (r, t) = Counted.get chia_wallet req s in
        Follows-le chia_wallet req Wallet.Reconcile.ready 3 (λ cr. refl) s t r _ refl
          (Wallet.Reconcile.wallet-Follows Counted req s t r refl)
    reconcile_of-le chia_harvester s =
        let (r, t) = Counted.get chia_harvester req s in
        Follows-le chia_harvester req Harvester.Reconcile.ready 3 (λ cr. refl) s t r _ refl
          (Harvester.Reconcile.harvester-Follows Counted req s t r refl)
    reconcile_of-le chia_ca s =
        let (r, t) = Counted.get chia_ca req s in
        ca-le s t r _ refl (ca-Follows Counted req s t r refl)
