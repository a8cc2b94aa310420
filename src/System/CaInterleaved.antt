-- ===== src/System/CaInterleaved.antt =====
-- A whole call for a ChiaCA while the calls for other resources go on.
use chia_opera.Base.{ℕ, ◌≡◌, Bool, true, false, Option, none, some}
use chia_opera.Kube.{Kube}
use chia_opera.Api.Ca.{ChiaCa}
use chia_opera.Exec.{Outcome, returned}
use chia_opera.Client.{Client, NamespacedName, Return, chia_ca, client_error}
use chia_opera.Plan.{Plan}
use chia_opera.Plan.Holds.{IsLawful}
use chia_opera.Plan.Reached.{AllIn}
use chia_opera.Ca.Reconcile.{ready}
use chia_opera.Ca.Generate.{plan}
use chia_opera.System.{plan_of}
use chia_opera.System.Apart.{id_of}
use chia_opera.System.Acts.{Steps, KeepsByReading}
use chia_opera.System.Stays.{OthersAct}
use chia_opera.System.Interleaved.{interleaved, mine-IsLawful}

module _ {K : Kube} {C : Client K} (L : IsLawful C) (reading : KeepsByReading L)
    (schedule : ℕ → C.State → C.State) (ca : ChiaCa) (req : NamespacedName)
    (by_others : (n : ℕ) (s : C.State)
      → Steps (OthersAct C (id_of K chia_ca ca)) s (schedule n s)) where
  abbrev pub Among : Client K
  Among = interleaved C schedule

  abbrev pub LawfulAmong : IsLawful Among
  LawfulAmong = mine-IsLawful L reading schedule chia_ca ca req by_others

  -- How the call goes on from the answer to the query.
  abbrev pub ConcludesAmong :
      Bool × Option C.Error → C.State × ℕ → Outcome (Return C) × (C.State × ℕ) → Type 0
  ConcludesAmong (_, some e) v end = end ≡ (returned (C.zero_result, some (client_error e)), v)
  ConcludesAmong (false, none) v end =
      (end ≡ (returned (C.zero_result, none), v)) × AllIn L (plan C req ca) v.0
  ConcludesAmong (true, none) v end =
      (end.0 ≡ returned (C.zero_result, none))
      × AllIn L (plan_of C chia_ca req ca) end.1.0
      × L.Stores chia_ca (ready ca) end.1.0
