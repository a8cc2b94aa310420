-- ===== src/Manager/Serves.antt =====
-- That the manager serves every kind of resource with its own reconciler.
use chia_opera.Base.{
  String, ℕ, ◌≡◌, refl, sym, ap, ◌∙◌, Option, none, some, List, [], ◌∷◌, All, All-imp, arith,
}
use chia_opera.Exec.{Exec, next, Outcome, returned, panicked, run, pure, ◌>>◌}
use chia_opera.Client.{ResourceKind, chia_node, chia_farmer, chia_wallet, chia_harvester, chia_ca}
use chia_opera.Manager.{
  Platform, Process, options, call, attempt, setup_with_manager, init, parse, manage, main,
}
use chia_opera.Manager.Laws.{
  IsLawfulPlatform, ProcessStep, completes, adds_healthz, adds_readyz, logs,
}

-- A statement that goes on leads to what comes behind it.
pub run-next :
    {S R : Type 0} (m : Exec S R Unit) (k : Exec S R R) (s : S)
    → (m s).0 ≡ next tt
    → run (m >> k) s ≡ run k (m s).1
run-next m k s h = rw h

code_of : Outcome ℕ → ℕ
code_of (returned code) = code
code_of (panicked p) = 2

exits_differ : Path (Outcome ℕ) (returned 1) (returned 0) → ⊥
unfolding code_of
exits_differ e = omega (arith, ap code_of e)

module _ (P : Platform) where
  -- The kinds in the order of `main`, under the names that it logs.
  abbrev pub kinds : List (String × ResourceKind)
  kinds =
      ("ChiaNode", chia_node)
      ∷ ("ChiaFarmer", chia_farmer)
      ∷ ("ChiaHarvester", chia_harvester)
      ∷ ("ChiaCA", chia_ca)
      ∷ ("ChiaWallet", chia_wallet)
      ∷ []

  unfoldable pub set_ups : List (String × ResourceKind) → Process P ℕ → Process P ℕ
  set_ups [] rest = rest
  set_ups ((name, k) ∷ ks) rest =
      attempt P "unable to create controller" (("controller", name) ∷ []) (setup_with_manager P k)
      >> set_ups ks rest

  -- Behind the controllers.
  unfoldable pub serve : Process P ℕ
  serve = do
    attempt P "unable to set up health check" [] (P.add_healthz_check "healthz")
    attempt P "unable to set up ready check" [] (P.add_readyz_check "readyz")
    call P (P.log_info "starting manager")
    attempt P "problem running manager" [] P.start
    pure 0

  -- What comes to the start of the manager.
  abbrev pub started : P.State → Outcome ℕ × P.State
  started = run (attempt P "problem running manager" [] P.start >> pure 0)

  pub manage-eq : manage P ≡ (
      attempt P "unable to start manager" [] (λ s. P.new_manager (options P s) s)
      >> set_ups kinds serve)
  unfolding manage set_ups serve
  manage-eq = refl

  pub setup-eq : (k : ResourceKind) (s : P.State) → setup_with_manager P k s ≡ P.complete k k s
  unfolding setup_with_manager
  setup-eq chia_node s = refl
  setup-eq chia_farmer s = refl
  setup-eq chia_wallet s = refl
  setup-eq chia_harvester s = refl
  setup-eq chia_ca s = refl

  attempted :
      (message : String) (values : List (String × String)) (rest : Process P ℕ) (s t : P.State)
      (r : Option P.Error) (action : P.State → Option P.Error × P.State) {u : P.State}
      → action s ≡ (r, t)
      → run (attempt P message values action >> rest) s ≡ (returned 0, u)
      → (r ≡ none) × (run rest t ≡ (returned 0, u))
  unfolding attempt
  attempted message values rest s t none action h e = (refl, rw h at e)
  attempted message values rest s t (some err) action h e =
      absurd (exits_differ (ap (λ (r : Outcome ℕ × P.State). r.0) (rw h at e)))

  module _ (L : IsLawfulPlatform P) where
    -- Each of the kinds is served by its own reconciler.
    abbrev pub AllServed : List (String × ResourceKind) → P.State → Type 0
    AllServed ks s = All (λ k. L.Routes k.1 k.1 s) ks

    pub served_step :
        (ks : List (String × ResourceKind)) {s t : P.State}
        → ProcessStep P s t
        → AllServed ks s
        → AllServed ks t
    served_step ks step h = All-imp (λ k r. L.routes k.1 k.1 _ _ step r) ks h

    -- A process that exits with code 0 has set them all up.
    set_up :
        (ks : List (String × ResourceKind)) (rest : Process P ℕ) (s : P.State) {t : P.State}
        → run (set_ups ks rest) s ≡ (returned 0, t)
        → (u : P.State) × AllServed ks u
          × ((k : ResourceKind) → L.Routes k k s → L.Routes k k u)
          × (run rest u ≡ (returned 0, t))
    unfolding set_ups
    set_up [] rest s e = (s, tt, (λ k r. r), e)
    set_up ((name, k) ∷ ks) rest s e =
        let (r, t) = P.complete k k s in
        let (ok, later) =
          attempted "unable to create controller" (("controller", name) ∷ []) (set_ups ks rest) s t
            r (setup_with_manager P k) (setup-eq k s) e in
        let completed : P.complete k k s ≡ (none, t) = ap (λ r. (r, t)) ok in
        let (u, all, keeps, ended) = set_up ks rest t later in
        (
          u,
          (keeps k (L.completed k k s t completed), all),
          λ l routed. keeps l (L.routes l l s t (completes k k completed) routed),
          ended,
        )

    pub every_kind : (s : P.State) → AllServed kinds s → (k : ResourceKind) → L.Routes k k s
    every_kind s all chia_node = all.0
    every_kind s all chia_farmer = all.1.0
    every_kind s all chia_harvester = all.1.1.0
    every_kind s all chia_ca = all.1.1.1.0
    every_kind s all chia_wallet = all.1.1.1.1.0

    served_behind :
        (s : P.State) {t : P.State}
        → AllServed kinds s
        → run serve s ≡ (returned 0, t)
        → (u : P.State) × AllServed kinds u × (started u ≡ (returned 0, t)) × ((P.start u).0 ≡ none)
    unfolding serve
    served_behind s all e =
        let (r, t) = P.add_healthz_check "healthz" s in
        let (_, e') = attempted "unable to set up health check" [] _ s t r _ refl e in
        let (q, u) = P.add_readyz_check "readyz" t in
        let (_, e'') = attempted "unable to set up ready check" [] _ t u q _ refl e' in
        let v = P.log_info "starting manager" u in
        let (p, w) = P.start v in
        let (ok, _) = attempted "problem running manager" [] (pure 0) v w p P.start refl e'' in
        (
          v,
          served_step kinds (logs "starting manager") (
              served_step kinds (adds_readyz "readyz" refl)
                (served_step kinds (adds_healthz "healthz" refl) all)),
          e'',
          ok,
        )

    managed_served :
        (s : P.State) {t : P.State}
        → run (manage P) s ≡ (returned 0, t)
        → (u : P.State) × AllServed kinds u × (started u ≡ (returned 0, t)) × ((P.start u).0 ≡ none)
    managed_served s e =
        let (r, t) = P.new_manager (options P s) s in
        let (_, e') =
          attempted "unable to start manager" [] (set_ups kinds serve) s t r
            (λ s. P.new_manager (options P s) s) refl (sym (ap (λ m. run m s) manage-eq) ∙ e) in
        let (u, all, _, e'') = set_up kinds serve t e' in served_behind u all e''

    -- On a lawful platform, a process whose initialisation and whose parsing of the flags let it go on,
    -- and that then exits with code 0, comes to start the manager in a state in which the manager has
    -- for each of the five kinds the kind's own reconciler; the process is from there on that start with
    -- what is behind it, and the start ends without an error.
    pub main_served :
        (s t : P.State)
        → (init P s).0 ≡ next tt
        → (parse P (init P s).1).0 ≡ next tt
        → main P s ≡ (returned 0, t)
        → (u : P.State) × ((k : ResourceKind) → L.Routes k k u)
          × (main P s ≡ started u)
          × ((P.start u).0 ≡ none)
    unfolding main
    main_served s t i p e =
        let (u, all, last, ok) = managed_served (parse P (init P s).1).1 (
          sym (
            run-next (init P) (parse P >> manage P) s i
            ∙ run-next (parse P) (manage P) (init P s).1 p)
          ∙ e) in
        (u, every_kind u all, e ∙ sym last, ok)
