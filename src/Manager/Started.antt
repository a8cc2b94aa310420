-- ===== src/Manager/Started.antt =====
-- That the process comes to start its manager.
use mathlib.Core.List.Memᴰ
use chia_opera.Base.{
  String, ℕ, false, ◌≡◌, refl, ap, ◌∙◌, Option, none, List, [], ◌∷◌, Memᴰ, head, tail, subst,
}
use chia_opera.Exec.{next, run, ◌>>◌}
use chia_opera.Client.{ResourceKind, chia_node, chia_farmer, chia_wallet, chia_harvester, chia_ca}
use chia_opera.Manager.{
  Platform, RegisteredType, object_type, Process, options, attempt, setup_with_manager,
  register_all, registrations, init, parse, manage, main,
}
use chia_opera.Manager.Laws.{
  IsLawfulPlatform, IsHealthyPlatform, ProcessStep, completes, adds_healthz, adds_readyz, logs,
  makes_manager, parses, configures, defines_string, defines_bool, binds_log_flags, sets_logger,
}
use chia_opera.Manager.Serves.{
  run-next, started, kinds, set_ups, serve, manage-eq, setup-eq, AllServed, served_step, every_kind,
}

module _ (P : Platform) (L : IsLawfulPlatform P) where
  -- What the `init` functions register is in the scheme.
  listed_kept :
      (tss : List (List RegisteredType)) (x : RegisteredType) (s : P.State)
      → L.IsListed x s
      → L.IsListed x (register_all P tss s)
  listed_kept [] x s h = h
  listed_kept (types ∷ tss) x s h =
      listed_kept tss x (P.register types s) (L.listed_by_register types x s h)

  listed_in :
      (tss : List (List RegisteredType)) (types : List RegisteredType) (x : RegisteredType)
      (s : P.State)
      → Memᴰ types tss
      → Memᴰ x types
      → L.IsListed x (register_all P tss s)
  listed_in [] types x s m h = absurd (Memᴰ.not-nil m)
  listed_in (ts ∷ tss) types x s (head e) h =
      listed_kept tss x (P.register ts s) (L.listed ts x s (subst (Memᴰ x) e h))
  listed_in (ts ∷ tss) types x s (tail m) h = listed_in tss types x (P.register ts s) m h

  all_listed :
      (k : ResourceKind) (s : P.State) → L.IsListed (object_type k) (register_all P registrations s)
  all_listed chia_ca s = listed_in registrations _ _ s (head refl) (head refl)
  all_listed chia_farmer s = listed_in registrations _ _ s (tail (head refl)) (head refl)
  all_listed chia_harvester s = listed_in registrations _ _ s (tail (tail (head refl))) (head refl)
  all_listed chia_node s =
      listed_in registrations _ _ s (tail (tail (tail (head refl)))) (head refl)
  all_listed chia_wallet s =
      listed_in registrations _ _ s (tail (tail (tail (tail (head refl))))) (head refl)

  abbrev AllKnown : P.State → Type 0
  AllKnown s = (k : ResourceKind) → L.InScheme (object_type k) s

  known_step : {s t : P.State} → ProcessStep P s t → AllKnown s → AllKnown t
  known_step step h k = L.in_scheme (object_type k) _ _ step (h k)

  module _ (H : IsHealthyPlatform L) where
    initialised : (s : P.State) → (init P s).0 ≡ next tt
    unfolding init
    initialised s = rw (
      H.client_go_added (register_all P registrations s),
      H.scheme_added (P.add_client_go (register_all P registrations s)).1,
    )

    initialised-AllKnown : (s : P.State) → AllKnown (init P s).1
    unfolding init
    initialised-AllKnown s k =
        let r = register_all P registrations s in
        let t = (P.add_client_go r).1 in
        rw (H.client_go_added r) (
          L.added (object_type k) t _ (ap (λ e. (e, (P.add_to_scheme t).1)) (H.scheme_added t))
            (L.listed_by_client_go (object_type k) r (all_listed k s)))

    parsed : (s : P.State) → (parse P s).0 ≡ next tt
    unfolding parse
    parsed s =
        let r = P.bind_log_flags (
          P.bool_var "leader-elect" false (
            P.string_var "health-probe-bind-address" ":8081"
              (P.string_var "metrics-bind-address" ":8080" s))) in
        rw (H.flags_parsed r, H.configured (P.set_logger (P.parse_flags r).1))

    parsed-AllKnown : (s : P.State) → AllKnown s → AllKnown (parse P s).1
    unfolding parse
    parsed-AllKnown s h =
        let a = P.string_var "metrics-bind-address" ":8080" s in
        let b = P.string_var "health-probe-bind-address" ":8081" a in
        let c = P.bool_var "leader-elect" false b in
        let d = P.bind_log_flags c in
        let f = (P.parse_flags d).1 in
        rw (H.flags_parsed d) (
          known_step (configures {s = P.set_logger f} refl) (
            known_step sets_logger (
              known_step (parses {s = d} refl) (
                known_step binds_log_flags (
                  known_step (defines_bool "leader-elect" false) (
                    known_step (defines_string "health-probe-bind-address" ":8081")
                      (known_step (defines_string "metrics-bind-address" ":8080") h)))))))

    attempted :
        (message : String) (values : List (String × String))
        (action : P.State → Option P.Error × P.State) (rest : Process P ℕ) (s t : P.State)
        → action s ≡ (none, t)
        → run (attempt P message values action >> rest) s ≡ run rest t
    unfolding attempt
    attempted message values action rest s t h = rw h

    set_up :
        (ks : List (String × ResourceKind)) (rest : Process P ℕ) (s : P.State)
        → AllKnown s
        → (u : P.State) × AllServed P L ks u
          × ((k : ResourceKind) → L.Routes k k s → L.Routes k k u)
          × (run (set_ups P ks rest) s ≡ run rest u)
    unfolding set_ups
    set_up [] rest s h = (s, tt, (λ k r. r), refl)
    set_up ((name, k) ∷ ks) rest s h =
        let t = (P.complete k k s).1 in
        let ok : P.complete k k s ≡ (none, t) = ap (λ e. (e, t)) (H.completes_known k k s (h k)) in
        let (u, all, keeps, same) = set_up ks rest t (known_step (completes k k ok) h) in
        (
          u,
          (keeps k (L.completed k k s t ok), all),
          (λ l routed. keeps l (L.routes l l s t (completes k k ok) routed)),
          attempted "unable to create controller" (("controller", name) ∷ [])
                (setup_with_manager P k) (set_ups P ks rest) s t (setup-eq P k s ∙ ok)
              ∙ same,
        )

    serve-started :
        (s : P.State)
        → AllServed P L (kinds P) s
        → (u : P.State) × AllServed P L (kinds P) u × (run (serve P) s ≡ started P u)
    unfolding serve attempt
    serve-started s all =
        let t = (P.add_healthz_check "healthz" s).1 in
        let u = (P.add_readyz_check "readyz" t).1 in
        (
          P.log_info "starting manager" u,
          served_step P L (kinds P) (logs "starting manager") (
              served_step P L (kinds P) (adds_readyz {s = t} "readyz" refl)
                (served_step P L (kinds P) (adds_healthz {s = s} "healthz" refl) all)),
          rw (H.healthz_added "healthz" s, H.readyz_added "readyz" t),
        )

    -- On a lawful platform none of whose calls fails, but for `Complete` on a kind that the scheme does
    -- not have, the process comes to start the manager, in a state in which the manager has for each of
    -- the five kinds the kind's own reconciler; the start decides how the process ends.
    pub main-started :
        (s : P.State)
        → (u : P.State) × ((k : ResourceKind) → L.Routes k k u) × (main P s ≡ started P u)
    unfolding main
    main-started s =
        let t = (parse P (init P s).1).1 in
        let begun : main P s ≡ run (manage P) t =
          run-next (init P) (parse P >> manage P) s (initialised s)
          ∙ run-next (parse P) (manage P) (init P s).1 (parsed (init P s).1) in
        let known = parsed-AllKnown (init P s).1 (initialised-AllKnown s) in
        let u = (P.new_manager (options P t) t).1 in
        let made : P.new_manager (options P t) t ≡ (none, u) =
          ap (λ e. (e, u)) (H.manager_made (options P t) t) in
        let (v, all, _, same) =
          set_up (kinds P) (serve P) u (known_step (makes_manager (options P t) made) known) in
        let (w, served, last) = serve-started v all in
        (
          w,
          every_kind P L w served,
          begun
              ∙ (ap (λ m. run m t) (manage-eq P)
                  ∙ (attempted "unable to start manager" [] (λ s. P.new_manager (options P s) s)
                        (set_ups P (kinds P) (serve P)) t u made
                      ∙ (same ∙ last))),
        )
