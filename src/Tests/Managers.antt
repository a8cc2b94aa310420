-- ===== src/Tests/Managers.antt =====
-- The start of the process on a platform that keeps in memory what was registered.
use mathlib.Core.List.Memᴰ
use chia_opera.Base.{
  ℕ, String, Bool, true, false, ◌&&◌, ◌||◌, Option, none, some, List, [], ◌∷◌, ◌≡◌, refl, ap, subst,
  leb, arith, if◌then◌else◌, Memᴰ, head, tail, Bool-cases, inl, inr,
}
use chia_opera.Exec.{next}
use chia_opera.Client.{ResourceKind, chia_node, chia_farmer, chia_wallet, chia_harvester, chia_ca}
use chia_opera.Manager.{Platform, RegisteredType, object_type, list_type, init, parse, main}
use chia_opera.Manager.Laws.{
  IsLawfulPlatform, IsHealthyPlatform, ProcessStep, completes, adds_healthz, adds_readyz, logs,
  makes_manager, parses, configures, defines_string, defines_bool, binds_log_flags, sets_logger,
}
use chia_opera.Manager.Serves.{started, main_served}
use chia_opera.Manager.Started.{main-started}
use chia_opera.Manager.Stages.{Starts, Proceeds, stages, main-Starts}

record Machine : Type 0 where
  listed : RegisteredType → Bool
  scheme : RegisteredType → Bool
  routes : ResourceKind → ResourceKind → Bool

number : ResourceKind → ℕ
number chia_node = 0
number chia_farmer = 1
number chia_wallet = 2
number chia_harvester = 3
number chia_ca = 4

same_kind : ResourceKind → ResourceKind → Bool
same_kind k l = leb (number k) (number l) && leb (number l) (number k)

same_type : RegisteredType → RegisteredType → Bool
same_type (object_type k) (object_type l) = same_kind k l
same_type (list_type k) (list_type l) = same_kind k l
same_type _ _ = false

has : RegisteredType → List RegisteredType → Bool
has x [] = false
has x (y ∷ ys) = same_type x y || has x ys

same_kind_refl : (k : ResourceKind) → same_kind k k ≡ true
unfolding same_kind
same_kind_refl k = ground arith

same_type_refl : (x : RegisteredType) → same_type x x ≡ true
unfolding same_type
same_type_refl (object_type k) = same_kind_refl k
same_type_refl (list_type k) = same_kind_refl k

has-listed : (x : RegisteredType) (ys : List RegisteredType) → Memᴰ x ys → has x ys ≡ true
unfolding has
has-listed x [] m = absurd (Memᴰ.not-nil m)
has-listed x (y ∷ ys) (head e) =
    let same : same_type x y ≡ true = subst (λ z. same_type x z ≡ true) e (same_type_refl x) in
    ground (arith, same)
has-listed x (y ∷ ys) (tail m) = ground (arith, has-listed x ys m)

abbrev completed : ResourceKind → ResourceKind → Machine → Option String × Machine
completed k r s =
    if s.scheme (object_type k)
    then (none, record s { routes = λ a b. (same_kind k a && same_kind r b) || s.routes a b })
    else (some "no kind is registered", s)

abbrev machine : Platform
machine = record {
  State = Machine;
  Error = String;
  register = λ types s. record s { listed = λ x. has x types || s.listed x };
  add_client_go = λ s. (none, s);
  add_to_scheme = λ s. (none, record s { scheme = λ x. s.listed x || s.scheme x });
  string_var = λ name default s. s;
  bool_var = λ name default s. s;
  bind_log_flags = λ s. s;
  parse_flags = λ s. (next tt, s);
  string_value = λ name s. ":8080";
  bool_value = λ name s. false;
  set_logger = λ s. s;
  get_config_or_die = λ s. (next tt, s);
  new_manager = λ o s. (none, s);
  complete = completed;
  add_healthz_check = λ name s. (none, s);
  add_readyz_check = λ name s. (none, s);
  start = λ s. (none, s);
  log_info = λ message s. s;
  log_error = λ message values e s. s;
}

complete-scheme :
    (k r : ResourceKind) (s t : Machine) (e : Option String) (x : RegisteredType)
    → completed k r s ≡ (e, t)
    → s.scheme x ≡ true
    → t.scheme x ≡ true
complete-scheme k r s t e x h known =
    subst (λ (u : Machine). u.scheme x ≡ true) (ap (λ (r : Option String × Machine). r.1) h)
      (ground (arith, known))

complete-routes :
    (k r : ResourceKind) (s t : Machine) (e : Option String) (a b : ResourceKind)
    → completed k r s ≡ (e, t)
    → s.routes a b ≡ true
    → t.routes a b ≡ true
complete-routes k r s t e a b h routed =
    subst (λ (u : Machine). u.routes a b ≡ true) (ap (λ (r : Option String × Machine). r.1) h)
      (ground (arith, routed))

complete-done :
    (k r : ResourceKind) (s t : Machine) → completed k r s ≡ (none, t) → t.routes k r ≡ true
complete-done k r s t h = elim (Bool-cases (s.scheme (object_type k))) [
  | inl known ↦
      subst (λ (u : Machine). u.routes k r ≡ true)
        (ap (λ (r : Option String × Machine). r.1) (rw known at h))
        (ground (arith, same_kind_refl k, same_kind_refl r))
  | inr unknown ↦ cc (rw unknown at h)
]

-- A call that changes nothing.
unchanged :
    {A : Type 0} (Q : Machine → Type 0) {s t : Machine} {r q : A}
    → Path (A × Machine) (q, s) (r, t)
    → Q s
    → Q t
unchanged Q e h = subst Q (ap (λ (r : _ × Machine). r.1) e) h

scheme-kept :
    (x : RegisteredType) (s t : Machine)
    → ProcessStep machine s t
    → s.scheme x ≡ true
    → t.scheme x ≡ true
scheme-kept x s t (defines_string name default) h = h
scheme-kept x s t (defines_bool name default) h = h
scheme-kept x s t binds_log_flags h = h
scheme-kept x s t (parses e) h = unchanged (λ u. u.scheme x ≡ true) e h
scheme-kept x s t sets_logger h = h
scheme-kept x s t (configures e) h = unchanged (λ u. u.scheme x ≡ true) e h
scheme-kept x s t (makes_manager o e) h = unchanged (λ u. u.scheme x ≡ true) e h
scheme-kept x s t (completes k r {r = e} c) h = complete-scheme k r s t e x c h
scheme-kept x s t (adds_healthz name e) h = unchanged (λ u. u.scheme x ≡ true) e h
scheme-kept x s t (adds_readyz name e) h = unchanged (λ u. u.scheme x ≡ true) e h
scheme-kept x s t (logs message) h = h

routes-kept :
    (a b : ResourceKind) (s t : Machine)
    → ProcessStep machine s t
    → s.routes a b ≡ true
    → t.routes a b ≡ true
routes-kept a b s t (defines_string name default) h = h
routes-kept a b s t (defines_bool name default) h = h
routes-kept a b s t binds_log_flags h = h
routes-kept a b s t (parses e) h = unchanged (λ u. u.routes a b ≡ true) e h
routes-kept a b s t sets_logger h = h
routes-kept a b s t (configures e) h = unchanged (λ u. u.routes a b ≡ true) e h
routes-kept a b s t (makes_manager o e) h = unchanged (λ u. u.routes a b ≡ true) e h
routes-kept a b s t (completes k r {r = e} c) h = complete-routes k r s t e a b c h
routes-kept a b s t (adds_healthz name e) h = unchanged (λ u. u.routes a b ≡ true) e h
routes-kept a b s t (adds_readyz name e) h = unchanged (λ u. u.routes a b ≡ true) e h
routes-kept a b s t (logs message) h = h

machine-IsLawfulPlatform : IsLawfulPlatform machine
machine-IsLawfulPlatform = record {
  IsListed = λ x s. s.listed x ≡ true;
  InScheme = λ x s. s.scheme x ≡ true;
  Routes = λ k r s. s.routes k r ≡ true;
  listed = λ types x s m. let h = has-listed x types m in ground (arith, h);
  listed_by_register = λ types x s h. ground (arith, h);
  listed_by_client_go = λ x s h. h;
  added =
      λ x s t e h. unchanged (λ u. u.scheme x ≡ true) e (let known = h in ground (arith, known));
  in_scheme = scheme-kept;
  completed = complete-done;
  routes = routes-kept;
}

machine-IsHealthyPlatform : IsHealthyPlatform machine-IsLawfulPlatform
unfolding machine-IsLawfulPlatform
machine-IsHealthyPlatform = record {
  client_go_added = λ s. refl;
  scheme_added = λ s. refl;
  flags_parsed = λ s. refl;
  configured = λ s. refl;
  manager_made = λ o s. refl;
  completes_known = λ k r s h. rw h;
  healthz_added = λ name s. refl;
  readyz_added = λ name s. refl;
}

abbrev blank : Machine
blank = record { listed = λ x. false; scheme = λ x. false; routes = λ k r. false }

main-started_example :
    (u : Machine) × ((k : ResourceKind) → u.routes k k ≡ true)
    × (main machine blank ≡ started machine u)
unfolding machine-IsLawfulPlatform
main-started_example = main-started machine machine-IsLawfulPlatform machine-IsHealthyPlatform blank

main_served_example :
    (u : Machine) × ((k : ResourceKind) → u.routes k k ≡ true)
    × (main machine blank ≡ started machine u)
    × ((machine.start u).0 ≡ none)
unfolding machine-IsLawfulPlatform init parse main has same_type same_kind number
main_served_example =
    main_served machine machine-IsLawfulPlatform blank (main machine blank).1 refl refl refl

main-Starts_example :
    Proceeds machine
      (init machine blank).0
      (λ t end.
        Proceeds machine
          (parse machine t).0
          (λ u end. Starts machine (stages machine) u end.0 end.1)
          (parse machine t).1
          end)
      (init machine blank).1
      (main machine blank)
main-Starts_example = main-Starts machine blank
