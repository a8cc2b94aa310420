-- ===== src/Tests/Memory.antt =====
-- A client that keeps the cluster in memory and never fails, and that meets the laws. The CA secret
-- is there from a given number of pauses on.
use chia_opera.Base.{
  ℕ, suc, ◌<>◌, Bool, true, false, ◌&&◌, Option, none, some, ◌≡◌, ◌≢◌, refl, ◌==◌, leb, eq_iff,
  eq_refl, if◌then◌else◌, arith, Bool-cases, inl, inr, ap, sym, subst,
}
use chia_opera.Kube.{Kube, Object}
use chia_opera.Api.Common.{ResourceMeta}
use chia_opera.Client.{Client, NamespacedName, ResourceKind, Resource, Fetched, found, failed}
use chia_opera.Plan.Keys.{ObjectKind, ObjectKey, key}
use chia_opera.Plan.Holds.{IsLawful, IsHealthy}
use chia_opera.Plan.Settled.{WritesOnlyChanges}
use chia_opera.System.{meta_of}
use chia_opera.System.Apart.{id_of, requested}
use chia_opera.System.Acts.{IsAddressed, KeepsByReading}

pub record Cluster (K : Kube) : Type 0 where
  pub objects : ObjectKey → Option (Object K)
  pub written : Option ((k : ResourceKind) × Resource K k)
  pub pauses : ℕ

pub ObjectKind-discrete : Discrete ObjectKind
ObjectKind-discrete = hlevel

unfoldable holds : {A : Type 0} → Dec A → Bool
holds (yes _) = true
holds (no _) = false

holds_of : {A : Type 0} (d : Dec A) → A → holds d ≡ true
unfolding holds
holds_of (yes _) a = refl
holds_of (no f) a = absurd (f a)

of_holds : {A : Type 0} (d : Dec A) → holds d ≡ true → A
unfolding holds
of_holds (yes a) h = a
of_holds (no f) h = cc

pub same : ObjectKey → ObjectKey → Bool
unfolding holds
same j k =
    holds (ObjectKind-discrete j.kind k.kind) && (j.namespace == k.namespace && j.name == k.name)

same_refl : (k : ObjectKey) → same k k ≡ true
unfolding same
same_refl k =
    rw (holds_of (ObjectKind-discrete k.kind k.kind) refl, eq_refl k.namespace, eq_refl k.name)

same-eq : (j k : ObjectKey) → same j k ≡ true → j ≡ k
unfolding same
same-eq j k h =
    let kinds : j.kind ≡ k.kind = of_holds (ObjectKind-discrete j.kind k.kind) (ground arith) in
    let namespaces : j.namespace ≡ k.namespace = ground (arith, eq_iff j.namespace k.namespace) in
    let names : j.name ≡ k.name = ground (arith, eq_iff j.name k.name) in
    λ i. record { kind = kinds i; namespace = namespaces i; name = names i }

abbrev pub put : {K : Kube} → Object K → Cluster K → Cluster K
put o s = record s { objects = λ k. if same (key o) k then some o else s.objects k }

-- The resource is the one that is asked for.
abbrev pub is_of : ResourceMeta → NamespacedName → Bool
is_of m req = m.namespace == req.namespace && m.name == req.name

-- Over the one resource of each kind, and the pauses before the secret is there.
abbrev pub memory : (K : Kube) → ((k : ResourceKind) → Resource K k) → ℕ → Client K
memory K resources delay = record {
  State = Cluster K;
  Error = Bool;
  Result = Unit {0};
  zero_result = tt;
  is_not_found = λ e. e;
  ignore_not_found = λ e. if e then none else some e;
  message = λ e. "failed";
  show_name = λ n. n.namespace <> ("/" <> n.name);
  get = λ k req s.
      (if is_of (meta_of K k (resources k)) req then found (resources k) else failed true, s);
  get_secret = λ req s. (if leb delay s.pauses then none else some true, s);
  reconcile_resource = λ o s. ((none, none), put o s);
  update_status = λ k cr s. (none, record s { written = some (k, cr) });
  sleep = λ d s. record s { pauses = suc s.pauses };
}

module _ (K : Kube) (resources : (k : ResourceKind) → Resource K k) (delay : ℕ) where
  pub put-same : (o : Object K) (s : Cluster K) → (put o s).objects (key o) ≡ some o
  put-same o s = rw (same_refl (key o))

  pub put-other :
      (o p : Object K) (s : Cluster K)
      → key o ≢ key p
      → s.objects (key o) ≡ some o
      → (put p s).objects (key o) ≡ some o
  put-other o p s ne h = elim (Bool-cases (same (key p) (key o))) [
    | inl e ↦ absurd (ne (sym (same-eq (key p) (key o) e)))
    | inr e ↦ rw e h
  ]

  unfoldable pub memory-IsLawful : IsLawful (memory K resources delay)
  memory-IsLawful = record {
    Holds = λ o s. s.objects (key o) ≡ some o;
    Stores = λ k cr s. s.written ≡ some (k, cr);
    applied =
        λ o s t res e. subst (λ u. u.objects (key o) ≡ some o) (ap (λ r. r.1) e) (put-same o s);
    kept = λ o p s t r ne e h.
        subst (λ u. u.objects (key o) ≡ some o) (ap (λ r. r.1) e) (put-other o p s ne h);
    kept_by_status =
        λ o k cr s t r e h. subst (λ u. u.objects (key o) ≡ some o) (ap (λ r. r.1) e) h;
    stored = λ k cr s t e. subst (λ u. u.written ≡ some (k, cr)) (ap (λ r. r.1) e) refl;
  }

  pub memory-IsHealthy : IsHealthy (memory K resources delay)
  memory-IsHealthy = record { reconciles = λ o s. refl; updates = λ k cr s. refl }

  put_again :
      (o : Object K) (s : Cluster K) (k : ObjectKey)
      → s.objects (key o) ≡ some o
      → (put o s).objects k ≡ s.objects k
  put_again o s k h = elim (Bool-cases (same (key o) k)) [
    | inl e ↦ rw (e, sym (same-eq (key o) k e), h)
    | inr e ↦ rw e
  ]

  pub memory-WritesOnlyChanges : WritesOnlyChanges (memory-IsLawful)
  unfolding memory-IsLawful
  memory-WritesOnlyChanges o s h = λ i. record s { objects = λ k. put_again o s k h i }

  unfoldable pub memory-KeepsByReading : KeepsByReading (memory-IsLawful)
  unfolding memory-IsLawful
  memory-KeepsByReading = record {
    kept_by_get = λ o k req s t r e h. subst (λ u. u.objects (key o) ≡ some o) (ap (λ r. r.1) e) h;
    kept_by_get_secret =
        λ o secret s t r e h. subst (λ u. u.objects (key o) ≡ some o) (ap (λ r. r.1) e) h;
    kept_by_sleep = λ o d s t e h. subst (λ u. u.objects (key o) ≡ some o) e h;
  }

  is_of-requested :
      (k : ResourceKind) (cr : Resource K k) (req : NamespacedName)
      → is_of (meta_of K k cr) req ≡ true
      → id_of K k cr ≡ requested k req
  is_of-requested k cr req h =
      let m = meta_of K k cr in
      let spaces : m.namespace ≡ req.namespace =
        ground (arith, h, eq_iff m.namespace req.namespace) in
      let names : m.name ≡ req.name = ground (arith, h, eq_iff m.name req.name) in
      λ i. record { kind = k; namespace = spaces i; name = names i }

  found_of :
      (k : ResourceKind) (req : NamespacedName) (cr : Resource K k) (b : Bool)
      → Path
          (Fetched Bool (Resource K k))
          (if b then found (resources k) else failed true)
          (found cr)
      → (b ≡ true) × (resources k ≡ cr)
  found_of k req cr true e = (refl, cc e)
  found_of k req cr false e = cc e

  pub memory-IsAddressed : IsAddressed (memory K resources delay)
  memory-IsAddressed k req cr s t e =
      let (b, same) =
        found_of k req cr (is_of (meta_of K k (resources k)) req)
          (ap (λ (r : Fetched Bool (Resource K k) × Cluster K). r.0) e) in
      subst (λ c. id_of K k c ≡ requested k req) same (is_of-requested k (resources k) req b)
