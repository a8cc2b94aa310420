-- ===== src/Harvester/Plots.antt =====
-- The volumes and the mounts of a harvester's plots: as many, under the same names, all different.
use mathlib.Core.List.{map-map, map-append}
use chia_opera.Base.{
  ℕ, String, ◌<>◌, ◌≡◌, ◌≢◌, refl, Option, some, List, ◌∷◌, ◌++◌, map, arith, All, All-map,
  All-const, All-append, Distinct, Distinct-append, numbered, numbered-Distinct, itoa,
  numbered_name_injective, nth, nth-append, ne_of_nth,
}
use chia_opera.Api.Common.{PersistentVolumeClaimConfig, HostPathVolumeConfig}
use chia_opera.Harvester.{
  pvc_plot_volume, host_path_plot_volume, pvc_plot_mount, host_path_plot_mount,
}

abbrev pub names {ℓ} : {A : Type ℓ} → String → List (Option A) → List String
names s xs = map (λ p. s <> itoa p.0) (numbered 0 xs)

module _ {ℓ} {A : Type ℓ} where
  -- A text that differs from a stem at one place is no name that is made of the stem.
  fresh-names :
      (k : ℕ) (x s : String) (xs : List (Option A)) {c d : ℕ}
      → nth k x ≡ some c
      → nth k s ≡ some d
      → c ≢ d
      → All (λ y. x ≢ y) (names s xs)
  fresh-names k x s xs hx hs ne =
      All-map (λ y. x ≢ y) (λ p. s <> itoa p.0) (numbered 0 xs)
        (All-const (λ p. x ≢ s <> itoa p.0)
          (λ p. ne_of_nth k x (s <> itoa p.0) hx (nth-append k s (itoa p.0) hs) ne) (numbered 0 xs))

  names-Distinct : (s : String) (xs : List (Option A)) → Distinct (names s xs)
  names-Distinct s xs = numbered-Distinct (λ i. s <> itoa i) (numbered_name_injective s) 0 xs

-- Two runs of names, behind fixed names that differ from both stems.
module _ {ℓ κ} {A : Type ℓ} {B : Type κ} (xs : List (Option A)) (ys : List (Option B)) where
  names-append-Distinct :
      (k : ℕ) (s t : String) {c d : ℕ}
      → nth k s ≡ some c
      → nth k t ≡ some d
      → c ≢ d
      → Distinct (names s xs ++ names t ys)
  names-append-Distinct k s t hs ht ne =
      Distinct-append (names s xs) (names t ys) (names-Distinct s xs) (names-Distinct t ys) (
        All-map (λ x. All (λ y. x ≢ y) (names t ys)) (λ p. s <> itoa p.0) (numbered 0 xs)
          (All-const (λ p. All (λ y. s <> itoa p.0 ≢ y) (names t ys))
            (λ p. fresh-names k (s <> itoa p.0) t ys (nth-append k s (itoa p.0) hs) ht ne)
            (numbered 0 xs)))

  fresh-names-append :
      (k : ℕ) (x s t : String) {c d e : ℕ}
      → nth k x ≡ some c
      → nth k s ≡ some d
      → nth k t ≡ some e
      → c ≢ d
      → c ≢ e
      → All (λ y. x ≢ y) (names s xs ++ names t ys)
  fresh-names-append k x s t hx hs ht ne ne' =
      All-append (λ y. x ≢ y) (names s xs) (names t ys) (fresh-names k x s xs hx hs ne)
        (fresh-names k x t ys hx ht ne')

module _ (claims : List (Option PersistentVolumeClaimConfig))
    (paths : List (Option HostPathVolumeConfig)) where
  abbrev pub plot_names : List String
  plot_names = names "pvc-plots-" claims ++ names "hostpath-plots-" paths

  pub name-plot_volumes :
      map
        (λ v. v.name)
        (map pvc_plot_volume (numbered 0 claims) ++ map host_path_plot_volume (numbered 0 paths))
      ≡ plot_names
  unfolding pvc_plot_volume host_path_plot_volume
  name-plot_volumes = simp (map-append, map-map)

  pub name-plot_mounts :
      map
        (λ m. m.name)
        (map pvc_plot_mount (numbered 0 claims) ++ map host_path_plot_mount (numbered 0 paths))
      ≡ plot_names
  unfolding pvc_plot_mount host_path_plot_mount
  name-plot_mounts = simp (map-append, map-map)

  pub path-plot_mounts :
      map
        (λ m. m.mount_path)
        (map pvc_plot_mount (numbered 0 claims) ++ map host_path_plot_mount (numbered 0 paths))
      ≡ names "/plots/pvc-plots-" claims ++ names "/plots/hostpath-plots-" paths
  unfolding pvc_plot_mount host_path_plot_mount
  path-plot_mounts = simp (map-append, map-map)

  pub volume_names-Distinct : Distinct ("secret-ca" ∷ "chiaroot" ∷ plot_names)
  unfolding nth
  volume_names-Distinct = (
    (
      (λ e. ne_of_nth 0 "secret-ca" "chiaroot" refl refl (omega arith) e),
      fresh-names-append claims paths 0 "secret-ca" "pvc-plots-" "hostpath-plots-" refl refl refl
          (omega arith) (omega arith),
    ),
    (
      fresh-names-append claims paths 0 "chiaroot" "pvc-plots-" "hostpath-plots-" refl refl refl
          (omega arith) (omega arith),
      names-append-Distinct claims paths 0 "pvc-plots-" "hostpath-plots-" refl refl (omega arith),
    ),
  )

  pub mount_paths-Distinct : Distinct (
      "/chia-ca"
      ∷ "/chia-data"
      ∷ (names "/plots/pvc-plots-" claims ++ names "/plots/hostpath-plots-" paths))
  unfolding nth
  mount_paths-Distinct = (
    (
      (λ e. ne_of_nth 6 "/chia-ca" "/chia-data" refl refl (omega arith) e),
      fresh-names-append claims paths 1 "/chia-ca" "/plots/pvc-plots-" "/plots/hostpath-plots-" refl
          refl refl (omega arith) (omega arith),
    ),
    (
      fresh-names-append claims paths 1 "/chia-data" "/plots/pvc-plots-" "/plots/hostpath-plots-"
          refl refl refl (omega arith) (omega arith),
      names-append-Distinct claims paths 7 "/plots/pvc-plots-" "/plots/hostpath-plots-" refl refl
          (omega arith),
    ),
  )
