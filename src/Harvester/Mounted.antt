-- ===== src/Harvester/Mounted.antt =====
-- What a harvester's pods see of the plots that its resource lists: getChiaVolumes and
-- getChiaVolumeMounts of internal/controller/chiaharvester_controller.go.
use mathlib.Core.List.Memᴰ
use chia_opera.Base.{
  ℕ, ◌<>◌, ◌≡◌, sym, subst, false, true, Option, some, List, ◌∷◌, ◌++◌, map, inl, inr, ◌⊎◌, ◌↔◌,
  value, bind_eval-eq-value, itoa, numbered, Memᴰ, head, tail, get_elem?, Memᴰ-map-numbered,
  Memᴰ-append,
}
use chia_opera.Kube.{Kube, Volume, VolumeMount, host_path, persistent_volume_claim, secret}
use chia_opera.Api.Common.{PersistentVolumeClaimConfig, HostPathVolumeConfig}
use chia_opera.Api.Harvester.{ChiaHarvester}
use chia_opera.Common.{chia_root_volume}
use chia_opera.Harvester.{
  plot_claims, plot_host_paths, pvc_plot_volume, host_path_plot_volume, pvc_plot_mount,
  host_path_plot_mount, get_chia_volumes, get_chia_volume_mounts,
}

module _ (claims : List (Option PersistentVolumeClaimConfig))
    (paths : List (Option HostPathVolumeConfig)) where
  module _ {A : Type 0} (f : ℕ × PersistentVolumeClaimConfig → A)
      (g : ℕ × HostPathVolumeConfig → A) where
    -- The item is what is made of a claim that is listed, or of a directory, at its index.
    abbrev pub IsOfPlot : A → Type 0
    IsOfPlot v =
        ((i : ℕ) × (vol : PersistentVolumeClaimConfig) × (get_elem? claims i ≡ some (some vol))
          × (v ≡ f (i, vol)))
        ⊎ ((i : ℕ) × (vol : HostPathVolumeConfig) × (get_elem? paths i ≡ some (some vol))
            × (v ≡ g (i, vol)))

    abbrev pub plot_items : List A
    plot_items = map f (numbered 0 claims) ++ map g (numbered 0 paths)

    plot_items-IsOfPlot : (v : A) → Memᴰ v plot_items → IsOfPlot v
    plot_items-IsOfPlot v m =
        elim ((Memᴰ-append v (map f (numbered 0 claims)) (map g (numbered 0 paths))).0 m) [
          | inl c ↦ inl ((Memᴰ-map-numbered f claims v).0 c)
          | inr d ↦ inr ((Memᴰ-map-numbered g paths v).0 d)
        ]

    Memᴰ-plot_items : (v : A) → IsOfPlot v → Memᴰ v plot_items
    Memᴰ-plot_items v (inl c) =
        Memᴰ.append_left (map g (numbered 0 paths)) ((Memᴰ-map-numbered f claims v).1 c)
    Memᴰ-plot_items v (inr d) =
        Memᴰ.append_right (map f (numbered 0 claims)) ((Memᴰ-map-numbered g paths v).1 d)

    -- Two items in front, as in getChiaVolumes and getChiaVolumeMounts.
    items_of : (a b v : A) → Memᴰ v (a ∷ b ∷ plot_items) → (v ≡ a) ⊎ ((v ≡ b) ⊎ IsOfPlot v)
    items_of a b v (head e) = inl e
    items_of a b v (tail (head e)) = inr (inl e)
    items_of a b v (tail (tail m)) = inr (inr (plot_items-IsOfPlot v m))

    of_items : (a b v : A) → (v ≡ a) ⊎ ((v ≡ b) ⊎ IsOfPlot v) → Memᴰ v (a ∷ b ∷ plot_items)
    of_items a b v (inl e) = head e
    of_items a b v (inr (inl e)) = tail (head e)
    of_items a b v (inr (inr p)) = tail (tail (Memᴰ-plot_items v p))

module _ (K : Kube) (harvester : ChiaHarvester K) where
  -- The volume of a claim or a directory for plots is named by its index …
  abbrev pub IsPlotVolume : Volume → Type 0
  IsPlotVolume =
      IsOfPlot (plot_claims harvester.spec.storage) (plot_host_paths harvester.spec.storage)
        (λ p. record {
          name = "pvc-plots-" <> itoa p.0;
          source = persistent_volume_claim p.1.claim_name;
        })
        (λ p. record { name = "hostpath-plots-" <> itoa p.0; source = host_path p.1.path })

  -- … and mounted read-only below /plots under its name.
  abbrev pub IsPlotMount : VolumeMount → Type 0
  IsPlotMount =
      IsOfPlot (plot_claims harvester.spec.storage) (plot_host_paths harvester.spec.storage)
        (λ p. record {
          name = "pvc-plots-" <> itoa p.0;
          read_only = true;
          mount_path = "/plots/pvc-plots-" <> itoa p.0;
        })
        (λ p. record {
          name = "hostpath-plots-" <> itoa p.0;
          read_only = true;
          mount_path = "/plots/hostpath-plots-" <> itoa p.0;
        })

  abbrev pub IsVolume : Volume → Volume → Type 0
  IsVolume root v =
      (v ≡ record { name = "secret-ca"; source = secret harvester.spec.chia_config.ca_secret_name })
      ⊎ ((v ≡ root) ⊎ IsPlotVolume v)

  abbrev pub IsMount : VolumeMount → Type 0
  IsMount m =
      (m ≡ record { name = "secret-ca"; read_only = false; mount_path = "/chia-ca" })
      ⊎ ((m ≡ record { name = "chiaroot"; read_only = false; mount_path = "/chia-data" })
          ⊎ IsPlotMount m)

  get_chia_volumes-eq-value :
      (vs : List Volume) (root : Volume)
      → chia_root_volume harvester.spec.storage ≡ value root
      → get_chia_volumes K harvester ≡ value vs
      → vs
        ≡ record { name = "secret-ca"; source = secret harvester.spec.chia_config.ca_secret_name }
          ∷ root
          ∷ plot_items
              (plot_claims harvester.spec.storage)
              (plot_host_paths harvester.spec.storage)
              pvc_plot_volume
              host_path_plot_volume
  unfolding get_chia_volumes
  get_chia_volumes-eq-value vs root r h =
      let (root', r', made) = bind_eval-eq-value (chia_root_volume harvester.spec.storage) _ h in
      cc (made, r, r')

  -- Where the volumes are assembled, around a volume for CHIA_ROOT, a volume is one of them exactly
  -- when it is that of the CA secret, that for CHIA_ROOT, or that of a claim or a directory that the
  -- resource lists for plots, named by its index; and the mounts of the chia container are, exactly,
  -- those of the CA secret and of CHIA_ROOT, and for each such claim and directory a read-only one
  -- below /plots.
  pub plots_mounted :
      (vs : List Volume) (root : Volume)
      → chia_root_volume harvester.spec.storage ≡ value root
      → get_chia_volumes K harvester ≡ value vs
      → ((v : Volume) → Memᴰ v vs ↔ IsVolume root v)
        × ((m : VolumeMount) → Memᴰ m (get_chia_volume_mounts K harvester) ↔ IsMount m)
  unfolding get_chia_volume_mounts pvc_plot_volume host_path_plot_volume pvc_plot_mount
      host_path_plot_mount
  plots_mounted vs root r h =
      let made = get_chia_volumes-eq-value vs root r h in
      let claims = plot_claims harvester.spec.storage in
      let paths = plot_host_paths harvester.spec.storage in
      (
        λ v. (
          λ m. items_of claims paths _ _ _ root v (subst (λ ws. Memᴰ v ws) made m),
          λ p. subst (λ ws. Memᴰ v ws) (sym made) (of_items claims paths _ _ _ root v p),
        ),
        λ m. (items_of claims paths _ _ _ _ m, of_items claims paths _ _ _ _ m),
      )
