-- ===== src/Common/Storage.antt =====
-- When the CHIA_ROOT volume of a farmer, a wallet or a harvester is there.
use chia_opera.Base.{◌≡◌, refl, Option, none, some, value, panic, nil_dereference}
use chia_opera.Kube.{Volume, host_path, persistent_volume_claim, empty_dir}
use chia_opera.Api.Common.{StorageConfig, PersistentVolumeClaimConfig, HostPathVolumeConfig}
use chia_opera.Common.{root_claim, root_host_path, chia_root_source, chia_root_volume}

-- A claim is configured for CHIA_ROOT and a host path is not: the case in which the code
-- dereferences nil.
abbrev pub ClaimAlone : Option PersistentVolumeClaimConfig → Option HostPathVolumeConfig → Type 0
ClaimAlone (some claim) none = Unit
ClaimAlone _ _ = ⊥

-- The volume where there is no panic.
abbrev pub root_volume_of :
    Option PersistentVolumeClaimConfig → Option HostPathVolumeConfig → Volume
root_volume_of none none = record { name = "chiaroot"; source = empty_dir }
root_volume_of none (some host) = record { name = "chiaroot"; source = host_path host.path }
root_volume_of (some claim) none = record { name = "chiaroot"; source = empty_dir }
root_volume_of (some claim) (some host) = record {
  name = "chiaroot";
  source = persistent_volume_claim host.path;
}

chia_root_source-eq :
    (claim : Option PersistentVolumeClaimConfig) (host : Option HostPathVolumeConfig)
    → ¬ ClaimAlone claim host
    → chia_root_source claim host ≡ value (root_volume_of claim host)
unfolding chia_root_source
chia_root_source-eq none none h = refl
chia_root_source-eq none (some host) h = refl
chia_root_source-eq (some claim) none h = absurd (h tt)
chia_root_source-eq (some claim) (some host) h = refl

chia_root_source-panics :
    (claim : Option PersistentVolumeClaimConfig) (host : Option HostPathVolumeConfig)
    → ClaimAlone claim host
    → chia_root_source claim host ≡ panic nil_dereference
unfolding chia_root_source
chia_root_source-panics (some claim) none h = refl
chia_root_source-panics none none h = absurd h
chia_root_source-panics none (some host) h = absurd h
chia_root_source-panics (some claim) (some host) h = absurd h

abbrev pub PanicsOn : Option StorageConfig → Type 0
PanicsOn storage = ClaimAlone (root_claim storage) (root_host_path storage)

abbrev pub root_volume : Option StorageConfig → Volume
root_volume storage = root_volume_of (root_claim storage) (root_host_path storage)

pub chia_root_volume-eq :
    (storage : Option StorageConfig)
    → ¬ PanicsOn storage
    → chia_root_volume storage ≡ value (root_volume storage)
unfolding chia_root_volume
chia_root_volume-eq storage h = chia_root_source-eq (root_claim storage) (root_host_path storage) h

pub chia_root_volume-panics :
    (storage : Option StorageConfig)
    → PanicsOn storage
    → chia_root_volume storage ≡ panic nil_dereference
unfolding chia_root_volume
chia_root_volume-panics storage h =
    chia_root_source-panics (root_claim storage) (root_host_path storage) h

name-root_volume_of :
    (claim : Option PersistentVolumeClaimConfig) (host : Option HostPathVolumeConfig)
    → (root_volume_of claim host).name ≡ "chiaroot"
name-root_volume_of none none = refl
name-root_volume_of none (some host) = refl
name-root_volume_of (some claim) none = refl
name-root_volume_of (some claim) (some host) = refl

pub name-root_volume : (storage : Option StorageConfig) → (root_volume storage).name ≡ "chiaroot"
name-root_volume storage = name-root_volume_of (root_claim storage) (root_host_path storage)

-- Where a claim is configured, the CHIA_ROOT volume or the panic is the same for every claim, whatever
-- its name is.
pub chia_root_volume_ignores_claim :
    (a b : StorageConfig) (c d : PersistentVolumeClaimConfig)
    → root_claim (some a) ≡ some c
    → root_claim (some b) ≡ some d
    → root_host_path (some a) ≡ root_host_path (some b)
    → chia_root_volume (some a) ≡ chia_root_volume (some b)
unfolding chia_root_volume
chia_root_volume_ignores_claim a b c d ha hb same =
    rw (ha, hb, same) (ignores c d (root_host_path (some b)))
  where
    ignores :
        (c d : PersistentVolumeClaimConfig) (host : Option HostPathVolumeConfig)
        → chia_root_source (some c) host ≡ chia_root_source (some d) host
    ignores c d none = refl
    ignores c d (some host) = refl
