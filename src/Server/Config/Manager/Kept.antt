-- ===== src/Server/Config/Manager/Kept.antt =====
-- What a load of the primary configuration leaves as it is.
use multus_cni.Base.{String, ◌≡◌, refl, ◌∙◌, Option, none, some}
use multus_cni.Base.Outcome.{Outcome, next}
use multus_cni.Base.Result.{Result, ok, err, panic, Ensures, returns, fails, panics}
use multus_cni.Json.{Value, Fields, as_map}
use multus_cni.Os.{Os}
use multus_cni.Server.Config.Generator.{MultusConf, Semver, generate, flushed}
use multus_cni.Server.Config.Generator.Capabilities.{set_capabilities-network}
use multus_cni.Server.Config.Manager.{
  Manager, with_data, capable, data_loaded, load_primary_cni_configuration_data, checked_data,
  load_primary_cni_config_from_file, generated, generate_config,
}

-- The files that the manager writes, watches and reads.
abbrev pub places : Manager → String × String × String
places m = (m.multus_config_file_path, m.readiness_indicator_file_path, m.primary_cni_config_path)

-- The primary configuration is the cluster network.
abbrev pub IsLoaded : Manager → Type 0
IsLoaded m = m.multus_config.cluster_network ≡ m.primary_cni_config_path

abbrev pub Kept : Manager → Manager → Type 0
Kept m m' = (places m' ≡ places m) × (IsLoaded m → IsLoaded m')

capable-Kept :
    (m : Manager) {x : Result MultusConf}
    → Ensures (λ c. c.cluster_network ≡ m.multus_config.cluster_network) x
    → Kept m (capable m x).1
unfolding capable
capable-Kept m (returns e) = (refl, λ l. e ∙ l)
capable-Kept m fails = (refl, λ l. l)
capable-Kept m panics = (refl, λ l. l)

data_loaded-Kept : (m : Manager) (v : Value) (o : Option Fields) → Kept m (data_loaded m v o).1
unfolding data_loaded
data_loaded-Kept m v none = (refl, λ l. l)
data_loaded-Kept m v (some fields) =
    let m' = with_data m fields in
    let (e, l) = capable-Kept m' (set_capabilities-network m'.multus_config v) in (e, λ _. l refl)

module _ {V : Type 0} (S : Semver V) where
  next_data-Kept :
      (m : Manager) (r : Result Value)
      → Kept m (next (λ v m'. load_primary_cni_configuration_data m' v) (r, m)).1
  unfolding load_primary_cni_configuration_data
  next_data-Kept m (ok v) = data_loaded-Kept m v (as_map v)
  next_data-Kept m (err e) = (refl, λ l. l)
  next_data-Kept m panic = (refl, λ l. l)

  pub load-Kept : (os : Os) (m : Manager) → Kept m (load_primary_cni_config_from_file S os m).1
  unfolding load_primary_cni_config_from_file
  load-Kept os m = next_data-Kept m (checked_data S os m)

  generated-Kept : (x : Outcome Manager (Unit {0})) → Kept x.1 (generated S x).1
  unfolding generated generate flushed
  generated-Kept (ok _, m) = (refl, λ l. l)
  generated-Kept (err _, m) = (refl, λ l. l)
  generated-Kept (panic, m) = (refl, λ l. l)

  pub generate_config-Kept : (os : Os) (m : Manager) → Kept m (generate_config S os m).1
  unfolding generate_config
  generate_config-Kept os m =
      let (e, k) = load-Kept os m in
      let (e', k') = generated-Kept (load_primary_cni_config_from_file S os m) in
      (e' ∙ e, λ l. k' (k l))
