-- ===== src/Server/Config/Manager.antt =====
-- pkg/server/config/manager.go: the manager of the configuration, its construction and what it
-- generates. Monitor has the loop that watches the files.
pub mod Kept
pub mod Forced
use multus_cni.Base.{
  ℕ, String, ◌<>◌, Bool, true, false, Option, none, some, List, [], ◌∷◌, ◌==◌, ◌!=◌, string_eq,
  if◌then◌else◌,
}
use multus_cni.Base.Outcome.{Outcome, next}
use multus_cni.Base.Result.{Result, ok, err, panic, Error, errorf, wrap, context, or_panic, ◌>>=◌}
use multus_cni.Json.{
  Value, null, str, Fields, end, get, put, as_string, as_map, Bytes, json, malformed, unmarshal,
  marshal,
}
use multus_cni.Os.{Os, read_file, write_file}
use multus_cni.Server.Config.Primary.{find_master_plugin}
use multus_cni.Server.Config.Generator.{MultusConf, Semver, check_version_compatibility, generate}
use multus_cni.Server.Config.Generator.Capabilities.{set_capabilities}

-- The configuration of the manager is its own: the caller's is copied. `cni_config_data` is nil
-- without `some`.
pub record Manager : Type 0 where
  pub cni_config_data : Option Fields
  pub multus_config : MultusConf
  pub multus_config_dir : String
  pub multus_config_file_path : String
  pub readiness_indicator_file_path : String
  pub primary_cni_config_path : String

abbrev pub multus_config_file_name : String
multus_config_file_name = "00-multus.conf"

decoded : Bytes → Result Value
decoded (json v) = ok v
decoded (malformed _) = err (errorf "failed to unmarshall primary CNI config: invalid character")

unfoldable pub primary_cni_data : Os → String → Result Value
unfolding decoded
primary_cni_data os path =
    context ("failed to read the cluster primary CNI config " <> path <> ": ") (read_file os path)
    >>= decoded

abbrev pub with_conf : Manager → MultusConf → Manager
with_conf m conf = record m { multus_config = conf }

-- The manager that has the data of the primary configuration.
abbrev pub with_data : Manager → Fields → Manager
with_data m fields = record m {
  cni_config_data = some fields;
  multus_config = record m.multus_config { cluster_network = m.primary_cni_config_path };
}

capable : Manager → Result MultusConf → Outcome Manager (Unit {0})
capable m (ok conf) = (ok tt, with_conf m conf)
capable m (err e) = (err e, m)
capable m panic = (panic, m)

data_loaded : Manager → Value → Option Fields → Outcome Manager (Unit {0})
unfolding capable
data_loaded m v none = (panic, m)
data_loaded m v (some fields) =
    capable (with_data m fields) (set_capabilities (with_data m fields).multus_config v)

unfoldable pub load_primary_cni_configuration_data : Manager → Value → Outcome Manager (Unit {0})
unfolding data_loaded
load_primary_cni_configuration_data m v = data_loaded m v (as_map v)

module _ {V : Type 0} (S : Semver V) where
  -- The data of the primary configuration, if its version fits.
  unfoldable pub checked_data : Os → Manager → Result Value
  checked_data os m = do
    v ←
        context
          ("failed to access the primary CNI configuration from " <> m.primary_cni_config_path
            <> ": ")
          (primary_cni_data os m.primary_cni_config_path)
    _ ← check_version_compatibility S m.multus_config v
    ok v

  unfoldable pub load_primary_cni_config_from_file : Os → Manager → Outcome Manager (Unit {0})
  unfolding checked_data load_primary_cni_configuration_data
  load_primary_cni_config_from_file os m =
      next (λ v m'. load_primary_cni_configuration_data m' v) (checked_data os m, m)

  generated : Outcome Manager (Unit {0}) → Outcome Manager Bytes
  unfolding generate
  generated (ok _, m) = let (text, conf) = generate m.multus_config in (ok text, with_conf m conf)
  generated (err _, m) = (ok (malformed ""), m)
  generated (panic, m) = (panic, m)

  -- With no primary configuration the text is empty, and there is no error.
  unfoldable pub generate_config : Os → Manager → Outcome Manager Bytes
  unfolding generated load_primary_cni_config_from_file
  generate_config os m = generated (load_primary_cni_config_from_file os m)

named : Manager → Option Value → Outcome Manager (Unit {0})
named m none = (err (errorf "failed to access delegate CNI plugin name"), m)
named m (some v) = elim (as_string v) [
  | none ↦ (panic, m)
  | some name ↦
      if name == ""
      then (err (errorf "the primary CNI Configuration does not feature the network name"), m)
      else (ok tt, with_conf m (record m.multus_config { name = name }))
]

abbrev data_fields : Option Fields → Fields
data_fields none = end
data_fields (some fields) = fields

unfoldable pub override_network_name : Manager → Outcome Manager (Unit {0})
unfolding named
override_network_name m = named m (get "name" (data_fields m.cni_config_data))

-- The mode of the file is not modelled.
unfoldable pub persist_multus_config : Bytes → Manager → Os → Result (Unit {0}) × Os
persist_multus_config text m os = write_file os m.multus_config_file_path text

-- What package filepath and fsnotify give: Abs, Dir, and the error of a watch of two directories.
pub record Paths : Type 0 where
  pub abs : String → Result String
  pub dir : String → String
  pub watch : String → String → Option Error

-- An assignment to the map that null leaves nil panics.
unfoldable pub put_version : String → String → Bytes → Result Bytes
put_version file version (json null) = panic
put_version file version bytes = do
  fields ← context ("failed to unmarshall cni config " <> file <> ": ") (unmarshal bytes)
  context "couldn't update cluster network config: "
      (marshal (put "cniVersion" (str version) fields))

abbrev versioned_file : Paths → String → String → Os → Result (String × Bytes)
versioned_file P file version os = do
  path ← context ("illegal path in cni config path " <> file <> ": ") (P.abs file)
  bytes ← context ("failed to read cni config " <> path <> ": ") (read_file os path)
  bytes' ← put_version file version bytes
  ok (path, bytes')

version_written : Os → String × Bytes → Result (Unit {0}) × Os
version_written os (path, bytes) =
    let (r, os') = write_file os path bytes in
    (context "couldn't update cluster network config: " r, os')

unfoldable pub override_cni_version : Paths → String → String → Os → Result (Unit {0}) × Os
unfolding put_version version_written
override_cni_version P file version os =
    next (λ file os'. version_written os' file) (versioned_file P file version os, os)

module _ {V : Type 0} (S : Semver V) (P : Paths) where
  forced : MultusConf → String → Os → Result (Unit {0}) × Os
  unfolding override_cni_version
  forced conf plugin os =
      if conf.force_cni_version
      then override_cni_version P (os.join (conf.multus_autoconfig_dir ∷ plugin ∷ []))
          conf.cni_version os
      else (ok tt, os)

  watched : MultusConf → Result (Unit {0})
  watched conf =
      let readiness =
        if conf.readiness_indicator_file != "" then P.dir conf.readiness_indicator_file else "" in
      elim (P.watch conf.multus_autoconfig_dir readiness) [ none ↦ ok tt | some e ↦ err e ]

  abbrev pub unread : MultusConf → String → Os → Manager
  unread conf plugin os = record {
    cni_config_data = none;
    multus_config = conf;
    multus_config_dir = conf.multus_autoconfig_dir;
    multus_config_file_path = os.join (conf.cni_config_dir ∷ multus_config_file_name ∷ []);
    readiness_indicator_file_path = conf.readiness_indicator_file;
    primary_cni_config_path = os.join (conf.multus_autoconfig_dir ∷ plugin ∷ []);
  }

  renamed : Outcome Manager (Unit {0}) → Result Manager
  renamed (ok _, m) = ok m
  renamed (err e, m) = err (wrap "could not override the network name: " e)
  renamed (panic, m) = panic

  primary_loaded : Outcome Manager (Unit {0}) → Result Manager
  unfolding renamed override_network_name
  primary_loaded (ok _, m) =
      if m.multus_config.override_network_name then renamed (override_network_name m) else ok m
  primary_loaded (err e, m) =
      err (wrap "failed to load the primary CNI configuration as a multus delegate with error " e)
  primary_loaded (panic, m) = panic

  made : MultusConf → String → Os → Result Manager
  unfolding watched primary_loaded
  made conf plugin os = watched conf >>= λ _.
      if plugin == conf.multus_autoconfig_dir <> "/" <> multus_config_file_name
      then err (errorf ("cannot specify " <> plugin <> " to prevent recursive config load"))
      else primary_loaded (load_primary_cni_config_from_file S os (unread conf plugin os))

  unfoldable pub make_manager : MultusConf → String → Os → Result Manager × Os
  unfolding forced made
  make_manager conf plugin os = next (λ _ os'. (made conf plugin os', os')) (forced conf plugin os)

  -- The plugin that is named, or the first one found in 120 tries.
  unfoldable pub get_primary_cni_plugin_name :
      (ℕ → Result (List String)) → MultusConf → Result String
  unfolding find_master_plugin
  get_primary_cni_plugin_name read_dir conf =
      if conf.multus_master_cni == ""
      then context "failed to find the cluster master CNI plugin: "
          (find_master_plugin read_dir conf.multus_autoconfig_dir 120)
      else ok conf.multus_master_cni

  unfoldable pub new_manager : (ℕ → Result (List String)) → MultusConf → Os → Result Manager × Os
  unfolding get_primary_cni_plugin_name make_manager
  new_manager read_dir conf os =
      next (λ plugin os'. make_manager conf plugin os')
        (get_primary_cni_plugin_name read_dir conf, os)
