-- ===== src/ThinEntrypoint/Config.antt =====
-- cmd/thin_entrypoint/main.go: the configuration of Multus that is generated from the master's.
pub mod Installed
pub mod Pinned
use multus_cni.Base.{
  String, ◌<>◌, Bool, true, false, not, ◌&&◌, ◌||◌, Option, none, some, List, [], ◌∷◌, ◌==◌, ◌!=◌,
  string_eq, if◌then◌else◌,
}
use multus_cni.Base.Result.{
  Result, ok, err, panic, errorf, context, or_err, or_panic, ◌>>=◌ as ◌then◌,
}
use multus_cni.Base.Outcome.{Outcome, next}
use multus_cni.Json.{
  Value, str, bool, Fields, end, field, get, put, as_string, as_slice, as_map, as_bool,
}
use multus_cni.Disk.{
  Disk, Io, ◌>>=◌, ◌>>◌, give, lift, saying, reworded, stat_file, read_text, rename_file,
}
use multus_cni.Disk.Install.{Labels, install}
use multus_cni.ThinEntrypoint.{Options, Libraries}
use multus_cni.ThinEntrypoint.Files.{is_hash, get_file_and_hash, get_master_config_path}
use multus_cni.ThinEntrypoint.Template.{TemplateData, multus_conf_text, multus_conflist_text}

-- The loop over a map of capabilities; a value that is no Boolean panics.
add_capabilities : Fields → Fields → Result Fields
unfolding put
add_capabilities end found = ok found
add_capabilities (field k v more) found =
    or_panic (as_bool v) then λ b. add_capabilities more (put k (bool b) found)

capabilities_in : Option Value → Fields → Result Fields
unfolding add_capabilities
capabilities_in none found = ok found
capabilities_in (some v) found = or_panic (as_map v) then λ m. add_capabilities m found

plugin_capabilities : List Value → Fields → Result Fields
unfolding capabilities_in get
plugin_capabilities [] found = ok found
plugin_capabilities (v ∷ vs) found = or_panic (as_map v) then λ m.
    capabilities_in (get "capabilities" m) found then plugin_capabilities vs

capabilities_from : Option Value → Fields → Result Fields
unfolding plugin_capabilities capabilities_in get
capabilities_from (some plugins) config =
    or_panic (as_slice plugins) then λ vs. plugin_capabilities vs end
capabilities_from none config = capabilities_in (get "capabilities" config) end

unfoldable pub master_capabilities : Fields → Result Fields
unfolding capabilities_from get
master_capabilities config = capabilities_from (get "plugins" config) config

is_end : Fields → Bool
is_end end = true
is_end (field _ _ _) = false

-- A line of the configuration, or nothing.
abbrev line : Bool → String → String → String
line given key value = if given then "\n        \"" <> key <> "\": " <> value <> "," else ""

log_level_line : (String → String) → String → String → Result String
log_level_line quote asked level =
    if level == "debug" || level == "error" || level == "panic" || level == "verbose"
    then ok (line true "logLevel" (quote level))
    else if level == ""
    then ok ""
    else err (
        errorf
          ("Log levels should be one of: debug/verbose/error/panic, did not understand: " <> asked))

-- A configuration that is to be written.
pub record Plan : Type 0 where
  pub options : Options
  pub target : String
  pub text : String

abbrev labels : Labels
labels = record {
  create = "cannot create multus cni temp file: ";
  execute = "cannot create multus cni config: ";
  flush = "cannot flush multus cni config: ";
  close = "cannot close multus cni config: ";
  replace = "cannot replace with temp file: ";
}

abbrev pub temp_file : Options → String
temp_file o = o.cni_conf_dir <> "/00-multus.conf.new"

-- The version of the master becomes the one of the options.
pub with_version : Options → Fields → Result (Options × Fields)
unfolding get put
with_version o config =
    or_err "cannot get cniVersion in master CNI config file" (get "cniVersion" config) then λ v.
    if o.force_cni_version
    then ok (o, put "cniVersion" (str o.cni_version) config)
    else or_panic (as_string v) then λ version.
        if o.cni_version != "" && version != o.cni_version
        then err (
            errorf (
              "Multus cni version is " <> o.cni_version <> " while master plugin cni version is "
              <> version))
        else ok (record o { cni_version = version }, config)

network_name : Options → Fields → Result String
unfolding get
network_name o config =
    if o.override_network_name
    then (or_err "cannot get name in master CNI config file" (get "name" config) then λ v.
        or_panic (as_string v))
    else ok "multus-cni-network"

master_renamed : Options → String → Io (Unit {0})
unfolding rename_file
master_renamed o path =
    if o.rename_conf_file
    then saying "cannot move original master file: " (rename_file path (path <> ".old"))
    else give tt

written : Options → String → String → Plan → Io (Options × String × String)
unfolding install master_renamed
written o path hash p =
    install labels false (temp_file o) p.target p.text
    >> master_renamed o path
    >> give (p.options, path, hash)

module _ (L : Libraries) where
  open L use {quote, print}

  template_data : Options → Fields → Result TemplateData
  unfolding network_name master_capabilities is_end log_level_line
  template_data o config = network_name o config then λ name.
      master_capabilities config then λ capabilities.
      log_level_line quote o.multus_log_level (L.lower o.multus_log_level) then λ level.
      ok (record {
        cni_version = o.cni_version;
        master_plugin_network_name = name;
        nested_capabilities = line (not (is_end capabilities)) "capabilities" (print capabilities);
        namespace_isolation_config = line o.namespace_isolation "namespaceIsolation" "true";
        global_namespaces_config =
            line (o.global_namespaces != "") "globalNamespaces" (quote o.global_namespaces);
        log_to_stderr_config = line (not o.multus_log_to_stderr) "logToStderr" "false";
        log_level_config = level;
        log_file_config = line (o.multus_log_file != "") "logFile" (quote o.multus_log_file);
        additional_bin_dir_config =
            line (o.additional_bin_dir != "") "binDir" (quote o.additional_bin_dir);
        multus_cni_conf_dir_config =
            line (o.multus_cni_conf_dir != "") "cniConf" (quote o.multus_cni_conf_dir);
        readiness_indicator_file_config =
            line (o.readiness_indicator_file != "") "readinessindicatorfile"
              (quote o.readiness_indicator_file);
        multus_kube_config_file_host = o.multus_kube_config_file_host;
        master_plugin_json = print config;
      })

  -- The configuration for what the master's file holds.
  unfoldable pub plan : Options → String → Result Plan
  unfolding with_version template_data multus_conf_text multus_conflist_text
  plan o content = context "cannot read master CNI config json: " (L.parse content) then λ read.
      with_version o read then λ (o', config). template_data o' config then λ t. ok (
        if o'.cni_version == "1.0.0"
        then record {
          options = o';
          target = o.cni_conf_dir <> "/00-multus.conflist";
          text = multus_conflist_text t;
        }
        else record {
          options = o';
          target = o.cni_conf_dir <> "/00-multus.conf";
          text = multus_conf_text t;
        })

  -- createMultusConfig, with the options behind it: the path of the master's file and its hash.
  unfoldable pub create_multus_config : Option String → Options → Io (Options × String × String)
  unfolding get_master_config_path get_file_and_hash plan written
  create_multus_config prev o = get_master_config_path L o >>= λ path.
      get_file_and_hash L path >>= λ (content, hash).
      if is_hash prev hash
      then give (o, path, hash)
      else (lift (plan o content) >>= written o path hash)
