-- ===== src/Tests/Entrypoint.antt =====
-- An entry point whose master's configuration holds its version alone.
use multus_cni.Base.{
  String, ◌<>◌, ◌≡◌, refl, true, false, none, some, List, [], ◌∷◌, string_eq, nat_eq, ne_by_test,
  if◌then◌else◌, ◌==◌,
}
use multus_cni.Base.Result.{ok, err, Error}
use multus_cni.Json.{str, end, field, get}
use multus_cni.Disk.{FileAction, Disk, stat_file, read_text, attempt}
use multus_cni.Disk.Ends.{Ends}
use multus_cni.Cmdutils.{copy_file_atomic}
use multus_cni.Cmdutils.Copied.{Copied, Kept, copy_file_atomic-Ends}
use multus_cni.ThinEntrypoint.{Options, Libraries}
use multus_cni.ThinEntrypoint.Files.{get_master_config_path, get_file_and_hash}
use multus_cni.ThinEntrypoint.Config.{Plan, plan, create_multus_config}
use multus_cni.ThinEntrypoint.Config.Installed.{IsAtomic, create_multus_config-IsAtomic}
use multus_cni.ThinEntrypoint.Config.Pinned.{create_multus_config-refuses}
use multus_cni.ThinEntrypoint.Template.{multus_conf_text}
use multus_cni.Base.Outcome.{Outcome}
use multus_cni.ThinEntrypoint.Kubeconfig.{create_kube_config, kube_config}
use multus_cni.ThinEntrypoint.Files.{verify_file_exists}
use multus_cni.Disk.{open_text, open_file, write_text, rename_file, remove_file, overlay}
use multus_cni.ThinEntrypoint.Watch.{Watching, start, entry, served, watch, tick}
use multus_cni.ThinEntrypoint.Watch.Cleaned.{entry-cleans}

abbrev options : Options
options = record {
  cni_bin_dir = "/bin";
  cni_conf_dir = "/etc";
  cni_version = "";
  multus_conf_file = "auto";
  multus_bin_file = "/multus";
  multus_cni_conf_dir = "";
  skip_multus_binary_copy = false;
  multus_kube_config_file_host = "/etc/kubeconfig";
  multus_master_cni_file_name = "10-flannel.conf";
  namespace_isolation = true;
  global_namespaces = "";
  multus_autoconfig_dir = "/etc";
  multus_log_to_stderr = true;
  multus_log_level = "";
  multus_log_file = "";
  override_network_name = false;
  cleanup_config_on_exit = true;
  rename_conf_file = false;
  readiness_indicator_file = "";
  additional_bin_dir = "";
  force_cni_version = false;
  skip_tls_verify = true;
  skip_multus_conf_watch = false;
}

-- A text is the version that it holds, and its own hash.
abbrev libraries : Libraries
libraries = record {
  join = λ dir name. dir <> "/" <> name;
  base = λ path. path;
  conf_files = λ _ _. ok [];
  lower = λ s. s;
  sha256 = λ s. s;
  base64 = λ s. s;
  getenv = λ _. "";
  parse = λ s. ok (field "cniVersion" (str s) end);
  print = λ _. "{}";
  quote = λ s. s;
}

abbrev disk : Disk
disk = record {
  files = λ path.
      if path == "/multus"
      then some "ELF"
      else if path == "/etc/10-flannel.conf"
      then some "0.4.0"
      else none;
  fault = λ _ _. none;
  cut = λ _ text. text;
  temp_name = λ _ _. "/bin/_multus1";
}

create_multus_config-IsAtomic_example :
    IsAtomic libraries options disk (create_multus_config libraries none options disk)
create_multus_config-IsAtomic_example =
    create_multus_config-IsAtomic libraries none options disk refl

-- What is planned for the version "0.3.1".
abbrev planned : Plan
planned = record {
  options = record options { cni_version = "0.3.1" };
  target = "/etc/00-multus.conf";
  text = multus_conf_text (record {
    cni_version = "0.3.1";
    master_plugin_network_name = "multus-cni-network";
    nested_capabilities = "";
    namespace_isolation_config = "\n        \"namespaceIsolation\": true,";
    global_namespaces_config = "";
    log_to_stderr_config = "";
    log_level_config = "";
    log_file_config = "";
    additional_bin_dir_config = "";
    multus_cni_conf_dir_config = "";
    readiness_indicator_file_config = "";
    multus_kube_config_file_host = "/etc/kubeconfig";
    master_plugin_json = "{}";
  });
}

plans : plan libraries options "0.3.1" ≡ ok planned
unfolding plan string_eq get
plans = refl

path_found :
    get_master_config_path libraries planned.options disk ≡ (ok "/etc/10-flannel.conf", disk)
unfolding get_master_config_path string_eq
path_found = refl

file_read : get_file_and_hash libraries "/etc/10-flannel.conf" disk ≡ (ok ("0.4.0", "0.4.0"), disk)
unfolding get_file_and_hash stat_file read_text attempt string_eq
file_read = refl

has_version : (s : String) → get "cniVersion" (field "cniVersion" (str s) end) ≡ some (str s)
unfolding get string_eq
has_version s = refl

create_multus_config-refuses_example :
    (failure : Error) × (create_multus_config libraries (some "0.3.1") planned.options disk
      ≡ (err failure, disk))
create_multus_config-refuses_example =
    create_multus_config-refuses libraries options planned (field "cniVersion" (str "0.3.1") end)
      (field "cniVersion" (str "0.4.0") end) "0.3.1" "0.4.0" "/etc/10-flannel.conf" "0.3.1" "0.4.0"
      "0.3.1" "0.4.0" disk refl refl (has_version "0.3.1") (ne_by_test "0.3.1" "" refl) plans
      path_found file_read (ne_by_test "0.3.1" "0.4.0" refl) refl (has_version "0.4.0")
      (ne_by_test "0.4.0" "0.3.1" refl)

copy_file_atomic-Ends_example :
    Ends
      (λ _. Copied "/bin/_multus1" "/bin/multus" "/multus" disk)
      (Kept "/bin/_multus1" "/bin/multus" "/multus" disk)
      (copy_file_atomic libraries.join "/multus" "/bin" "_multus" "multus" disk)
copy_file_atomic-Ends_example =
    copy_file_atomic-Ends libraries.join "/multus" "/bin" "_multus" "multus" disk
      (ne_by_test "/bin/multus" "/bin/_multus" refl) (ne_by_test "/multus" "/bin/_multus" refl)
      (ne_by_test "/bin/multus" "/bin/_multus1" refl) (ne_by_test "/multus" "/bin/_multus1" refl)

-- Every file is there.
abbrev host_disk : Disk
host_disk = record disk {
  files = λ path. if path == "/etc/10-flannel.conf" then some "0.4.0" else some "ELF";
}

abbrev begun : Outcome Disk Watching
begun = start libraries options host_disk

abbrev watching : Watching
watching = elim begun.0 [
  | ok w ↦ w
  | _ ↦ record {
    options = planned.options;
    ca_hash = none;
    sa_token_hash = none;
    master_config_file_path = "";
    master_config_hash = none;
    master_config_exists = true;
  }
]

begins : start libraries options host_disk ≡ (ok watching, begun.1)
unfolding start string_eq create_kube_config create_multus_config get_file_and_hash
    get_master_config_path stat_file read_text attempt copy_file_atomic verify_file_exists open_text
    open_file write_text rename_file remove_file overlay kube_config plan
begins = refl

-- The master's file goes before the second round.
abbrev changes : List (Disk → Disk)
changes = (λ d. d) ∷ (λ d. record d { files = λ _. none }) ∷ []

allowed :
    (path : String)
    → (served libraries changes watching begun.1).1.fault FileAction.remove path ≡ none
unfolding served start string_eq watch tick create_kube_config create_multus_config
    get_file_and_hash get_master_config_path stat_file read_text attempt copy_file_atomic
    verify_file_exists open_text open_file write_text rename_file remove_file overlay kube_config
    plan
allowed path = refl

entry-cleans_example :
    ((entry libraries changes options host_disk).1.files "/etc/00-multus.conf" ≡ none)
    × ((entry libraries changes options host_disk).1.files "/etc/00-multus.conflist" ≡ none)
unfolding start string_eq
entry-cleans_example =
    entry-cleans libraries changes options watching host_disk begun.1 begins refl refl
      (allowed "/etc/00-multus.conf") (allowed "/etc/00-multus.conflist")
