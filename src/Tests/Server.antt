-- ===== src/Tests/Server.antt =====
-- A daemon whose primary plugin is one of two in a directory.
use mathlib.Core.List.Memᴰ.{head, tail}
use multus_cni.Base.{
  ℕ, String, ◌≡◌, refl, none, some, List, [], ◌∷◌, true, string_eq, nat_eq, arith,
}
use multus_cni.Base.Result.{ok}
use multus_cni.Json.{
  Fields, Value, str, end, field, json, obj, get, put, unmarshal, marshal, written_fields,
}
use multus_cni.Os.{Os, read_file, write_file}
use multus_cni.Server.Requests.{override_cni_config_with_server_config}
use multus_cni.Server.Requests.Override.{merged, override_cni_config-merged}
use multus_cni.Text.{starts_with}
use multus_cni.Server.Config.Generator.{
  MultusConf, Semver, daemon_defaults, check_version_compatibility,
}
use multus_cni.Server.Config.Primary.{
  find_master_plugin, plugin_configs, is_plugin_config, ext, sort, insert_sorted, before,
}
use multus_cni.Server.Config.Primary.Search.{IsListed, find_master_plugin-finds}
use multus_cni.Server.Config.Manager.{
  Manager, Paths, override_cni_version, primary_cni_data, put_version,
}
use multus_cni.Server.Config.Manager.Forced.{override_cni_version-compatible}
use multus_cni.Server.Config.Monitor.{cancelled, react, begun, signalled}
use multus_cni.Server.Config.Monitor.Settled.{Settles, Reaches-Settles}

abbrev names : List String
names = "00-multus.conf" ∷ "10-flannel.conflist" ∷ "05-bridge.conf" ∷ []

finds : find_master_plugin (λ _. ok names) "/etc/cni/net.d" 3 ≡ ok "05-bridge.conf"
unfolding find_master_plugin plugin_configs is_plugin_config ext starts_with sort insert_sorted
    before string_eq nat_eq
finds = refl

is_config : is_plugin_config "05-bridge.conf" ≡ true
unfolding is_plugin_config ext starts_with string_eq nat_eq
is_config = refl

find_master_plugin-finds_example :
    (found : String) × (find_master_plugin (λ j. ok names) "/etc/cni/net.d" 120 ≡ ok found)
    × IsListed (λ j. ok names) "/etc/cni/net.d" found 120
find_master_plugin-finds_example =
    find_master_plugin-finds (λ _. names) "/etc/cni/net.d" 120 7 "05-bridge.conf" (omega arith)
      (tail (tail (head refl))) is_config

-- The versions "0.3.1" and all others, of which "0.4.0" is the least.
abbrev semver : Semver ℕ
semver = record { make = λ _. ok 1; v040 = 1; gte = λ _ _. true }

abbrev paths : Paths
paths = record { abs = λ path. ok path; dir = λ path. path; watch = λ _ _. none }

abbrev conf : MultusConf
conf = record daemon_defaults { cni_version = "1.0.0" }

abbrev primary : String
primary = "/host/05-bridge.conf"

abbrev os : Os
os = record {
  files = λ _. some (json (obj (field "name" (str "bridge") end)));
  read_fault = λ _. none;
  write_fault = λ _. none;
  join = λ _. "";
}

forces :
    override_cni_version paths primary "1.0.0" os
    ≡ (ok tt, (override_cni_version paths primary "1.0.0" os).1)
unfolding override_cni_version put_version read_file write_file unmarshal marshal put written_fields
    string_eq
forces = refl

override_cni_version-compatible_example :
    (primary' : Value) × (primary_cni_data (override_cni_version paths primary "1.0.0" os).1 primary
      ≡ ok primary')
    × (check_version_compatibility semver conf primary' ≡ ok tt)
override_cni_version-compatible_example =
    override_cni_version-compatible semver paths conf primary os
      (override_cni_version paths primary "1.0.0" os).1 refl refl forces

abbrev manager : Manager
manager = record {
  cni_config_data = none;
  multus_config = record conf { cluster_network = primary };
  multus_config_dir = "/host";
  multus_config_file_path = "/host/00-multus.conf";
  readiness_indicator_file_path = "";
  primary_cni_config_path = primary;
}

Reaches-Settles_example : Settles manager os.write_fault (react semver cancelled manager os)
Reaches-Settles_example =
    Reaches-Settles semver manager os (react semver cancelled manager os) refl refl
      (signalled cancelled begun)

-- The configuration of a daemon that waits for a file, and one that a request sent.
abbrev daemon_conf : Fields
daemon_conf = field "readinessindicatorfile" (str "/ready") (field "cniVersion" (str "1.0.0") end)

abbrev sent_conf : Fields
sent_conf = field "cniVersion" (str "0.3.1") (field "name" (str "multus") end)

override_cni_config-merged_example :
    (fields : Fields) × (override_cni_config_with_server_config
        (json (obj sent_conf))
        (json (obj daemon_conf))
        true
      ≡ ok (json (obj (written_fields fields))))
    × ((k : String) → get k fields ≡ merged true k daemon_conf sent_conf)
override_cni_config-merged_example = override_cni_config-merged true daemon_conf sent_conf
