-- ===== src/Tests/Chain.antt =====
-- A shim that adds a container, and the daemon that serves its request.
use multus_cni.Base.{
  String, ◌≡◌, refl, none, some, List, [], ◌∷◌, false, arith, string_eq, nat_eq, ne_by_test, map,
  All,
}
use multus_cni.Base.Result.{ok}
use multus_cni.Json.{Bytes, Fields, field, end, str, get, json, obj, malformed}
use multus_cni.Text.{is_space, trim_space, split, split_once}
use multus_cni.Server.Api.{new_cni_request}
use multus_cni.Server.Api.Delivered.{IsVariable, item, value_of}
use multus_cni.Server.Handlers.{Server, serve_cni}
use multus_cni.Server.Handlers.Attached.{IsAttached, serve_cni-new_cni_request}
use multus_cni.Json.{marshal, unmarshal, put, written_fields}
use multus_cni.Os.{write_file}
use multus_cni.Conf.Delegate.{load_delegate_net_conf}
use multus_cni.Conf.Netconf.{
  load_net_conf, load_raw_delegates, finish_net_conf, mark_master, isolate,
}
use multus_cni.Conf.Runtime.{create_cni_runtime_conf}
use multus_cni.K8sclient.Client.{get_k8s_client}
use multus_cni.Multus.Scratch.{save_scratch_net_conf}
use multus_cni.Multus.Add.{prepare, attach_all, cmd_add}
use multus_cni.Multus.Attach.{attach_one, gathered, choose}
use multus_cni.Base.Dict.{lookup, insert}
use multus_cni.Server.Requests.{is_empty, override_cni_config_with_server_config, copy_all}
use multus_cni.Server.Requests.Override.{merged}
use multus_cni.Multus.Gc.{Operations}
use multus_cni.Tests.Hosts.{delegate, host, plugin, start}

abbrev env : List (String × String)
env =
    ("CNI_COMMAND", "ADD")
    ∷ ("CNI_CONTAINERID", "abc")
    ∷ ("CNI_NETNS", "/var/run/netns/test")
    ∷ ("CNI_IFNAME", "eth0")
    ∷ ("CNI_ARGS", "K8S_POD_NAMESPACE=default;K8S_POD_NAME=pod;K8S_POD_UID=7")
    ∷ []

env-IsVariable : All IsVariable env
unfolding is_space nat_eq
env-IsVariable = (
  (ne_by_test "CNI_COMMAND" "" refl, omega arith, (ground arith)),
  (
    (ne_by_test "CNI_CONTAINERID" "" refl, omega arith, (ground arith)),
    (
      (ne_by_test "CNI_NETNS" "" refl, omega arith, (ground arith)),
      (
        (ne_by_test "CNI_IFNAME" "" refl, omega arith, (ground arith)),
        ((ne_by_test "CNI_ARGS" "" refl, omega arith, (ground arith)), tt),
      ),
    ),
  ),
)

is_command : value_of "CNI_COMMAND" env ≡ some "ADD"
unfolding string_eq
is_command = refl

is_container : value_of "CNI_CONTAINERID" env ≡ some "abc"
unfolding string_eq
is_container = refl

is_netns : value_of "CNI_NETNS" env ≡ some "/var/run/netns/test"
unfolding string_eq
is_netns = refl

is_args : value_of "CNI_ARGS" env ≡ some "K8S_POD_NAMESPACE=default;K8S_POD_NAME=pod;K8S_POD_UID=7"
unfolding string_eq
is_args = refl

abbrev stdin_data : Bytes
stdin_data = json (obj plugin)

abbrev config : Fields
config = field "logLevel" (str "debug") end

abbrev operations : Operations
operations = record {
  read_dir = λ _. ok [];
  cached_names = λ _. none;
  parse_list = λ _. none;
  status_list = λ _. none;
  gc_list = λ _ _. none;
}

abbrev server : Server
server = record {
  host = host;
  operations = operations;
  client = none;
  config = json (obj config);
  ignore_readiness = false;
  serialize = λ _. ok stdin_data;
  decode_request = λ _. some (new_cni_request (map item env) stdin_data);
  decode_delegate = λ _. ok delegate;
  print_args = λ _. "";
}

serves :
    serve_cni server (malformed "request") start
    ≡ (ok stdin_data, (serve_cni server (malformed "request") start).1)
unfolding serve_cni new_cni_request cmd_add prepare attach_all string_eq nat_eq load_net_conf
    load_raw_delegates load_delegate_net_conf finish_net_conf marshal mark_master isolate
    get_k8s_client save_scratch_net_conf write_file create_cni_runtime_conf attach_one gathered
    choose override_cni_config_with_server_config copy_all unmarshal put get written_fields is_space
    trim_space split split_once lookup insert is_empty
serves = refl

serve_cni-new_cni_request_example :
    (fields : Fields) × ((k : String) → get k fields ≡ merged false k config plugin)
    × IsAttached server
        (record {
          container_id = "abc";
          netns = "/var/run/netns/test";
          if_name = "eth0";
          args = "K8S_POD_NAMESPACE=default;K8S_POD_NAME=pod;K8S_POD_UID=7";
          stdin_data = json (obj (written_fields fields));
        })
        start
        (serve_cni server (malformed "request") start).1
unfolding string_eq
serve_cni-new_cni_request_example =
    serve_cni-new_cni_request server env plugin config (malformed "request") "abc"
      "/var/run/netns/test" "K8S_POD_NAMESPACE=default;K8S_POD_NAME=pod;K8S_POD_UID=7" start
      (serve_cni server (malformed "request") start).1 stdin_data refl refl env-IsVariable
      is_command is_container is_netns is_args serves
