-- ===== src/Server/Requests.antt =====
-- pkg/server/server.go: the requests of the daemon, from the variables and the configuration that
-- the shim sends to the commands of Multus.
pub mod Override
use multus_cni.Base.{
  ℕ, String, ◌<>◌, Bool, true, false, not, ◌&&◌, ◌||◌, Option, none, some, List, [], ◌∷◌, ◌==◌,
  ◌!=◌, string_eq, if◌then◌else◌,
}
use multus_cni.Base.Dict.{Dict, lookup, insert}
use multus_cni.Base.Result.{Result, ok, err, panic, Error, errorf, context, or_err, ◌>>=◌}
use multus_cni.Json.{
  Value, null, obj, Fields, end, field, put, Bytes, json, malformed, unmarshal, marshal,
}
use multus_cni.Os.{Os}
use multus_cni.Text.{split, trim_space}
use multus_cni.Types.{
  NetworkSelectionElement, NetConf, DelegateNetConf, K8sArgs, CmdArgs, RuntimeConf,
}
use multus_cni.Conf.Delegate.{load_delegate_net_conf}
use multus_cni.Conf.Netconf.{default_net_conf}
use multus_cni.Conf.Runtime.{create_cni_runtime_conf}
use multus_cni.K8sclient.Client.{Pod, Client}
use multus_cni.Multus.Add.{cmd_add, reads_of}
use multus_cni.Multus.Calls.{Trace}
use multus_cni.Multus.Commands.{cmd_check}
use multus_cni.Multus.Del.{cmd_del}
use multus_cni.Multus.Gc.{Operations, cmd_gc, cmd_status}
use multus_cni.Multus.Host.{Host}
use multus_cni.Multus.Plugins.{delegate_add, delegate_del}
use multus_cni.Multus.Pod.{get_pod}
use multus_cni.Multus.World.{World, Act, restated, rephrase, lift}

-- api.Request and its interface attributes.
pub record Attributes : Type 0 where
  pub ip_request : Option (List String)
  pub mac_request : String
  pub cni_args : Option Fields

pub record Request : Type 0 where
  pub env : Dict String
  pub config : Bytes
  pub attributes : Option Attributes

-- An empty text.
unfoldable pub is_empty : Bytes → Bool
is_empty (malformed text) = text == ""
is_empty (json _) = false

-- json.Unmarshal into a map: null leaves it nil.
unmarshal_map : String → Bytes → Result (Option Fields)
unmarshal_map what (json null) = ok none
unmarshal_map what bytes = context what (unmarshal bytes) >>= λ fields. ok (some fields)

abbrev pub is_ignored : Bool → String → Bool
is_ignored ignore k = ignore && k == "readinessindicatorfile"

-- The loop over the overriding map. Its order, which Go leaves open, is from the last key to the first.
unfoldable pub copy_all : Bool → Fields → Fields → Fields
copy_all ignore end cni = cni
copy_all ignore (field k v more) cni =
    let rest = copy_all ignore more cni in if is_ignored ignore k then rest else put k v rest

-- An assignment to a map that is nil panics.
overridden : Bool → Fields → Option Fields → Result Bytes
unfolding copy_all
overridden ignore override (some cni) =
    context "failed ot marshall new CNI config with overrides: "
      (marshal (copy_all ignore override cni))
overridden ignore end none = ok (json null)
overridden ignore (field k v more) none =
    if is_ignored ignore k then (let rest = overridden ignore more none in rest) else panic

abbrev or_end : Option Fields → Fields
or_end none = end
or_end (some fields) = fields

unfoldable pub override_cni_config_with_server_config : Bytes → Bytes → Bool → Result Bytes
unfolding is_empty unmarshal_map overridden
override_cni_config_with_server_config cni_conf override_conf ignore =
    if is_empty override_conf
    then ok cni_conf
    else (unmarshal_map "failed to unmarshall CNI config: " cni_conf >>= λ cni.
        unmarshal_map "failed to unmarshall CNI override config: " override_conf >>= λ override.
        overridden ignore (or_end override) cni)

abbrev pub or_eth0 : Option String → String
or_eth0 none = "eth0"
or_eth0 (some name) = name

-- The command and its arguments.
unfoldable pub extract_cni_data : Bytes → Bool → Request → Result (String × CmdArgs)
unfolding override_cni_config_with_server_config
extract_cni_data override_conf ignore request = do
  cmd ← or_err "unexpected or missing CNI_COMMAND" (lookup "CNI_COMMAND" request.env)
  container_id ← or_err "missing CNI_CONTAINERID" (lookup "CNI_CONTAINERID" request.env)
  netns ← or_err "missing CNI_NETNS" (lookup "CNI_NETNS" request.env)
  cni_args ← or_err "missing CNI_ARGS" (lookup "CNI_ARGS" request.env)
  stdin_data ← override_cni_config_with_server_config request.config override_conf ignore
  ok (
    cmd,
    record {
      container_id = container_id;
      netns = netns;
      if_name = or_eth0 (lookup "CNI_IFNAME" request.env);
      args = cni_args;
      stdin_data = stdin_data;
    },
  )

add_part : String → List String → Dict String → Result (Dict String)
unfolding trim_space
add_part arg (key ∷ value ∷ []) d = ok (insert (trim_space key) (trim_space value) d)
add_part arg _ d = err (errorf ("invalid CNI_ARG '" <> arg <> "'"))

-- 61 is "=".
unfoldable pub gather_parts : List String → Dict String → Result (Dict String)
unfolding add_part split
gather_parts [] d = ok d
gather_parts (arg ∷ more) d = add_part arg (split 61 arg) d >>= gather_parts more

-- 59 is ";".
unfoldable pub gather_cni_args : Dict String → Result (Dict String)
unfolding gather_parts split
gather_cni_args env =
    or_err "missing CNI_ARGS" (lookup "CNI_ARGS" env) >>= λ args. gather_parts (split 59 args) []

-- Without a client the method of a nil pointer panics.
asked_uid : Option Client → String → String → Result String
asked_uid none namespace name = panic
asked_uid (some client) namespace name =
    context "missing pod UID; attempted to recover it from the K8s API, but failed: "
      (client.get_pod namespace name)
    >>= λ pod. ok pod.uid

pod_uid : Option Client → Option String → String → String → Result String
unfolding asked_uid
pod_uid client (some uid) namespace name = ok uid
pod_uid client none namespace name = asked_uid client namespace name

or_nothing : Option String → String
or_nothing none = ""
or_nothing (some s) = s

unfoldable pub kubernetes_runtime_args : Dict String → Option Client → Result K8sArgs
unfolding gather_cni_args pod_uid or_nothing
kubernetes_runtime_args env client = do
  args ← gather_cni_args env
  namespace ← or_err "missing K8S_POD_NAMESPACE" (lookup "K8S_POD_NAMESPACE" args)
  name ← or_err "missing K8S_POD_NAME" (lookup "K8S_POD_NAME" args)
  uid ← pod_uid client (lookup "K8S_POD_UID" args) namespace name
  ok (record {
    pod_name = name;
    pod_namespace = namespace;
    pod_infra_container_id = or_nothing (lookup "K8S_POD_INFRA_CONTAINER_ID" env);
    pod_uid = uid;
  })
