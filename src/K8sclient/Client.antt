-- ===== src/K8sclient/Client.antt =====
-- What the package asks of the API server, of the kubelet and of the CNI directory, and the pod.
use multus_cni.Base.{String, Bool, false, Option, none, some, List, ◌!=◌, string_eq, if◌then◌else◌}
use multus_cni.Base.Dict.{Dict, lookup}
use multus_cni.Base.Result.{Result, ok, err}
use multus_cni.Json.{Bytes, Fields}
use multus_cni.Types.{CniConf, ResourceMap}
use multus_cni.Conf.Delegate.{Decoders}
use multus_cni.K8sclient.Annotation.{Parsers}

pub record Pod : Type 0 where
  pub name : String
  pub namespace : String
  pub uid : String
  pub annotations : Dict String

-- A NetworkAttachmentDefinition: its annotations, and what names its configuration.
pub record NetAttachDef : Type 0 where
  pub annotations : Dict String
  pub config : String

-- A client that is not nil. `resource_client` is GetResourceClient with the GetPodResourceMap of the
-- client that it returns; the last six are functions of the file system that libcni and os give.
pub record Client : Type 0 where
  pub get_net_attach_def : String → String → Result NetAttachDef
  pub get_pod : String → String → Result Pod
  pub update_status : Pod → List Fields → Result (Unit {0})
  pub resource_client : Result (Pod → Result ResourceMap)
  pub cni_config : NetAttachDef → String → Result Bytes
  pub cni_config_from_file : String → String → Result Bytes
  pub stat_is_dir : String → Result Bool
  pub conf_files : String → Result (List String)
  pub conf_list_from_file : String → Result Bytes
  pub conf_from_file : String → Result (CniConf × Bytes)
  pub decoders : Decoders
  pub parsers : Parsers

-- The construction of a client: from a kubeconfig, or in a cluster where its environment is set.
pub record ClientFactory : Type 0 where
  pub from_kubeconfig : String → Result Client
  pub in_cluster : Bool
  pub in_cluster_client : Result Client

abbrev fresh_client : Result Client → Result (Option Client)
fresh_client (ok c) = ok (some c)
fresh_client (err e) = err e
fresh_client Result.panic = Result.panic

-- GetK8sClient: a client that is given is used; without any configuration there is none.
unfoldable pub get_k8s_client : ClientFactory → String → Option Client → Result (Option Client)
get_k8s_client F kubeconfig (some c) = ok (some c)
get_k8s_client F kubeconfig none =
    if kubeconfig != ""
    then fresh_client (F.from_kubeconfig kubeconfig)
    else if F.in_cluster
    then fresh_client F.in_cluster_client
    else ok none

abbrev config_source_annotation_key : String
config_source_annotation_key = "kubernetes.io/config.source"

abbrev is_other_source : Option String → Bool
is_other_source none = false
is_other_source (some source) = source != "api"

unfoldable pub is_static_pod : Pod → Bool
is_static_pod pod = is_other_source (lookup config_source_annotation_key pod.annotations)
