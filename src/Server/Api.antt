-- ===== src/Server/Api.antt =====
-- pkg/server/api: the requests that the shim and CreateDelegateRequest make.
pub mod Created
pub mod Shim
pub mod Delivered
use multus_cni.Base.{
  String, ◌<>◌, Option, none, some, List, [], ◌∷◌, Bool, true, false, ◌==◌, string_eq, nat_eq,
  if◌then◌else◌,
}
use Prim.Native.String.{◌∷◌}
use multus_cni.Base.Dict.{Dict, insert}
use multus_cni.Json.{Bytes}
use multus_cni.Text.{split_once, trim_space}
use multus_cni.Server.Requests.{Attributes, Request}

-- A name, "=" and a value.
abbrev pub pair : String → String → String
pair name value = name <> ("=" ∷ value)

abbrev pub pod_args : String → String → String → String
pod_args namespace name uid =
    pair "K8S_POD_NAMESPACE" namespace
    <> (";" ∷ (pair "K8S_POD_NAME" name <> (";" ∷ pair "K8S_POD_UID" uid)))

-- `to_upper` is strings.ToUpper.
unfoldable pub create_delegate_request :
    (String → String)
    → String
    → String
    → String
    → String
    → String
    → String
    → String
    → Bytes
    → Option Attributes
    → Request
create_delegate_request to_upper command container_id netns if_name namespace name uid config
      attributes =
    record {
      env =
          ("CNI_COMMAND", to_upper command)
          ∷ ("CNI_CONTAINERID", container_id)
          ∷ ("CNI_NETNS", netns)
          ∷ ("CNI_IFNAME", if_name)
          ∷ ("CNI_ARGS", pod_args namespace name uid)
          ∷ [];
      config = config;
      attributes = attributes;
    }

with_item : Dict String → String × Option String → Dict String
unfolding trim_space
with_item d (name, none) = d
with_item d (name, some value) = if name == "" then d else insert (trim_space name) value d

-- The environment of the shim; an item without a name or without "=", which is 61, is left out.
unfoldable pub gather_env : List String → Dict String → Dict String
unfolding with_item split_once
gather_env [] d = d
gather_env (item ∷ items) d = gather_env items (with_item d (split_once 61 item))

unfoldable pub new_cni_request : List String → Bytes → Request
unfolding gather_env
new_cni_request environ stdin_data = record {
  env = gather_env environ [];
  config = stdin_data;
  attributes = none;
}
