-- ===== src/Server/Api/Created.antt =====
-- The daemon reads the requests of CreateDelegateRequest back.
use Prim.Native.String.{[], ◌∷◌}
use multus_cni.Base.{
  String, ◌≡◌, ◌≢◌, refl, ap, ◌∙◌, Option, List, [], ◌∷◌, string_eq, nat_eq, arith,
}
use multus_cni.Base.Dict.{Dict, lookup, insert}
use multus_cni.Base.Result.{ok}
use multus_cni.Json.{Bytes}
use multus_cni.Text.{split, trim_space, is_space}
use multus_cni.K8sclient.Annotation.RoundTrip.{AllCodes-append}
use multus_cni.Text.Split.{Lacks, NoSpaces, split-append, split-Lacks, trim_space-NoSpaces}
use multus_cni.K8sclient.Client.{Client}
use multus_cni.Server.Api.{pair, pod_args, create_delegate_request}
use multus_cni.Server.Requests.{Attributes, gather_parts, gather_cni_args, kubernetes_runtime_args}

-- A value that neither ends an argument nor holds "=" nor a space.
abbrev pub IsArgument : String → Type 0
IsArgument s = Lacks 59 s × Lacks 61 s × NoSpaces s

split-pair : (k v : String) → Lacks 61 k → Lacks 61 v → split 61 (pair k v) ≡ k ∷ v ∷ []
split-pair k v lk lv = split-append 61 "=" k v refl lk ∙ ap (λ l. k ∷ l) (split-Lacks 61 v lv)

pair-Lacks : (k v : String) → Lacks 59 k → Lacks 59 v → Lacks 59 (pair k v)
pair-Lacks k v lk lv = AllCodes-append (λ c. c ≢ 59) k ("=" ∷ v) lk (omega arith, lv)

namespace-Lacks : Lacks 59 "K8S_POD_NAMESPACE" × Lacks 61 "K8S_POD_NAMESPACE"
namespace-Lacks = omega arith

name-Lacks : Lacks 59 "K8S_POD_NAME" × Lacks 61 "K8S_POD_NAME"
name-Lacks = omega arith

uid-Lacks : Lacks 59 "K8S_POD_UID" × Lacks 61 "K8S_POD_UID"
uid-Lacks = omega arith

split-pod_args :
    (namespace name uid : String)
    → IsArgument namespace
    → IsArgument name
    → IsArgument uid
    → split 59 (pod_args namespace name uid)
      ≡ pair "K8S_POD_NAMESPACE" namespace ∷ pair "K8S_POD_NAME" name ∷ pair "K8S_POD_UID" uid ∷ []
split-pod_args namespace name uid (ns, _, _) (nm, _, _) (u, _, _) =
    split-append 59 ";" (pair "K8S_POD_NAMESPACE" namespace) _ refl
      (pair-Lacks "K8S_POD_NAMESPACE" namespace namespace-Lacks.0 ns)
    ∙ ap (λ l. pair "K8S_POD_NAMESPACE" namespace ∷ l)
        (split-append 59 ";" (pair "K8S_POD_NAME" name) _ refl
            (pair-Lacks "K8S_POD_NAME" name name-Lacks.0 nm)
          ∙ ap (λ l. pair "K8S_POD_NAME" name ∷ l)
              (split-Lacks 59 (pair "K8S_POD_UID" uid)
                (pair-Lacks "K8S_POD_UID" uid uid-Lacks.0 u)))

-- A part that has a name and a value is entered.
gather-pair :
    (k v : String) (more : List String) (d : Dict String)
    → Lacks 61 k
    → trim_space k ≡ k
    → Lacks 61 v
    → NoSpaces v
    → gather_parts (pair k v ∷ more) d ≡ gather_parts more (insert k v d)
unfolding gather_parts
gather-pair k v more d lk tk lv nv = rw (split-pair k v lk lv, tk, trim_space-NoSpaces v nv) refl

trim_keys :
    (trim_space "K8S_POD_NAMESPACE" ≡ "K8S_POD_NAMESPACE")
    × (trim_space "K8S_POD_NAME" ≡ "K8S_POD_NAME")
    × (trim_space "K8S_POD_UID" ≡ "K8S_POD_UID")
unfolding trim_space is_space nat_eq
trim_keys = (refl, refl, refl)

gather-pod_args :
    (namespace name uid : String)
    → IsArgument namespace
    → IsArgument name
    → IsArgument uid
    → gather_parts (split 59 (pod_args namespace name uid)) []
      ≡ ok (("K8S_POD_NAMESPACE", namespace) ∷ ("K8S_POD_NAME", name) ∷ ("K8S_POD_UID", uid) ∷ [])
unfolding gather_parts insert string_eq
gather-pod_args namespace name uid ns nm u =
    ap (λ l. gather_parts l []) (split-pod_args namespace name uid ns nm u)
    ∙ gather-pair "K8S_POD_NAMESPACE" namespace
        (pair "K8S_POD_NAME" name ∷ pair "K8S_POD_UID" uid ∷ []) [] namespace-Lacks.1 trim_keys.0
        ns.1 ns.2
    ∙ gather-pair "K8S_POD_NAME" name (pair "K8S_POD_UID" uid ∷ [])
        (("K8S_POD_NAMESPACE", namespace) ∷ []) name-Lacks.1 trim_keys.1 nm.1 nm.2
    ∙ gather-pair "K8S_POD_UID" uid []
        (("K8S_POD_NAMESPACE", namespace) ∷ ("K8S_POD_NAME", name) ∷ []) uid-Lacks.1 trim_keys.2 u.1
        u.2

-- A delegate request that is created for a pod is read back as one for that pod, by a daemon with
-- any client. The names and the UID have no space, no ";" and no "=".
pub create_delegate_request-runtime_args :
    (to_upper : String → String) (command container_id netns if_name namespace name uid : String)
    (config : Bytes) (attributes : Option Attributes) (client : Option Client)
    → IsArgument namespace
    → IsArgument name
    → IsArgument uid
    → kubernetes_runtime_args
        (create_delegate_request to_upper command container_id netns if_name namespace name uid
          config attributes).env
        client
      ≡ ok (record {
        pod_name = name;
        pod_namespace = namespace;
        pod_infra_container_id = "";
        pod_uid = uid;
      })
unfolding kubernetes_runtime_args gather_cni_args create_delegate_request lookup string_eq
create_delegate_request-runtime_args to_upper command container_id netns if_name namespace name uid
      config attributes client ns nm u =
    rw (gather-pod_args namespace name uid ns nm u) refl
