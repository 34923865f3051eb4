-- ===== src/Tests/Commands.antt =====
-- The pod of a command and the delegates that are kept for a container.
use multus_cni.Base.{
  String, ◌<>◌, ◌≡◌, inr, refl, true, false, none, some, List, [], ◌∷◌, map, string_eq,
}
use multus_cni.Base.Dict.{lookup}
use multus_cni.Base.Result.{ok, err, errorf, Error, Kind}
use multus_cni.Json.{Bytes, malformed}
use multus_cni.Os.{Os}
use multus_cni.Types.{CniConf, DelegateNetConf, K8sArgs}
use multus_cni.Conf.Delegate.{fresh}
use multus_cni.K8sclient.Client.{Pod, is_static_pod}
use multus_cni.Multus.Pod.{
  PodReads, get_pod, poll, retries, is_critical_request_retriable, is_other_pod,
}
use multus_cni.Multus.Pod.Identity.{IsAsked, IsMatching, get_pod-IsMatching}
use multus_cni.Multus.Scratch.{Codec, save_delegates, consume_scratch_net_conf, cached_delegates}
use multus_cni.Multus.Scratch.RoundTrip.{without_requests, kept, cached_delegates-save}

abbrev k8s_args : K8sArgs
k8s_args = record {
  pod_name = "pod";
  pod_namespace = "default";
  pod_infra_container_id = "abc";
  pod_uid = "7";
}

abbrev pod : Pod
pod = record { name = "pod"; namespace = "default"; uid = "7"; annotations = [] }

abbrev late : Error
late = record { kind = Kind.not_found; text = "pod not found" }

-- The informer knows the pod at the second attempt.
abbrev reads : PodReads
reads = record { informer = true; attempts = err late ∷ ok pod ∷ []; live = err (errorf "refused") }

abbrev plain_quote : String → String
plain_quote s = "\"" <> s <> "\""

finds : get_pod plain_quote k8s_args false (some reads) ≡ ok (some pod)
unfolding get_pod poll retries is_critical_request_retriable is_other_pod is_static_pod string_eq
    lookup
finds = refl

get_pod-IsMatching_example :
    IsAsked plain_quote k8s_args reads pod × IsMatching plain_quote k8s_args pod
get_pod-IsMatching_example = get_pod-IsMatching plain_quote k8s_args reads false finds

abbrev conf : CniConf
conf = record { cni_version = "1.0.0"; name = "macvlan-conf"; kind = "macvlan" }

abbrev bytes : Bytes
bytes = malformed "saved"

abbrev delegates : List DelegateNetConf
delegates = record (fresh conf bytes) { master_plugin = true } ∷ fresh conf bytes ∷ []

abbrev codec : Codec
codec = record {
  mkdir_fault = λ _. none;
  encode = λ _. ok bytes;
  decode = λ _. some (map kept delegates);
  quote = plain_quote;
}

abbrev os : Os
os = record {
  files = λ _. none;
  read_fault = λ _. none;
  write_fault = λ _. none;
  join = λ _. "/var/lib/cni/multus/abc";
}

cached_delegates-save_example :
    (os' : Os) × (save_delegates codec "abc" "/var/lib/cni/multus" delegates os ≡ (ok tt, os'))
    × (cached_delegates codec (consume_scratch_net_conf codec "abc" "/var/lib/cni/multus" os').0
        ≡ ok (some (map without_requests delegates)))
cached_delegates-save_example =
    cached_delegates-save codec "abc" "/var/lib/cni/multus" delegates bytes os
      (inr (refl, refl), (inr (refl, refl), tt)) (refl, (refl, tt)) refl refl refl refl refl
