-- ===== src/Multus/Add.antt =====
-- CmdAdd: the session that is prepared from the configuration, the pod and its networks; the file
-- of the delegates; the loop over them; and the status of the networks.
pub mod Order
pub mod Accepted
use multus_cni.Base.{
  String, ◌<>◌, Bool, true, false, Option, none, some, List, [], ◌∷◌, ◌!=◌, string_eq,
  if◌then◌else◌,
}
use multus_cni.Base.Result.{Result, ok, err, panic, Error, ◌>>=◌ as ◌then◌, ◌>>◌ as ◌also◌}
use multus_cni.Json.{Fields}
use multus_cni.Text.{contains_text}
use multus_cni.Types.{NetConf, ResourceMap, K8sArgs, CmdArgs}
use multus_cni.Conf.Netconf.{mark_master, load_net_conf}
use multus_cni.Conf.Readiness.{get_readiness_indicator_file}
use multus_cni.K8sclient.Client.{Pod, Client, get_k8s_client}
use multus_cni.K8sclient.Defaults.{get_default_networks}
use multus_cni.K8sclient.Delegates.{Loaded, try_load_pod_delegates}
use multus_cni.K8sclient.Device.{Allocated}
use multus_cni.K8sclient.Status.{Annotated, set_network_status}
use multus_cni.Multus.Attach.{Attached, Session, reports_status, attach_from}
use multus_cni.Multus.Calls.{annotate}
use multus_cni.Multus.Host.{Host}
use multus_cni.Multus.Pod.{PodReads, cmd_err, get_pod}
use multus_cni.Multus.Scratch.{save_delegates}
use multus_cni.Multus.World.{World, Act, ◌>>=◌, ◌>>◌, lift, restated, rephrase, on_files}

-- An error with a text before it, for a pod if it is known.
abbrev pub blame : Option K8sArgs → String → String → Error
blame k8s_args what e = cmd_err k8s_args (what <> e)

-- The wait for the readiness indicator file, where there is one.
unfoldable pub await_ready : Host → Option K8sArgs → NetConf → Result (Unit {0})
unfolding get_readiness_indicator_file
await_ready H k8s_args conf =
    if conf.readiness_indicator_file != ""
    then restated
        (blame k8s_args (
          "have you checked that your default network is ready? still waiting for readinessindicatorfile @ "
          <> conf.readiness_indicator_file <> ". pollimmediate error: "))
        (get_readiness_indicator_file H.files conf.readiness_indicator_file)
    else ok tt

-- The first delegate becomes the master.
unfoldable pub with_master : NetConf → Result NetConf
unfolding mark_master
with_master conf =
    mark_master conf.delegates then λ delegates. ok (record conf { delegates = delegates })

defaults_found : (String → Error) → Allocated NetConf → Result (NetConf × Option ResourceMap)
unfolding with_master
defaults_found f (ok conf, m) = with_master conf then λ mastered. ok (mastered, m)
defaults_found f (err e, m) = err (f e.text)
defaults_found f (panic, m) = panic

-- The default networks, with the resource map they leave, where a cluster network is configured.
unfoldable pub add_defaults :
    Host
    → (String → Error)
    → Option Pod
    → NetConf
    → Option Client
    → Result (NetConf × Option ResourceMap)
unfolding defaults_found get_default_networks
add_defaults H f pod conf client =
    if conf.cluster_network != ""
    then defaults_found f (get_default_networks H.factory pod conf client none)
    else ok (conf, none)

abbrev pub reads_of : Host → K8sArgs → Option Client → Option PodReads
reads_of H k8s_args none = none
reads_of H k8s_args (some client) = some (H.pod_reads client k8s_args)

module _ (H : Host) (args : CmdArgs) where
  pod_loaded : K8sArgs → Option Client → Option Pod → Loaded (Option Client) → Result Session
  pod_loaded k8s_args client pod (ok kc, conf) = ok (record {
    args = args;
    k8s_args = k8s_args;
    conf = conf;
    client = client;
    pod_client = kc;
    pod = pod;
  })
  pod_loaded k8s_args client pod (err e, conf) =
      err (blame (some k8s_args) "error loading k8s delegates k8s args: " e.text)
  pod_loaded k8s_args client pod (panic, conf) = panic

  networks_loaded : K8sArgs → NetConf → Option Client → Option Pod → Result Session
  unfolding add_defaults pod_loaded try_load_pod_delegates
  networks_loaded k8s_args conf client pod =
      add_defaults H (blame (some k8s_args) "failed to get clusterNetwork/defaultNetworks: ") pod
        conf client
      then λ found.
          pod_loaded k8s_args client pod
            (try_load_pod_delegates H.factory pod found.0 client found.1)

  -- CmdAdd up to the call of saveDelegates.
  unfoldable pub prepare : Option Client → Result Session
  unfolding networks_loaded await_ready get_pod
  prepare client =
      restated (blame none "error loading netconf: ") (load_net_conf H.reader args.stdin_data)
      then λ conf.
          restated (blame none "error getting k8s client: ")
            (get_k8s_client H.factory conf.kubeconfig client)
          then λ found.
              restated (blame none "error getting k8s args: ") (H.load_args args.args)
              then λ k8s_args.
                  await_ready H (some k8s_args) conf
                  also (get_pod H.codec.quote k8s_args false (reads_of H k8s_args found)
                      then networks_loaded k8s_args conf found)

abbrev pub status_err : String → String
status_err e =
    if contains_text "failed to query the pod" e
    then "error setting the networks status, pod was already deleted: "
    else "error setting the networks status: "

module _ (H : Host) (S : Session) where
  open S use {args, k8s_args, conf}

  annotated : Attached → World → Annotated → Result (Option Fields) × World
  annotated a w (ok none) = (ok a.result, w)
  annotated a w (ok (some pod)) =
      (ok a.result, record w { calls = annotate pod a.statuses ∷ w.calls })
  annotated a w (err e) = (err (blame (some k8s_args) (status_err e.text) e.text), w)
  annotated a w panic = (panic, w)

  unfoldable pub publish : Attached → Act (Option Fields)
  unfolding annotated reports_status set_network_status
  publish a w =
      if reports_status H S
      then annotated a w
          (set_network_status H.codec.quote H.factory S.client k8s_args a.statuses conf)
      else (ok a.result, w)

  -- CmdAdd from the call of saveDelegates on.
  unfoldable pub attach_all : Act (Option Fields)
  unfolding save_delegates attach_from publish
  attach_all =
      rephrase (blame (some k8s_args) "error saving the delegates: ")
        (on_files (save_delegates H.codec args.container_id conf.cni_dir conf.delegates))
      >> (attach_from H S 0 conf.delegates (record { result = none; statuses = [] }) >>= publish)

unfoldable pub cmd_add : Host → CmdArgs → Option Client → Act (Option Fields)
unfolding prepare attach_all
cmd_add H args client = lift (prepare H args client) >>= attach_all H
