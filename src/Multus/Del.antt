-- ===== src/Multus/Del.antt =====
-- CmdDel: the delegates of the container, from the file that CmdAdd saved or found again; their
-- deletion; and the removal of the file.
pub mod Retry
pub mod Cached
use multus_cni.Base.{
  String, ◌<>◌, Bool, true, false, not, ◌&&◌, ◌||◌, Option, none, some, List, [], ◌∷◌, map, length,
  ◌==◌, ◌!=◌, string_eq, if◌then◌else◌,
}
use multus_cni.Base.Result.{Result, ok, err, panic, Error, Kind, ◌>>=◌ as ◌then◌, ◌>>◌ as ◌also◌}
use multus_cni.Json.{Bytes, malformed}
use multus_cni.Os.{Os, remove}
use multus_cni.Text.{contains_text}
use multus_cni.Types.{DelegateNetConf, NetConf, ResourceMap, K8sArgs, CmdArgs}
use multus_cni.Conf.Netconf.{load_net_conf}
use multus_cni.Conf.Readiness.{readiness_indicator_exists_now}
use multus_cni.K8sclient.Client.{Pod, Client, get_k8s_client}
use multus_cni.K8sclient.Delegates.{Loaded, try_load_pod_delegates}
use multus_cni.Multus.Add.{blame, add_defaults, reads_of}
use multus_cni.Multus.Calls.{Trace}
use multus_cni.Multus.Commands.{del_plugins}
use multus_cni.Multus.Host.{Host}
use multus_cni.Multus.Pod.{get_pod}
use multus_cni.Multus.Scratch.{consume_scratch_net_conf, cached_delegates, scratch_path}
use multus_cni.Multus.World.{World, Act, ◌>>=◌, lift, restated}

-- What is deleted: the configuration with its delegates, and whether they are those of the file.
-- With no target the command ends without an error.
pub record Target : Type 0 where
  pub conf : NetConf
  pub from_cache : Bool

abbrev pub encoded : Result Bytes → Bytes
encoded (ok bytes) = bytes
encoded _ = malformed ""

abbrev is_missing : Result Bytes → Bool
is_missing (err e) = elim e.kind [ Kind.not_exist ↦ true | _ ↦ false ]
is_missing _ = false

abbrev pub no_file : String
no_file = "no such file or directory"

-- A failed GetPod leaves the pod nil, and the command goes on.
abbrev found_pod : Result (Option Pod) → Result (Option Pod)
found_pod (err _) = ok none
found_pod r = r

module _ (H : Host) where
  ready_now : K8sArgs → NetConf → Result (Unit {0})
  unfolding readiness_indicator_exists_now
  ready_now k8s_args conf =
      if conf.readiness_indicator_file != ""
      then (restated
            (blame (some k8s_args) (
              "error checking readinessindicatorfile on CNI DEL @ " <> conf.readiness_indicator_file
              <> ": "))
            (readiness_indicator_exists_now H.files conf.readiness_indicator_file)
          then λ _. ok tt)
      else ok tt

  -- The configuration with the version of Multus in a list that has none; its JSON is made again.
  unfoldable pub versioned : String → DelegateNetConf → DelegateNetConf
  versioned version d =
      let conf_list = record d.conf_list { cni_version = version } in
      if d.conf_list_plugin && d.conf_list.cni_version == "" && version != ""
      then record d { conf_list = conf_list; bytes = encoded (H.encode_list conf_list) }
      else d

  -- An error of TryLoadPodDelegates counts only where no delegate is left.
  reloaded : K8sArgs → Loaded (Option Client) → Result (Option Target)
  reloaded k8s_args (ok _, conf) = ok (some (record { conf = conf; from_cache = false }))
  reloaded k8s_args (err e, conf) = elim conf.delegates [
    | [] ↦ err (blame (some k8s_args) "failed to get delegates: " e.text)
    | _ ∷ _ ↦ ok (some (record { conf = conf; from_cache = false }))
  ]
  reloaded k8s_args (panic, conf) = panic

  refetched : K8sArgs → NetConf → Option Client → Option Pod → Result (Option Target)
  unfolding add_defaults reloaded try_load_pod_delegates
  refetched k8s_args conf client none = ok none
  refetched k8s_args conf client (some pod) =
      add_defaults H (blame (some k8s_args) "failed to get clusterNetwork/defaultNetworks: ")
        (some pod) conf client
      then λ found.
          reloaded k8s_args (try_load_pod_delegates H.factory (some pod) found.0 client none)

  chosen :
      K8sArgs
      → NetConf
      → Option Client
      → Option Pod
      → Result Bytes
      → Option (List DelegateNetConf)
      → Result (Option Target)
  unfolding refetched
  chosen k8s_args conf client pod file (some delegates) =
      ok (some (record { conf = record conf { delegates = delegates }; from_cache = true }))
  chosen k8s_args conf client pod file none =
      if is_missing file then refetched k8s_args conf client pod else ok none

  -- The delegates to delete, given what the file of CmdAdd reads as.
  unfoldable pub target :
      K8sArgs → NetConf → Option Client → Option Pod → Result Bytes → Result (Option Target)
  unfolding chosen cached_delegates
  target k8s_args conf client pod file =
      cached_delegates H.codec file then chosen k8s_args conf client pod file

  -- Whether the file of CmdAdd is removed, given the error of delPlugins.
  unfoldable pub removes_file : Target → Result (Unit {0}) → Bool
  unfolding contains_text
  removes_file t (ok _) = t.from_cache
  removes_file t (err e) =
      t.from_cache && (not t.conf.retry_delete_on_error || contains_text no_file e.text)
  removes_file t panic = false

  cleaned_up : CmdArgs → Target → World → Result (Unit {0}) × Trace → Result (Unit {0}) × World
  unfolding removes_file
  cleaned_up args t w (r, calls) =
      let os = H.files_after calls w.os in
      let path = scratch_path w.os args.container_id t.conf.cni_dir in
      (r, record w { calls = calls; os = if removes_file t r then remove os path else os })

  unfoldable pub with_versions : NetConf → NetConf
  unfolding versioned
  with_versions conf = record conf { delegates = map (versioned conf.cni_version) conf.delegates }

  -- CmdDel from the loop over the versions on.
  unfoldable pub delete_target : CmdArgs → K8sArgs → Option Target → Act (Unit {0})
  unfolding cleaned_up del_plugins
  delete_target args k8s_args none w = (ok tt, w)
  delete_target args k8s_args (some t) w =
      let conf = with_versions t.conf in
      cleaned_up args t w (
        del_plugins H.environment H.plugins args k8s_args conf conf.runtime_config w.calls
          conf.delegates (length conf.delegates))

  unfoldable pub find_target :
      CmdArgs → K8sArgs → NetConf → Option Client → Option Pod → Act (Option Target)
  unfolding target consume_scratch_net_conf
  find_target args k8s_args conf client pod w = (
    target k8s_args conf client pod
        (consume_scratch_net_conf H.codec args.container_id conf.cni_dir w.os).0,
    w,
  )

  -- CmdDel up to the file: the arguments, the configuration, the client and the pod.
  prepare_del : CmdArgs → Option Client → Result (K8sArgs × NetConf × Option Client × Option Pod)
  unfolding ready_now get_pod
  prepare_del args client = load_net_conf H.reader args.stdin_data then λ conf.
      restated (blame none "error getting k8s args: ") (H.load_args args.args) then λ k8s_args.
      ready_now k8s_args conf
      also (restated (blame none "error getting k8s client: ")
            (get_k8s_client H.factory conf.kubeconfig client)
          then λ found.
              found_pod (get_pod H.codec.quote k8s_args true (reads_of H k8s_args found))
              then λ pod. ok (k8s_args, conf, found, pod))

  unfoldable pub cmd_del : CmdArgs → Option Client → Act (Unit {0})
  unfolding prepare_del find_target delete_target
  cmd_del args client = lift (prepare_del args client) >>= λ (k8s_args, conf, found, pod).
      find_target args k8s_args conf found pod >>= delete_target args k8s_args
