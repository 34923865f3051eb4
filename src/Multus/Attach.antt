-- ===== src/Multus/Attach.antt =====
-- The loop of CmdAdd over the delegates, with the teardown when a plugin fails.
pub mod Rollback
pub mod Accepted
pub mod Order
use multus_cni.Base.{
  ℕ, ◌+◌, String, ◌<>◌, Bool, true, false, not, ◌&&◌, ◌||◌, Option, none, some, List, [], ◌∷◌, ◌++◌,
  ◌==◌, ◌!=◌, string_eq, if◌then◌else◌,
}
use multus_cni.Base.Dict.{lookup}
use multus_cni.Base.Result.{Result, ok, err, panic, Error, errorf}
use multus_cni.Json.{Fields}
use multus_cni.Types.{Ip, DelegateNetConf, NetConf, RuntimeConf, Capability, text, K8sArgs, CmdArgs}
use multus_cni.Conf.Gateway.{check_system_namespaces}
use multus_cni.K8sclient.Client.{Pod, Client}
use multus_cni.Netutils.Cache.{delete_default_gw_cache, add_default_gw_cache}
use multus_cni.Netutils.Routes.{delete_default_gw, set_default_gw}
use multus_cni.Multus.Calls.{Trace, copy}
use multus_cni.Multus.Commands.{get_ifname, runtime, del_plugins}
use multus_cni.Multus.Host.{Host}
use multus_cni.Multus.Plugins.{delegate_add}
use multus_cni.Multus.Pod.{cmd_err}
use multus_cni.Multus.World.{
  World, Act, ◌>>=◌, ◌>>◌, give, lift, rephrase, on_files, edit_routes, note,
}

-- What the loop has gathered: the result that CmdAdd returns, and the statuses of the networks.
pub record Attached : Type 0 where
  pub result : Option Fields
  pub statuses : List Fields

-- What the loop reads: the arguments, the configuration, the clients before and behind
-- TryLoadPodDelegates, and the pod.
pub record Session : Type 0 where
  pub args : CmdArgs
  pub k8s_args : K8sArgs
  pub conf : NetConf
  pub client : Option Client
  pub pod_client : Option Client
  pub pod : Option Pod

abbrev pub net_name : DelegateNetConf → String
net_name d = if d.conf.name == "" then d.conf_list.name else d.conf.name

-- `cmdPluginErr`
abbrev pub plugin_err : K8sArgs → String → String → Error
plugin_err a name what = errorf (
    "[" <> a.pod_namespace <> "/" <> a.pod_name <> "/" <> a.pod_uid <> ":" <> name <> "]: "
    <> "error adding container to network " <> what)

abbrev pub requested_gateways : DelegateNetConf → List Ip
requested_gateways d = elim d.gateway_request [ none ↦ [] | some gw ↦ gw ]

abbrev is_nonempty : List Ip → Bool
is_nonempty [] = false
is_nonempty (_ ∷ _) = true

-- deleteV4gateway, deleteV6gateway and adddefaultgateway.
unfoldable pub deletes_v4 : DelegateNetConf → Bool
deletes_v4 d = d.is_filter_v4_gateway || is_nonempty (requested_gateways d)

unfoldable pub deletes_v6 : DelegateNetConf → Bool
deletes_v6 d = d.is_filter_v6_gateway || is_nonempty (requested_gateways d)

unfoldable pub adds_gateway : DelegateNetConf → Bool
adds_gateway d =
    not (d.is_filter_v4_gateway && d.is_filter_v6_gateway) && is_nonempty (requested_gateways d)

abbrev both {ℓ} : {A : Type ℓ} → Option A → Option A → Bool
both (some _) (some _) = true
both _ _ = false

module _ (H : Host) (S : Session) where
  open S use {args, k8s_args, conf, pod}

  abbrev pub act_err : String → String → Error
  act_err what e = cmd_err (some k8s_args) (what <> e)

  unfoldable pub delegate_runtime : ℕ → DelegateNetConf → RuntimeConf × String
  unfolding runtime
  delegate_runtime idx d = runtime H.environment args k8s_args conf.runtime_config d idx

  -- An error of the copy is ignored.
  unfoldable pub copied : DelegateNetConf → String → Trace → Trace
  copied d path calls =
      if path != "" && d.resource_name != "" && d.device_id != ""
      then copy path d.resource_name d.device_id ∷ calls
      else calls

  abbrev pub settled : Trace → World → World
  settled calls w = record w { calls = calls; os = H.files_after calls w.os }

  -- The error of the teardown is dropped; a panic of it is not.
  torn_down : Error → World → Result (Unit {0}) × Trace → Result Fields × World
  torn_down e w (panic, calls) = (panic, settled calls w)
  torn_down e w (_, calls) = (err e, settled calls w)

  plugin_added : ℕ → DelegateNetConf → World → Result Fields × Trace → Result Fields × World
  unfolding torn_down del_plugins
  plugin_added idx d w (ok result, calls) = (ok result, settled calls w)
  plugin_added idx d w (panic, calls) = (panic, settled calls w)
  plugin_added idx d w (err e, calls) =
      torn_down (plugin_err k8s_args (net_name d) (H.plugins.quote (net_name d) <> ": " <> e.text))
        w
        (del_plugins H.environment H.plugins args k8s_args conf conf.runtime_config calls
          conf.delegates (idx + 1))

  unfoldable pub add_plugin : ℕ → DelegateNetConf → Act Fields
  unfolding plugin_added delegate_add delegate_runtime
  add_plugin idx d w =
      plugin_added idx d w (delegate_add H.plugins conf w.calls pod d (delegate_runtime idx d).0)

  delete_gateways : DelegateNetConf → RuntimeConf → Act (Unit {0})
  unfolding deletes_v4 deletes_v6 delete_default_gw delete_default_gw_cache
  delete_gateways d rt =
      if deletes_v4 d || deletes_v6 d
      then rephrase (act_err "error deleting default gateway: ")
          (edit_routes args.netns (delete_default_gw H.netlink args.netns rt.if_name))
        >> rephrase (act_err "error deleting default gateway in cache: ") (
            on_files
              (delete_default_gw_cache conf.cni_dir rt (net_name d) (deletes_v4 d) (deletes_v6 d)))
      else give tt

  add_gateways : DelegateNetConf → RuntimeConf → Act (Unit {0})
  unfolding adds_gateway set_default_gw add_default_gw_cache
  add_gateways d rt =
      if adds_gateway d
      then rephrase (act_err "error setting default gateway: ") (
          edit_routes args.netns
            (set_default_gw H.netlink args.netns rt.if_name (requested_gateways d)))
        >> rephrase (act_err "error setting default gateway in cache: ")
            (on_files (add_default_gw_cache conf.cni_dir rt (net_name d) (requested_gateways d)))
      else give tt

  -- The gateways change only for a result with interfaces or addresses.
  change_gateways : DelegateNetConf → RuntimeConf → Option (List String × Bool) → Act (Unit {0})
  unfolding delete_gateways add_gateways
  change_gateways d rt (some (_, true)) = delete_gateways d rt >> add_gateways d rt
  change_gateways d rt _ = give tt

  device_info : RuntimeConf → Trace → Option Fields
  device_info rt calls = elim (lookup "CNIDeviceInfoFile" rt.capability_args) [
    | some (text path) ↦ H.load_device_info calls path
    | _ ↦ none
  ]

  -- The namespaces are compared with the name of the pod, as the source does.
  unfoldable pub reports_status : Bool
  unfolding check_system_namespaces
  reports_status =
      both S.client S.pod_client
      && not (check_system_namespaces k8s_args.pod_name conf.system_namespaces)

  statuses_of : DelegateNetConf → RuntimeConf → Fields → Act (List Fields)
  unfolding device_info reports_status
  statuses_of d rt result w =
      if reports_status
      then rephrase (act_err "error setting network statuses: ")
          (lift (H.network_statuses result d.name d.master_plugin (device_info rt w.calls))) w
      else (ok [], w)

  -- The result of the master is used, and of the others the first one.
  unfoldable pub choose : DelegateNetConf → Fields → Option Fields → Option Fields
  choose d result none = some result
  choose d result (some old) = if d.master_plugin then some result else some old

  unfoldable pub gathered : DelegateNetConf → Fields → Attached → List Fields → Act Attached
  unfolding choose
  gathered d result a statuses =
      give (record { result = choose d result a.result; statuses = a.statuses ++ statuses })

  unfoldable pub attach_one : ℕ → DelegateNetConf → Attached → Act Attached
  unfolding copied add_plugin change_gateways statuses_of
  attach_one idx d a =
      note (copied d (delegate_runtime idx d).1)
      >> (add_plugin idx d >>= λ result.
          change_gateways d (delegate_runtime idx d).0 (H.plugins.result_of result)
          >> (statuses_of d (delegate_runtime idx d).0 result >>= gathered d result a))

  unfoldable pub attach_from : ℕ → List DelegateNetConf → Attached → Act Attached
  unfolding attach_one
  attach_from idx [] a = give a
  attach_from idx (d ∷ delegates) a = attach_one idx d a >>= attach_from (idx + 1) delegates
