-- ===== src/Multus/Plugins.antt =====
-- DelegateAdd, DelegateCheck, DelegateDel and the calls of libcni that they make.
pub mod Called
pub mod Accepted
use multus_cni.Base.{
  ◌≡◌, refl, ◌∙◌, String, ◌<>◌, Bool, true, false, Option, none, some, List, [], ◌∷◌, ◌++◌, ◌==◌,
  string_eq, if◌then◌else◌,
}
use multus_cni.Base.Result.{Result, ok, err, panic, Error, errorf, wrap, ◌>>=◌, ◌>>◌}
use multus_cni.Json.{Fields}
use multus_cni.Types.{DelegateNetConf, NetConf, RuntimeConf}
use multus_cni.K8sclient.Annotation.{is_address}
use multus_cni.Multus.Calls.{
  Action, add, check, del, Call, invoke, event, Trace, Reply, done, refused, Plugins,
}
use multus_cni.K8sclient.Client.{Pod}

abbrev pub joined : List String → String
joined [] = ""
joined (s ∷ []) = s
joined (s ∷ t ∷ more) = s <> "," <> joined (t ∷ more)

-- `rt.Args = append(rt.Args, …)`
abbrev pub with_arg : String → String → RuntimeConf → RuntimeConf
with_arg key val rt = record rt { args = rt.args ++ (key, val) ∷ [] }

abbrev pub invocation : NetConf → Action → DelegateNetConf → RuntimeConf → Call
invocation conf action d rt = invoke action d.conf_list_plugin rt d.bytes conf.bin_dir conf.cni_dir

module _ (P : Plugins) (conf : NetConf) where
  abbrev verb : Action → String
  verb add = "Add"
  verb check = "Check"
  verb del = "Del"

  abbrev bytes_error : Action → Bool → String
  bytes_error action true =
      "conflist" <> verb action <> ": error converting the raw bytes into a conflist: "
  bytes_error action false = "error in converting the raw bytes to conf: "

  abbrev run_error : Action → Bool → String
  run_error action true =
      "conflist"
      <> verb action
      <> ": error in getting result from "
      <> verb action
      <> "NetworkList: "
  run_error action false = "error in getting result from " <> verb action <> "Network: "

  add_replied : Trace → Call → Reply → Result Fields × Trace
  add_replied trace call (done result) = (ok result, call ∷ trace)
  add_replied trace call (refused e) = (err e, call ∷ trace)

  add_parsed : Trace → DelegateNetConf → RuntimeConf → Option Error → Result Fields × Trace
  unfolding add_replied
  add_parsed trace d rt (some e) = (err (wrap (bytes_error add d.conf_list_plugin) e), trace)
  add_parsed trace d rt none =
      add_replied trace (invocation conf add d rt) (P.add_reply trace (invocation conf add d rt))

  -- confAdd and conflistAdd.
  unfoldable pub conf_add : Trace → DelegateNetConf → RuntimeConf → Result Fields × Trace
  unfolding add_parsed
  conf_add trace d rt = add_parsed trace d rt (P.parse_error d.conf_list_plugin d.bytes)

  run_replied : Action → Trace → DelegateNetConf → RuntimeConf → Option Error → Option Error × Trace
  run_replied action trace d rt (some e) =
      (some (wrap (run_error action d.conf_list_plugin) e), invocation conf action d rt ∷ trace)
  run_replied action trace d rt none = (none, invocation conf action d rt ∷ trace)

  run_parsed : Action → Trace → DelegateNetConf → RuntimeConf → Option Error → Option Error × Trace
  unfolding run_replied
  run_parsed action trace d rt (some e) =
      (some (wrap (bytes_error action d.conf_list_plugin) e), trace)
  run_parsed action trace d rt none =
      run_replied action trace d rt (P.reply trace (invocation conf action d rt))

  -- confCheck, conflistCheck, confDel and conflistDel: the error, if there is one.
  unfoldable pub conf_run : Action → Trace → DelegateNetConf → RuntimeConf → Option Error × Trace
  unfolding run_parsed
  conf_run action trace d rt =
      run_parsed action trace d rt (P.parse_error d.conf_list_plugin d.bytes)

  abbrev called_name : DelegateNetConf → String
  called_name d = if d.conf_list_plugin then d.conf_list.name else d.conf.kind

  abbrev invoked_name : Action → Bool → String
  invoked_name action true = "Conflist" <> verb action
  invoked_name action false = "Delegate" <> verb action

  abbrev invoked : Action → DelegateNetConf → Option Error × Trace → Option Error × Trace
  invoked action d (none, trace) = (none, trace)
  invoked action d (some e, trace) = (
    some (
        wrap
          ("Delegate"
            <> verb action
            <> ": error invoking "
            <> invoked_name action d.conf_list_plugin
            <> " - "
            <> P.quote (called_name d)
            <> ": ")
          e),
    trace,
  )

  unfoldable pub delegate_check : Trace → DelegateNetConf → RuntimeConf → Option Error × Trace
  unfolding conf_run
  delegate_check trace d rt = invoked check d (conf_run check trace d rt)

  unfoldable pub delegate_del : Trace → DelegateNetConf → RuntimeConf → Option Error × Trace
  unfolding conf_run
  delegate_del trace d rt = invoked del d (conf_run del trace d rt)

  mac_args : String → RuntimeConf → Result RuntimeConf
  mac_args mac rt =
      if mac == ""
      then ok rt
      else if P.parsers.is_mac mac
      then ok (with_arg "MAC" mac rt)
      else err (errorf ("DelegateAdd: failed to parse mac address " <> P.quote mac))

  all_addresses : List String → Result (Unit {0})
  unfolding is_address
  all_addresses [] = ok tt
  all_addresses (ip ∷ ips) =
      let rest = all_addresses ips in
      if is_address P.parsers ip
      then rest
      else err (errorf ("DelegateAdd: failed to parse IP address " <> P.quote ip))

  ip_args : Option (List String) → RuntimeConf → Result RuntimeConf
  unfolding all_addresses
  ip_args none rt = ok rt
  ip_args (some ips) rt = all_addresses ips >> ok (with_arg "IP" (joined ips) rt)

  -- The deprecated requests become arguments of the plugin.
  unfoldable pub request_args : DelegateNetConf → RuntimeConf → Result RuntimeConf
  unfolding mac_args ip_args
  request_args d rt = mac_args d.mac_request rt >>= ip_args d.ip_request

  -- The event, which is sent for a pod whose new interface or address is known.
  unfoldable pub announce :
      Option Pod → DelegateNetConf → RuntimeConf → Trace → Option (List String × Bool) → Trace
  announce (some pod) d rt trace (some (addresses, true)) =
      event pod rt.if_name addresses d.name ∷ trace
  announce _ d rt trace _ = trace

  add_with :
      Option Pod → DelegateNetConf → RuntimeConf → Result Fields × Trace → Result Fields × Trace
  unfolding announce
  add_with pod d rt (ok result, trace) = (ok result, announce pod d rt trace (P.result_of result))
  add_with pod d rt (err e, trace) = (err e, trace)
  add_with pod d rt (panic, trace) = (panic, trace)

  add_checked : Trace → Option Pod → DelegateNetConf → Result RuntimeConf → Result Fields × Trace
  unfolding conf_add add_with
  add_checked trace pod d (ok rt) = add_with pod d rt (conf_add trace d rt)
  add_checked trace pod d (err e) = (err e, trace)
  add_checked trace pod d panic = (panic, trace)

  abbrev link_failure : DelegateNetConf → RuntimeConf → Error → Error
  link_failure d rt e =
      wrap
        ("DelegateAdd: cannot set "
          <> P.quote d.conf.kind
          <> " interface name to "
          <> P.quote rt.if_name
          <> ": ")
        e

  validated : String → Option Error → Option Error
  validated ifname (some e) = if e.text == "Link not found" then none else some e
  validated ifname none =
      some (errorf ("validateIfName: interface name " <> ifname <> " already exists"))

  -- The error for an interface that exists already, or that cannot be looked up.
  unfoldable pub validate_if_name : Trace → String → String → Option Error
  unfolding validated
  validate_if_name trace nsname ifname = elim (P.get_ns trace nsname) [
    | some e ↦ some (wrap ("validateIfName: no net namespace " <> nsname <> " found: ") e)
    | none ↦ validated ifname (P.link_by_name trace nsname ifname)
  ]

  add_linked :
      Trace → Option Pod → DelegateNetConf → RuntimeConf → Option Error → Result Fields × Trace
  unfolding add_checked request_args
  add_linked trace pod d rt (some e) = (err (link_failure d rt e), trace)
  add_linked trace pod d rt none = add_checked trace pod d (request_args d rt)

  -- An interface that cannot be created and a request that is no address stop before any plugin.
  unfoldable pub delegate_add :
      Trace → Option Pod → DelegateNetConf → RuntimeConf → Result Fields × Trace
  unfolding add_linked validate_if_name
  delegate_add trace pod d rt =
      add_linked trace pod d rt (validate_if_name trace rt.net_ns rt.if_name)
