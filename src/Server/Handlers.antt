-- ===== src/Server/Handlers.antt =====
-- pkg/server/server.go: the handlers of the daemon, which run the commands for its requests.
pub mod Attached
use multus_cni.Base.{
  String, ◌<>◌, Bool, false, ◌||◌, Option, none, some, ◌==◌, string_eq, if◌then◌else◌,
}
use multus_cni.Base.Result.{Result, ok, err, Error, errorf, context, or_err, ◌>>=◌ as ◌then◌}
use multus_cni.Json.{Fields, Bytes, malformed}
use multus_cni.Types.{
  NetworkSelectionElement, NetConf, DelegateNetConf, K8sArgs, CmdArgs, RuntimeConf,
}
use multus_cni.Conf.Delegate.{load_delegate_net_conf}
use multus_cni.Conf.Netconf.{default_net_conf}
use multus_cni.Conf.Runtime.{create_cni_runtime_conf}
use multus_cni.K8sclient.Client.{Pod, Client}
use multus_cni.Multus.Add.{cmd_add, reads_of}
use multus_cni.Multus.Calls.{Trace}
use multus_cni.Multus.Commands.{cmd_check}
use multus_cni.Multus.Del.{cmd_del}
use multus_cni.Multus.Gc.{Operations, cmd_gc, cmd_status}
use multus_cni.Multus.Host.{Host}
use multus_cni.Multus.Plugins.{delegate_add, delegate_check, delegate_del}
use multus_cni.Multus.Pod.{get_pod}
use multus_cni.Multus.World.{World, Act, ◌>>=◌, ◌>>◌, give, lift, of_error, rephrase}
use multus_cni.Server.Requests.{Attributes, Request, extract_cni_data, kubernetes_runtime_args}

-- The daemon: what its commands run on, its client, its configuration, and whether it ignores the
-- readiness indicator file. `serialize` is the result in the current version as JSON, `decode_request`
-- and `decode_delegate` are json.Unmarshal of a request and of a delegate, and `print_args` is printCmdArgs.
pub record Server : Type 0 where
  pub host : Host
  pub operations : Operations
  pub client : Option Client
  pub config : Bytes
  pub ignore_readiness : Bool
  pub serialize : Option Fields → Result Bytes
  pub decode_request : Bytes → Option Request
  pub decode_delegate : Bytes → Result DelegateNetConf
  pub print_args : CmdArgs → String

abbrev pub no_text : Bytes
no_text = malformed ""

abbrev pub set_mac : String → NetworkSelectionElement → NetworkSelectionElement
set_mac mac element = record element { mac_request = mac }

abbrev pub empty_element : NetworkSelectionElement
empty_element = record {
  name = "";
  namespace = "";
  ip_request = none;
  mac_request = "";
  infiniband_guid_request = "";
  interface_request = "";
  deprecated_interface_request = "";
  port_mappings_request = none;
  bandwidth_request = none;
  device_id = "";
  cni_args = none;
  gateway_request = none;
}

-- The attributes of a request as a selection element.
abbrev pub element_of : Option Attributes → Option NetworkSelectionElement
element_of none = none
element_of (some a) = some (record empty_element {
  mac_request = a.mac_request;
  ip_request = a.ip_request;
  cni_args = a.cni_args;
})

module _ (S : Server) where
  open S use {host, client}

  -- The answer of a plugin, with the files behind its calls.
  abbrev after_calls : Trace → World → World
  after_calls calls w = record w { calls = calls; os = host.files_after calls w.os }

  abbrev run_result : Result Fields × Trace → Act Fields
  run_result (r, calls) w = (r, after_calls calls w)

  abbrev run_error : Option Error × Trace → Act (Unit {0})
  run_error (e, calls) w = (of_error e, after_calls calls w)

  -- A request names its pod.
  unfoldable pub check_named : K8sArgs → Result (Unit {0})
  check_named a =
      if a.pod_namespace == "" || a.pod_name == ""
      then err (
          errorf (
            "required CNI variable missing. pod name: " <> a.pod_name <> "; pod namespace: "
            <> a.pod_namespace))
      else ok tt

  abbrev pub silent : Act (Unit {0}) → Act Bytes
  silent act = act >> give no_text

  abbrev configuring : K8sArgs → String → Error
  configuring a e =
      errorf
        ("error configuring pod [" <> a.pod_namespace <> "/" <> a.pod_name <> "] networking: " <> e)

  add : K8sArgs → CmdArgs → Act Bytes
  unfolding cmd_add
  add a args =
      rephrase (configuring a) (cmd_add host args client) >>= λ result. lift (S.serialize result)

  run_check : CmdArgs → Act (Unit {0})
  unfolding cmd_check
  run_check args w =
      let (r, calls) =
        cmd_check host.environment host.plugins host.reader host.load_args w.calls args in
      (r, after_calls calls w)

  run_gc : CmdArgs → Act (Unit {0})
  unfolding cmd_gc
  run_gc args w = (cmd_gc host S.operations args w.os client, w)

  unknown : String → Act Bytes
  unknown cmd = lift (err (errorf ("unknown cmd type: " <> cmd)))

  -- HandleCNIRequest: every command checks the names of the pod before anything else.
  unfoldable pub handle_cni_request : String → K8sArgs → CmdArgs → Act Bytes
  unfolding check_named add cmd_del run_check run_gc cmd_status unknown
  handle_cni_request cmd a args =
      if cmd == "ADD"
      then lift (check_named a) >> add a args
      else if cmd == "DEL"
      then silent (lift (check_named a) >> cmd_del host args client)
      else if cmd == "CHECK"
      then silent (lift (check_named a) >> run_check args)
      else if cmd == "GC"
      then silent (lift (check_named a) >> run_gc args)
      else if cmd == "STATUS"
      then silent (lift (check_named a) >> lift (cmd_status host S.operations args client))
      else unknown cmd

  delegate_runtime : CmdArgs → K8sArgs → DelegateNetConf → RuntimeConf
  unfolding create_cni_runtime_conf
  delegate_runtime args a d =
      (create_cni_runtime_conf host.environment args a args.if_name none d).0

  -- The pod and the delegate of a request.
  loaded :
      K8sArgs → CmdArgs → Option NetworkSelectionElement → Result (Option Pod × DelegateNetConf)
  unfolding check_named get_pod load_delegate_net_conf
  loaded a args element = check_named a then λ _.
      get_pod host.codec.quote a false (reads_of host a client) then λ pod.
      load_delegate_net_conf host.reader.decoders args.stdin_data element "" "" then λ d.
      ok (pod, d)

  unfoldable pub cmd_delegate_add : CmdArgs → K8sArgs → NetConf → Option Attributes → Act Bytes
  unfolding loaded delegate_runtime delegate_add
  cmd_delegate_add args a conf attributes =
      lift (loaded a args (element_of attributes)) >>= λ (pod, d).
      rephrase (configuring a) (λ w.
        run_result (delegate_add host.plugins conf w.calls pod d (delegate_runtime args a d)) w)
      >>= λ result. lift (S.serialize (some result))

  unfoldable pub cmd_delegate_check : CmdArgs → K8sArgs → NetConf → Act (Unit {0})
  unfolding delegate_runtime delegate_check
  cmd_delegate_check args a conf = lift (S.decode_delegate args.stdin_data) >>= λ d. (λ w.
      let d' = record d { bytes = args.stdin_data } in
      run_error (delegate_check host.plugins conf w.calls d' (delegate_runtime args a d')) w)

  unfoldable pub cmd_delegate_del : CmdArgs → K8sArgs → NetConf → Act (Unit {0})
  unfolding loaded delegate_runtime delegate_del
  cmd_delegate_del args a conf = lift (loaded a args none) >>= λ (pod, d).
      (λ w. run_error (delegate_del host.plugins conf w.calls d (delegate_runtime args a d)) w)

  unfoldable pub handle_delegate_request :
      String → K8sArgs → CmdArgs → Option Attributes → Act Bytes
  unfolding cmd_delegate_add cmd_delegate_check cmd_delegate_del unknown
  handle_delegate_request cmd a args attributes =
      lift (or_err "json: cannot unmarshal" (host.reader.fill default_net_conf S.config))
      >>= λ conf.
          if cmd == "ADD"
          then cmd_delegate_add args a conf attributes
          else if cmd == "DEL"
          then silent (cmd_delegate_del args a conf)
          else if cmd == "CHECK"
          then silent (cmd_delegate_check args a conf)
          else unknown cmd

  -- The request, its command with its arguments, and its pod.
  unfoldable pub received : Bytes → Result (Request × String × CmdArgs × K8sArgs)
  unfolding extract_cni_data kubernetes_runtime_args
  received body = or_err "json: cannot unmarshal" (S.decode_request body) then λ request.
      context "could not extract the CNI command args: "
        (extract_cni_data S.config S.ignore_readiness request)
      then λ (cmd, args).
          context "could not extract the kubernetes runtime args: "
            (kubernetes_runtime_args request.env client)
          then λ a. ok (request, cmd, args, a)

  abbrev errored : CmdArgs → String → Error
  errored args e = errorf (S.print_args args <> " ERRORED: " <> e)

  -- handleCNIRequest and handleDelegateRequest, on the body of a request.
  unfoldable pub serve_cni : Bytes → Act Bytes
  unfolding received handle_cni_request
  serve_cni body = lift (received body) >>= λ (request, cmd, args, a).
      rephrase (errored args) (handle_cni_request cmd a args)

  unfoldable pub serve_delegate : Bytes → Act Bytes
  unfolding received handle_delegate_request
  serve_delegate body = lift (received body) >>= λ (request, cmd, args, a).
      rephrase (errored args) (handle_delegate_request cmd a args request.attributes)
