-- ===== src/Multus/Plugins/Accepted.antt =====
-- DelegateAdd where nothing is refused.
use multus_cni.Base.{String, some, Bool, ◌≡◌, refl, Option, none, ◌∷◌, string_eq}
use multus_cni.Base.Result.{ok, Error}
use multus_cni.Json.{Fields, Bytes}
use multus_cni.Types.{DelegateNetConf, NetConf, RuntimeConf}
use multus_cni.K8sclient.Client.{Pod}
use multus_cni.Multus.Calls.{Call, Trace, done, Plugins, add}
use multus_cni.Multus.Plugins.{
  delegate_add, add_linked, request_args, mac_args, ip_args, add_checked, conf_add, add_parsed,
  add_replied, add_with, invocation, announce, validate_if_name, validated,
}

-- libcni reads every configuration, no interface has the name of a new one, and every addition succeeds.
pub record IsObliging (P : Plugins) : Type 0 where
  pub parses : (is_list : Bool) (b : Bytes) → P.parse_error is_list b ≡ none
  pub namespaces : (trace : Trace) (netns : String) → P.get_ns trace netns ≡ none
  pub links :
      (trace : Trace) (netns if_name : String)
      → (e : Error) × (P.link_by_name trace netns if_name ≡ some e) × (e.text ≡ "Link not found")
  pub adds :
      (trace : Trace) (call : Call) → (result : Fields) × (P.add_reply trace call ≡ done result)

module _ (P : Plugins) (o : IsObliging P) (conf : NetConf) where
  validate_if_name-accepts :
      (trace : Trace) (netns if_name : String) → validate_if_name P conf trace netns if_name ≡ none
  unfolding validate_if_name validated string_eq
  validate_if_name-accepts trace netns if_name =
      let (e, found, text) = o.links trace netns if_name in
      rw (validate_if_name, o.namespaces trace netns, found, validated, text) refl

  -- A delegate without the deprecated requests for addresses is added.
  pub delegate_add-accepts :
      (trace : Trace) (pod : Option Pod) (d : DelegateNetConf) (rt : RuntimeConf)
      → d.mac_request ≡ ""
      → d.ip_request ≡ none
      → (result : Fields) × (trace' : Trace) × (delegate_add P conf trace pod d rt
          ≡ (ok result, trace'))
  unfolding delegate_add add_linked request_args mac_args ip_args add_checked conf_add add_parsed
      add_replied add_with string_eq
  delegate_add-accepts trace pod d rt mac ip =
      let (result, h) = o.adds trace (invocation conf add d rt) in
      (
        result,
        announce P conf pod d rt (invocation conf add d rt ∷ trace) (P.result_of result),
        rw
            (
              validate_if_name-accepts trace rt.net_ns rt.if_name,
              mac,
              ip,
              o.parses d.conf_list_plugin d.bytes,
              h,
            )
            refl,
      )
