-- ===== src/Conf/Delegate/Laws.antt =====
-- What a loaded delegate holds.
use multus_cni.Base.{
  String, ◌<>◌, ◌≡◌, refl, ◌⊎◌, inl, inr, Bool, true, false, Option, none, some, List, [], ◌∷◌,
  arith, ◌==◌, string_eq, Bool-cases, if◌then◌else◌,
}
use multus_cni.Base.Result.{
  ok, or_err, Ensures, returns, fails, panics, Ensures-after, Ensures-bind, Ensures-context,
  Ensures-map, of_Ensures,
}
use multus_cni.Json.{Bytes}
use multus_cni.Types.{CniConf, CniConfList, DelegateNetConf, NetworkSelectionElement}
use multus_cni.Conf.Delegate.{
  Decoders, fresh, check_plugins, apply_element, apply_element?, with_device,
  load_delegate_net_conf_list, load_list, load_single, load_delegate_net_conf, args_of, list_bytes,
  single_bytes,
}

-- A delegate is a list of configurations exactly if it has a plugin list, which is then not empty.
-- The loader marks no delegate as the master, asks for no filter of gateways.
pub record IsLoaded (d : DelegateNetConf) : Type 0 where
  pub shape :
      ((d.conf_list_plugin ≡ true)
        × (p : CniConf) × (ps : List CniConf) × (d.conf_list.plugins ≡ some (p ∷ ps)))
      ⊎ ((d.conf_list_plugin ≡ false) × (d.conf_list.plugins ≡ none))
  pub not_master : d.master_plugin ≡ false
  pub no_filter : (d.is_filter_v4_gateway ≡ false) × (d.is_filter_v6_gateway ≡ false)

-- No selection element has been applied yet; a device can be known.
record IsPlain (device_id : String) (d : DelegateNetConf) : Type 0 where
  device : d.device_id ≡ device_id
  ifname : d.ifname_request ≡ ""
  mac : d.mac_request ≡ ""
  guid : d.infiniband_guid_request ≡ ""
  ips : d.ip_request ≡ none
  ports : d.port_mappings_request ≡ none
  bandwidth : d.bandwidth_request ≡ none
  gateways : d.gateway_request ≡ none

check_plugins_sound :
    (o : Option (List CniConf))
    → Ensures (λ _. (p : CniConf) × (ps : List CniConf) × (o ≡ some (p ∷ ps))) (check_plugins o)
unfolding check_plugins
check_plugins_sound none = fails
check_plugins_sound (some []) = panics
check_plugins_sound (some (p ∷ ps)) = elim (Bool-cases (p.kind == "")) [
  | inl h ↦ rw h fails
  | inr h ↦ rw h (returns (p, ps, refl))
]

-- What loading establishes before a selection element is applied.
abbrev IsBare : String → DelegateNetConf → Type 0
IsBare device_id d = IsLoaded d × IsPlain device_id d

with_device-IsBare :
    (device_id resource_name : String) (d : DelegateNetConf) (bytes : Bytes)
    → IsBare "" d
    → IsBare device_id (record (with_device device_id resource_name d) { bytes = bytes })
with_device-IsBare device_id resource_name d bytes l = ground arith

fresh-IsBare : (conf : CniConf) (bytes : Bytes) → IsBare "" (fresh conf bytes)
fresh-IsBare conf bytes = ground arith

module _ (D : Decoders) (bytes : Bytes) (e : Option NetworkSelectionElement)
    (device_id resource_name : String) where
  load_delegate_net_conf_list-IsBare :
      (conf : CniConf)
      → Ensures (IsBare "") (load_delegate_net_conf_list D bytes (fresh conf bytes))
  unfolding load_delegate_net_conf_list
  load_delegate_net_conf_list-IsBare conf = Ensures-after _ λ (l : CniConfList).
      Ensures-bind (check_plugins_sound l.plugins) (λ _ (p, ps, q). returns (ground arith))

  load_list-IsBare :
      (conf : CniConf)
      → Ensures (IsBare device_id) (load_list D bytes e device_id resource_name (fresh conf bytes))
  unfolding load_list
  load_list-IsBare conf =
      Ensures-bind (Ensures-context _ (load_delegate_net_conf_list-IsBare conf)) λ d b.
        Ensures-after (list_bytes bytes (args_of e) device_id)
          λ b'. returns (with_device-IsBare device_id resource_name d b' b)

  load_single-IsBare :
      (conf : CniConf)
      → Ensures
          (IsBare device_id)
          (load_single D bytes e device_id resource_name (fresh conf bytes))
  unfolding load_single
  load_single-IsBare conf = Ensures-after (single_bytes bytes (args_of e) device_id) λ b'.
      returns
        (with_device-IsBare device_id resource_name (fresh conf bytes) b' (fresh-IsBare conf bytes))

-- What a selection element asks of its delegate. Its gateways, addresses, port mappings and bandwidth
-- are taken over as they are, and its device where the loader is given none.
pub record Requests (device_id : String) (e : NetworkSelectionElement) (d : DelegateNetConf)
    : Type 0 where
  pub device : d.device_id ≡ (if device_id == "" then e.device_id else device_id)
  pub name : (e.name ≡ "") ⊎ (d.name ≡ e.namespace <> "/" <> e.name)
  pub ifname : d.ifname_request ≡ e.interface_request
  pub mac : d.mac_request ≡ e.mac_request
  pub guid : d.infiniband_guid_request ≡ e.infiniband_guid_request
  pub ips : d.ip_request ≡ e.ip_request
  pub ports : d.port_mappings_request ≡ e.port_mappings_request
  pub bandwidth : d.bandwidth_request ≡ e.bandwidth_request
  pub gateways : d.gateway_request ≡ e.gateway_request

apply_element-Requests :
    (e : NetworkSelectionElement) (device_id : String) (d : DelegateNetConf)
    → IsBare device_id d
    → IsLoaded (apply_element e device_id d) × Requests device_id e (apply_element e device_id d)
unfolding apply_element
apply_element-Requests e device_id d b = ground arith

abbrev Meets : String → Option NetworkSelectionElement → DelegateNetConf → Type 0
Meets device_id none d = IsLoaded d
Meets device_id (some e) d = IsLoaded d × Requests device_id e d

apply_element?-Meets :
    (e : Option NetworkSelectionElement) (device_id : String) (d : DelegateNetConf)
    → IsBare device_id d
    → Meets device_id e (apply_element? e device_id d)
apply_element?-Meets none device_id d b = b.0
apply_element?-Meets (some e) device_id d b = apply_element-Requests e device_id d b

Meets-IsLoaded :
    (device_id : String) (e : Option NetworkSelectionElement) (d : DelegateNetConf)
    → Meets device_id e d
    → IsLoaded d
Meets-IsLoaded device_id none d m = m
Meets-IsLoaded device_id (some e) d m = m.0

module _ (D : Decoders) (bytes : Bytes) (device_id resource_name : String) where
  load-IsBare :
      (e : Option NetworkSelectionElement) (conf : CniConf) (b : Bool)
      → Ensures (IsBare device_id) (
          if b
          then load_list D bytes e device_id resource_name (fresh conf bytes)
          else load_single D bytes e device_id resource_name (fresh conf bytes))
  load-IsBare e conf true = load_list-IsBare D bytes e device_id resource_name conf
  load-IsBare e conf false = load_single-IsBare D bytes e device_id resource_name conf

  load_delegate_net_conf-Meets :
      (e : Option NetworkSelectionElement)
      → Ensures (Meets device_id e) (load_delegate_net_conf D bytes e device_id resource_name)
  unfolding load_delegate_net_conf
  load_delegate_net_conf-Meets e =
      Ensures-after
        (or_err "LoadDelegateNetConf: error unmarshalling delegate config" (D.net_conf bytes))
        λ conf.
          Ensures-bind (load-IsBare e conf (conf.kind == ""))
            λ d b. returns (apply_element?-Meets e device_id d b)

  pub load_delegate_net_conf-Ensures :
      (e : Option NetworkSelectionElement)
      → Ensures IsLoaded (load_delegate_net_conf D bytes e device_id resource_name)
  load_delegate_net_conf-Ensures e =
      Ensures-map (Meets-IsLoaded device_id e) (load_delegate_net_conf-Meets e)

  -- Any delegate that loads is well shaped: it is a list of configurations exactly if it has a
  -- plugin list, which then has a first plugin, it is not the master, and no gateway is filtered.
  pub load_delegate_net_conf-IsLoaded :
      (e : Option NetworkSelectionElement) {d : DelegateNetConf}
      → load_delegate_net_conf D bytes e device_id resource_name ≡ ok d
      → IsLoaded d
  load_delegate_net_conf-IsLoaded e h = of_Ensures (load_delegate_net_conf-Ensures e) h

  -- A delegate that is loaded for a selection element carries its name, interface, addresses, port
  -- mappings, bandwidth and gateways, and the device of the loader or else that of the element. The CNI
  -- arguments, which are put into the configuration, are not spoken of.
  pub load_delegate_net_conf-Requests :
      (e : NetworkSelectionElement) {d : DelegateNetConf}
      → load_delegate_net_conf D bytes (some e) device_id resource_name ≡ ok d
      → Requests device_id e d
  load_delegate_net_conf-Requests e h = (of_Ensures (load_delegate_net_conf-Meets (some e)) h).1
