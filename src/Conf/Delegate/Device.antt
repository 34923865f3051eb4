-- ===== src/Conf/Delegate/Device.antt =====
-- The device that a loaded delegate holds.
use multus_cni.Base.{
  String, ◌≡◌, ◌≢◌, refl, ◌⊎◌, inl, inr, Option, none, some, arith, ◌==◌, string_eq, Bool-cases,
  if◌then◌else◌,
}
use multus_cni.Base.Result.{or_err, Ensures, returns, Ensures-after, Ensures-bind, Ensures-context}
use multus_cni.Json.{Bytes}
use multus_cni.Types.{CniConf, CniConfList, DelegateNetConf, NetworkSelectionElement}
use multus_cni.Conf.Delegate.{
  Decoders, fresh, check_plugins, apply_element, apply_element?, with_device,
  load_delegate_net_conf_list, load_list, load_single, load_delegate_net_conf, args_of, list_bytes,
  single_bytes,
}

-- A delegate without a device names no resource, and one with a device names that of the device.
abbrev pub HoldsDevice : String → String → DelegateNetConf → Type 0
HoldsDevice device_id resource_name d =
    (device_id ≡ "") × (d.resource_name ≡ "")
    ⊎ (device_id ≢ "") × (d.resource_name ≡ resource_name) × (d.device_id ≡ device_id)

abbrev IsUnbound : DelegateNetConf → Type 0
IsUnbound d = d.resource_name ≡ ""

module _ (D : Decoders) (bytes : Bytes) (e : Option NetworkSelectionElement)
    (device_id resource_name : String) where
  with_device-HoldsDevice :
      (d : DelegateNetConf) (b : Bytes)
      → IsUnbound d
      → HoldsDevice device_id resource_name
          (record (with_device device_id resource_name d) { bytes = b })
  with_device-HoldsDevice d b u = ground arith

  load_delegate_net_conf_list-IsUnbound :
      (conf : CniConf) → Ensures IsUnbound (load_delegate_net_conf_list D bytes (fresh conf bytes))
  unfolding load_delegate_net_conf_list
  load_delegate_net_conf_list-IsUnbound conf =
      Ensures-after _ λ (l : CniConfList). Ensures-after (check_plugins l.plugins) λ _. returns refl

  load_list-HoldsDevice :
      (conf : CniConf)
      → Ensures
          (HoldsDevice device_id resource_name)
          (load_list D bytes e device_id resource_name (fresh conf bytes))
  unfolding load_list
  load_list-HoldsDevice conf =
      Ensures-bind (Ensures-context _ (load_delegate_net_conf_list-IsUnbound conf)) λ d u.
        Ensures-after (list_bytes bytes (args_of e) device_id)
          λ b. returns (with_device-HoldsDevice d b u)

  load_single-HoldsDevice :
      (conf : CniConf)
      → Ensures
          (HoldsDevice device_id resource_name)
          (load_single D bytes e device_id resource_name (fresh conf bytes))
  unfolding load_single
  load_single-HoldsDevice conf =
      Ensures-after (single_bytes bytes (args_of e) device_id)
        λ b. returns (with_device-HoldsDevice (fresh conf bytes) b refl)

  load_any-HoldsDevice :
      (conf : CniConf)
      → Ensures (HoldsDevice device_id resource_name) (
          if conf.kind == ""
          then load_list D bytes e device_id resource_name (fresh conf bytes)
          else load_single D bytes e device_id resource_name (fresh conf bytes))
  load_any-HoldsDevice conf = elim (Bool-cases (conf.kind == "")) [
    | inl h ↦ rw h (load_list-HoldsDevice conf)
    | inr h ↦ rw h (load_single-HoldsDevice conf)
  ]

  apply_element-HoldsDevice :
      (o : Option NetworkSelectionElement) (d : DelegateNetConf)
      → HoldsDevice device_id resource_name d
      → HoldsDevice device_id resource_name (apply_element? o device_id d)
  unfolding apply_element
  apply_element-HoldsDevice none d h = h
  apply_element-HoldsDevice (some x) d h = ground arith

  pub load_delegate_net_conf-HoldsDevice :
      Ensures
        (HoldsDevice device_id resource_name)
        (load_delegate_net_conf D bytes e device_id resource_name)
  unfolding load_delegate_net_conf
  load_delegate_net_conf-HoldsDevice =
      Ensures-after
        (or_err "LoadDelegateNetConf: error unmarshalling delegate config" (D.net_conf bytes))
        λ conf.
          Ensures-bind (load_any-HoldsDevice conf) λ d h. returns (apply_element-HoldsDevice e d h)
