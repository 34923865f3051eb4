-- ===== src/Conf/Runtime/Capabilities.antt =====
-- The capability arguments of a plugin, and where each of them comes from.
use mathlib.Core.Option
use mathlib.Core.Path.{subst}
use multus_cni.Base.{
  ap, List, [], ◌∷◌, inl, inr, Bool-cases, String, Bool, ◌≡◌, refl, ◌∙◌, true, false, Option, none,
  some, arith, ◌==◌, string_eq, if◌then◌else◌,
}
use multus_cni.Base.Dict.{Dict, lookup, lookup-insert, lookup-nil}
use multus_cni.Types.{
  RuntimeConfig, DelegateNetConf, K8sArgs, CmdArgs, Capability, ips, bandwidth, port_mappings, text,
}
use multus_cni.Conf.Runtime.{
  capability_args, insert_given, given_text, given_list, merge_cni_runtime_config, or_default,
  or_given, or_text, delegate_runtime_config, Environment, create_cni_runtime_conf,
}

lookup-insert_given :
    (k key : String) (o : Option Capability) (d : Dict Capability)
    → lookup k (insert_given key o d) ≡ (if k == key then or_given o (lookup k d) else lookup k d)
lookup-insert_given k key none d = ground arith
lookup-insert_given k key (some v) d = lookup-insert k key v d

or_given-none : (o : Option Capability) → or_given o none ≡ o
or_given-none none = refl
or_given-none (some c) = refl

-- The capability arguments of a runtime configuration: an empty text or list gives none.
pub record CapabilitiesOf (rc : RuntimeConfig) (caps : Dict Capability) : Type 0 where
  pub mac : lookup "mac" caps ≡ given_text rc.mac
  pub guid : lookup "infinibandGUID" caps ≡ given_text rc.infiniband_guid
  pub device : lookup "deviceID" caps ≡ given_text rc.device_id
  pub file : lookup "CNIDeviceInfoFile" caps ≡ given_text rc.cni_device_info_file
  pub addresses : lookup "ips" caps ≡ given_list ips rc.ips
  pub rate : lookup "bandwidth" caps ≡ Option.map bandwidth rc.bandwidth
  pub ports : lookup "portMappings" caps ≡ given_list port_mappings rc.port_maps

ruleset lookups = (lookup-insert_given, lookup-nil, or_given-none)

capability_args-CapabilitiesOf : (rc : RuntimeConfig) → CapabilitiesOf rc (capability_args rc)
unfolding capability_args string_eq
capability_args-CapabilitiesOf rc = record {
  mac = simp lookups;
  guid = simp lookups;
  device = simp lookups;
  file = simp lookups;
  addresses = simp lookups;
  rate = simp lookups;
  ports = simp lookups;
}

-- The first text that is not empty.
abbrev pub first_text : List String → Option Capability
first_text [] = none
first_text (s ∷ more) = if s == "" then first_text more else some (text s)

-- The first list that is given, unless it is empty.
abbrev pub first_list {ℓ} :
    {A : Type ℓ} → (List A → Capability) → List (Option (List A)) → Option Capability
first_list f [] = none
first_list f (none ∷ more) = first_list f more
first_list f (some [] ∷ more) = none
first_list f (some (x ∷ xs) ∷ more) = some (f (x ∷ xs))

-- The first value that is given.
abbrev pub first_some {ℓ} : {A : Type ℓ} → (A → Capability) → List (Option A) → Option Capability
first_some f [] = none
first_some f (none ∷ more) = first_some f more
first_some f (some a ∷ more) = some (f a)

-- Where a capability can come from, the first source first: for the master only what Multus was given, and
-- for any other plugin the request of its delegate before it.
abbrev pub sources {ℓ} : {A : Type ℓ} → Bool → A → A → List A
sources true request given = given ∷ []
sources false request given = request ∷ given ∷ []

text_master : {b : Bool} (r g : String) → b ≡ true → given_text g ≡ first_text (sources b r g)
text_master r g m = rw m (ground arith)

text_other :
    {b : Bool} (r g : String) → b ≡ false → given_text (or_text r g) ≡ first_text (sources b r g)
text_other r g m = rw m (ground arith)

module _ {ℓ} {A : Type ℓ} where
  one_list :
      (f : List A → Capability) (o : Option (List A)) → given_list f o ≡ first_list f (o ∷ [])
  one_list f none = refl
  one_list f (some []) = refl
  one_list f (some (x ∷ xs)) = refl

  two_lists :
      (f : List A → Capability) (o p : Option (List A))
      → given_list f (or_given o p) ≡ first_list f (o ∷ p ∷ [])
  two_lists f none p = one_list f p
  two_lists f (some []) p = refl
  two_lists f (some (x ∷ xs)) p = refl

  list_master :
      (f : List A → Capability) {b : Bool} (r g : Option (List A))
      → b ≡ true
      → given_list f g ≡ first_list f (sources b r g)
  list_master f r g m = rw m (one_list f g)

  list_other :
      (f : List A → Capability) {b : Bool} (r g : Option (List A))
      → b ≡ false
      → given_list f (or_given r g) ≡ first_list f (sources b r g)
  list_other f r g m = rw m (two_lists f r g)

  one_value : (f : A → Capability) (o : Option A) → Option.map f o ≡ first_some f (o ∷ [])
  one_value f none = refl
  one_value f (some a) = refl

  two_values :
      (f : A → Capability) (o p : Option A)
      → Option.map f (or_given o p) ≡ first_some f (o ∷ p ∷ [])
  two_values f none p = one_value f p
  two_values f (some a) p = refl

  some_master :
      (f : A → Capability) {b : Bool} (r g : Option A)
      → b ≡ true
      → Option.map f g ≡ first_some f (sources b r g)
  some_master f r g m = rw m (one_value f g)

  some_other :
      (f : A → Capability) {b : Bool} (r g : Option A)
      → b ≡ false
      → Option.map f (or_given r g) ≡ first_some f (sources b r g)
  some_other f r g m = rw m (two_values f r g)

module _ (E : Environment) (args : CmdArgs) (k8s_args : K8sArgs) (if_name : String)
    (rc : Option RuntimeConfig) (delegate : DelegateNetConf) where
  abbrev caps : Dict Capability
  caps = (create_cni_runtime_conf E args k8s_args if_name rc delegate).0.capability_args

  abbrev merged : RuntimeConfig
  merged = merge_cni_runtime_config rc delegate

  abbrev configured : RuntimeConfig
  configured = delegate_runtime_config E args.container_id delegate rc if_name

  caps-CapabilitiesOf : CapabilitiesOf configured caps
  unfolding create_cni_runtime_conf
  caps-CapabilitiesOf = capability_args-CapabilitiesOf configured

  configured-eq :
      configured ≡ record merged { cni_device_info_file = configured.cni_device_info_file }
  unfolding delegate_runtime_config
  configured-eq = ground arith

  -- The runtime configuration with the file of the device's information set.
  abbrev with_file : RuntimeConfig → RuntimeConfig
  with_file r = record r { cni_device_info_file = configured.cni_device_info_file }

  caps-merged : (r : RuntimeConfig) → merged ≡ r → CapabilitiesOf (with_file r) caps
  caps-merged r e =
      subst (λ q. CapabilitiesOf q caps) (configured-eq ∙ ap with_file e) caps-CapabilitiesOf

  -- The master plugin is called with the runtime configuration that Multus was given; what the
  -- delegate itself requests is not added.
  create_cni_runtime_conf-master :
      delegate.master_plugin ≡ true
      → (lookup "mac" caps ≡ given_text (or_default rc).mac)
        × (lookup "infinibandGUID" caps ≡ given_text (or_default rc).infiniband_guid)
        × (lookup "deviceID" caps ≡ given_text (or_default rc).device_id)
        × (lookup "ips" caps ≡ given_list ips (or_default rc).ips)
        × (lookup "bandwidth" caps ≡ Option.map bandwidth (or_default rc).bandwidth)
        × (lookup "portMappings" caps ≡ given_list port_mappings (or_default rc).port_maps)
  unfolding merge_cni_runtime_config
  create_cni_runtime_conf-master m =
      let c = caps-merged (or_default rc) (ground arith) in
      (c.mac, c.guid, c.device, c.addresses, c.rate, c.ports)

  -- Any other plugin is called with what its delegate requests, and with the runtime configuration
  -- that Multus was given where the delegate requests nothing.
  create_cni_runtime_conf-requests :
      delegate.master_plugin ≡ false
      → (lookup "mac" caps ≡ given_text (or_text delegate.mac_request (or_default rc).mac))
        × (lookup "infinibandGUID" caps
            ≡ given_text (or_text delegate.infiniband_guid_request (or_default rc).infiniband_guid))
        × (lookup "deviceID" caps
            ≡ given_text (or_text delegate.device_id (or_default rc).device_id))
        × (lookup "ips" caps ≡ given_list ips (or_given delegate.ip_request (or_default rc).ips))
        × (lookup "bandwidth" caps
            ≡ Option.map bandwidth (or_given delegate.bandwidth_request (or_default rc).bandwidth))
        × (lookup "portMappings" caps
            ≡ given_list port_mappings
                (or_given delegate.port_mappings_request (or_default rc).port_maps))
  unfolding merge_cni_runtime_config
  create_cni_runtime_conf-requests m =
      let c = caps-merged merged refl in
      (
        c.mac ∙ rw m,
        c.guid ∙ rw m,
        c.device ∙ rw m,
        c.addresses ∙ rw m,
        c.rate ∙ rw m,
        c.ports ∙ rw m,
      )

  pub create_cni_runtime_conf-wanted :
      let given = or_default rc in
      (lookup "mac" caps
        ≡ first_text (sources delegate.master_plugin delegate.mac_request given.mac))
      × (lookup "infinibandGUID" caps
          ≡ first_text (
              sources delegate.master_plugin delegate.infiniband_guid_request
                given.infiniband_guid))
      × (lookup "deviceID" caps
          ≡ first_text (sources delegate.master_plugin delegate.device_id given.device_id))
      × (lookup "ips" caps
          ≡ first_list ips (sources delegate.master_plugin delegate.ip_request given.ips))
      × (lookup "bandwidth" caps
          ≡ first_some bandwidth
              (sources delegate.master_plugin delegate.bandwidth_request given.bandwidth))
      × (lookup "portMappings" caps
          ≡ first_list port_mappings
              (sources delegate.master_plugin delegate.port_mappings_request given.port_maps))
  create_cni_runtime_conf-wanted = elim (Bool-cases delegate.master_plugin) [
    | inl m ↦
        let (mac, guid, device, addresses, rate, ports) = create_cni_runtime_conf-master m in
        (
          mac ∙ text_master _ _ m,
          guid ∙ text_master _ _ m,
          device ∙ text_master _ _ m,
          addresses ∙ list_master ips _ _ m,
          rate ∙ some_master bandwidth _ _ m,
          ports ∙ list_master port_mappings _ _ m,
        )
    | inr m ↦
        let (mac, guid, device, addresses, rate, ports) = create_cni_runtime_conf-requests m in
        (
          mac ∙ text_other _ _ m,
          guid ∙ text_other _ _ m,
          device ∙ text_other _ _ m,
          addresses ∙ list_other ips _ _ m,
          rate ∙ some_other bandwidth _ _ m,
          ports ∙ list_other port_mappings _ _ m,
        )
  ]
