-- ===== src/K8sclient/Device/Laws.antt =====
-- Where the device of a delegate comes from: the remaining devices of a resource and what one
-- delegate takes of them.
use multus_cni.Base.{
  ℕ, zero, suc, ◌+◌, String, ◌≡◌, ◌≢◌, refl, ◌⊎◌, inl, inr, Option, none, some, List, [], ◌∷◌, ◌++◌,
  sym, ap, ◌∙◌, get_elem?, ◌==◌, string_eq, if◌then◌else◌, arith, All, Option-cases,
}
use multus_cni.Base.Dict.{lookup, insert, lookup-insert}
use multus_cni.Base.Outcome.{Yields, errs, unwinds, Yields-Ensures}
use multus_cni.Base.Result.{
  Result, ok, err, panic, Ensures, returns, fails, panics, Ensures-after, Ensures-map,
}
use multus_cni.Types.{DelegateNetConf, NetworkSelectionElement, ResourceInfo, ResourceMap}
use multus_cni.Conf.Delegate.Device.{load_delegate_net_conf-HoldsDevice}
use multus_cni.K8sclient.Client.{Pod, NetAttachDef, Client}
use multus_cni.K8sclient.Device.{
  take_device, fetch_resources, allocate, load_network, delegate_of, network_of,
  get_kubernetes_delegate, named_pod, or_empty, resource_name_annot,
}

module _ {ℓ} {A : Type ℓ} where
  abbrev pub drop : ℕ → List A → List A
  drop zero xs = xs
  drop (suc n) [] = []
  drop (suc n) (x ∷ xs) = drop n xs

  drop-get_elem :
      (xs : List A) (n : ℕ) (x : A) → get_elem? xs n ≡ some x → drop n xs ≡ x ∷ drop (suc n) xs
  drop-get_elem [] n x h = cc
  drop-get_elem (y ∷ xs) zero x h = ground arith
  drop-get_elem (y ∷ xs) (suc n) x h = drop-get_elem xs n x h

abbrev devices_left : Option ResourceInfo → List String
devices_left none = []
devices_left (some entry) = drop entry.index entry.device_ids

-- The devices of a resource that no delegate has taken.
abbrev pub remaining : String → ResourceMap → List String
remaining r m = devices_left (lookup r m)

-- What a delegate holds of the devices of a resource.
abbrev pub device_of : String → DelegateNetConf → List String
device_of r d = if d.resource_name == r then d.device_id ∷ [] else []

abbrev pub handed : String → String → String → List String
handed r resource id = if id == "" then [] else if resource == r then id ∷ [] else []

abbrev pub NonEmpty : List String → Type 0
NonEmpty ids = All (λ id. id ≢ "") ids

-- Past the last device the map stays, and before it the index is counted up.
take_device-cases :
    (resource : String) (m : ResourceMap) (entry : ResourceInfo)
    → (take_device resource m (some entry) ≡ ("", m))
      ⊎ (id : String) × (get_elem? entry.device_ids entry.index ≡ some id)
        × (take_device resource m (some entry)
            ≡ (id, insert resource (record entry { index = entry.index + 1 }) m))
unfolding take_device
take_device-cases resource m entry = ground arith

counted_up :
    (r resource id : String) (m : ResourceMap) (entry : ResourceInfo)
    → lookup resource m ≡ some entry
    → get_elem? entry.device_ids entry.index ≡ some id
    → NonEmpty (remaining r m)
    → remaining r m
      ≡ handed r resource id
        ++ remaining r (insert resource (record entry { index = entry.index + 1 }) m)
counted_up r resource id m entry found here full =
    rw (lookup-insert r resource (record entry { index = entry.index + 1 }) m)
      (ground (arith, drop-get_elem entry.device_ids entry.index id here))

take_device-none : (resource : String) (m : ResourceMap) → take_device resource m none ≡ ("", m)
unfolding take_device
take_device-none resource m = refl

pub take_device-remaining :
    (r resource : String) (m : ResourceMap)
    → NonEmpty (remaining r m)
    → remaining r m
      ≡ handed r resource (take_device resource m (lookup resource m)).0
        ++ remaining r (take_device resource m (lookup resource m)).1
take_device-remaining r resource m full = elim (Option-cases (lookup resource m)) [
  | inl e ↦ rw (e, take_device-none resource m) (ground arith)
  | inr (entry, e) ↦ rw e (elim (take_device-cases resource m entry) [
    | inl t ↦ rw t (ground arith)
    | inr (id, here, t) ↦ rw t (counted_up r resource id m entry e here full)
  ])
]

-- The devices that are given and those that remain are the ones that remained before.
abbrev pub Splits : String → ResourceMap → List String → Option ResourceMap → Type 0
Splits r m given m' =
    (rest : ResourceMap) × (m' ≡ some rest) × (remaining r m ≡ given ++ remaining r rest)

module _ (client : Client) (r : String) (named : r ≢ "") where
  load_network-device :
      (nad : NetAttachDef) (net : NetworkSelectionElement) (confdir device_id : String)
      → Ensures
          (λ d.
            device_of r d
            ≡ handed r (or_empty (lookup resource_name_annot nad.annotations)) device_id)
          (load_network client nad net confdir device_id)
  unfolding load_network
  load_network-device nad net confdir device_id =
      Ensures-after (client.cni_config nad confdir) λ bytes.
        Ensures-map (λ d h. ground arith)
          (load_delegate_net_conf-HoldsDevice client.decoders bytes (some net) device_id
            (or_empty (lookup resource_name_annot nad.annotations)))

  module _ (m : ResourceMap) (full : NonEmpty (remaining r m)) where
    allocate-remaining :
        (o : Option String) (pod : Option Pod)
        → Ensures (λ x. Splits r m (handed r (or_empty o) x.0) x.1) (allocate client o pod (some m))
    unfolding allocate fetch_resources
    allocate-remaining none pod = returns {a = ("", some m)} (m, refl, ground arith)
    allocate-remaining (some resource) none = returns {a = ("", some m)} (m, refl, ground arith)
    allocate-remaining (some resource) (some pod) =
        returns (_, refl, take_device-remaining r resource m full)

    delegate_of-Splits :
        (nad : NetAttachDef) (net : NetworkSelectionElement) (confdir : String)
        {x : Result (String × Option ResourceMap)}
        → Ensures
            (λ y.
              Splits r m (handed r (or_empty (lookup resource_name_annot nad.annotations)) y.0) y.1)
            x
        → Yields
            (λ d m'. Splits r m (device_of r d) m')
            (delegate_of client nad net confdir (some m) x)
    unfolding delegate_of
    delegate_of-Splits nad net confdir (returns (rest, e, split)) = Yields-Ensures (
        Ensures-map (λ d h. (rest, e, split ∙ ap (λ l. l ++ remaining r rest) (sym h)))
          (load_network-device nad net confdir _))
    delegate_of-Splits nad net confdir fails = errs
    delegate_of-Splits nad net confdir panics = unwinds

    network_of-Splits :
        (net : NetworkSelectionElement) (confdir : String) (pod : Option Pod)
        (o : Result NetAttachDef)
        → Yields
            (λ d m'. Splits r m (device_of r d) m')
            (network_of client net confdir pod (some m) o)
    unfolding network_of
    network_of-Splits net confdir pod (ok nad) =
        delegate_of-Splits nad net confdir
          (allocate-remaining (lookup resource_name_annot nad.annotations) (named_pod pod))
    network_of-Splits net confdir pod (err e) = errs
    network_of-Splits net confdir pod panic = unwinds

    pub get_kubernetes_delegate-Splits :
        (net : NetworkSelectionElement) (confdir : String) (pod : Option Pod)
        → Yields
            (λ d m'. Splits r m (device_of r d) m')
            (get_kubernetes_delegate client net confdir pod (some m))
    unfolding get_kubernetes_delegate
    get_kubernetes_delegate-Splits net confdir pod =
        network_of-Splits net confdir pod (client.get_net_attach_def net.namespace net.name)
