-- ===== src/K8sclient/Delegates/Devices.antt =====
-- How the delegates of a pod share the devices of a resource.
use mathlib.Core.Path.{subst}
use mathlib.Core.List.{append_assoc}
use multus_cni.Base.{String, ◌≡◌, ◌≢◌, refl, sym, Option, some, List, [], ◌∷◌, ◌++◌, ap, ◌∙◌}
use multus_cni.Base.Outcome.{Yields, gives, errs, unwinds, Yields-next, Yields-after, of_Yields}
use multus_cni.Base.Result.{ok}
use multus_cni.Types.{NetConf, DelegateNetConf, NetworkSelectionElement, ResourceMap}
use multus_cni.K8sclient.Client.{Pod, Client}
use multus_cni.K8sclient.Device.{Allocated}
use multus_cni.K8sclient.Device.Laws.{
  Splits, NonEmpty, remaining, device_of, get_kubernetes_delegate-Splits,
}
use multus_cni.K8sclient.Delegates.{context_of, check_isolation, get_network_delegates}

module _ {ℓ κ} {A : Type ℓ} {P : A → Option ResourceMap → Type κ} where
  pub Yields-context :
      (prefix : String) {x : Allocated A} → Yields P x → Yields P (context_of prefix x)
  Yields-context prefix (gives p) = gives p
  Yields-context prefix errs = errs
  Yields-context prefix unwinds = unwinds

-- The devices of a resource that delegates hold, in the order of the delegates.
abbrev pub devices_of : String → List DelegateNetConf → List String
devices_of r [] = []
devices_of r (d ∷ ds) = device_of r d ++ devices_of r ds

All-tail : (xs ys : List String) → NonEmpty (xs ++ ys) → NonEmpty ys
All-tail [] ys h = h
All-tail (x ∷ xs) ys (_, h) = All-tail xs ys h

chain :
    {before left : List String} (rest xs ys : List String)
    → before ≡ xs ++ left
    → left ≡ ys ++ rest
    → before ≡ (xs ++ ys) ++ rest
chain rest xs ys e f = e ∙ ap (λ l. xs ++ l) f ∙ sym (append_assoc xs ys rest)

module _ (client : Client) (pod : Pod) (conf : NetConf) (r : String) (named : r ≢ "") where
  get_network_delegates-Splits :
      (networks : List NetworkSelectionElement) (m : ResourceMap)
      → NonEmpty (remaining r m)
      → Yields
          (λ ds m'. Splits r m (devices_of r ds) m')
          (get_network_delegates client pod conf networks (some m))
  unfolding get_network_delegates
  get_network_delegates-Splits [] m full = gives (m, refl, refl)
  get_network_delegates-Splits (net ∷ networks) m full =
      Yields-after (check_isolation conf pod.namespace net.namespace) _ λ _.
        Yields-next
          (Yields-context _
            (get_kubernetes_delegate-Splits client r named m full net conf.conf_dir (some pod)))
          λ d m₁ (rest, e, split). rw e (
            Yields-next
              (get_network_delegates-Splits networks rest
                (All-tail (device_of r d) (remaining r rest) (subst NonEmpty split full)))
              λ ds m₂ (left, f, more).
                gives (left, f, chain _ (device_of r d) (devices_of r ds) split more))

  -- The devices of a resource that the networks of a pod take are its remaining devices in their
  -- order: what the delegates hold, one after the other, and then what still remains, is what
  -- remained before, so no device is handed out twice. The resource has a name, no remaining device
  -- has the empty name, and the map of the resources is not nil.
  pub get_network_delegates-devices :
      (networks : List NetworkSelectionElement) (m : ResourceMap)
      → NonEmpty (remaining r m)
      → {ds : List DelegateNetConf} {m' : Option ResourceMap}
      → get_network_delegates client pod conf networks (some m) ≡ (ok ds, m')
      → Splits r m (devices_of r ds) m'
  get_network_delegates-devices networks m full h =
      of_Yields (get_network_delegates-Splits networks m full) h
