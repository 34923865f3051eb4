-- ===== src/K8sclient/Delegates/Isolation.antt =====
-- Namespace isolation of the networks of a pod.
use multus_cni.Base.{
  suc, Bool-cases, ◌≡◌, refl, ap, ◌⊎◌, inl, inr, true, Option, some, List, [], ◌∷◌, contains,
  length, ◌==◌, string_eq, arith, All,
}
use multus_cni.Base.Result.{ok, Ensures, returns, fails}
use multus_cni.Types.{NetConf, DelegateNetConf, NetworkSelectionElement, ResourceMap}
use multus_cni.K8sclient.Client.{Pod, Client}
use multus_cni.K8sclient.Device.{get_kubernetes_delegate}
use multus_cni.Base.Outcome.{Yields, gives, Yields-Ensures, Yields-next, Yields-then, of_Yields}
use multus_cni.K8sclient.Delegates.{
  context_of, is_valid_namespace_reference, check_isolation, get_network_delegates,
}

-- The pod may refer to its own namespace, and to the namespaces that are not isolated.
abbrev pub IsVisible : Pod → NetConf → NetworkSelectionElement → Type 0
IsVisible pod conf net =
    (pod.namespace ≡ net.namespace) ⊎ (contains conf.non_isolated_namespaces net.namespace ≡ true)

module _ (client : Client) (pod : Pod) (conf : NetConf)
    (isolated : conf.namespace_isolation ≡ true) where
  check_isolation-IsVisible :
      (net : NetworkSelectionElement)
      → Ensures (λ _. IsVisible pod conf net) (check_isolation conf pod.namespace net.namespace)
  unfolding check_isolation is_valid_namespace_reference
  check_isolation-IsVisible net =
      elim (Bool-cases (contains conf.non_isolated_namespaces net.namespace)) [
        | inl c ↦
            rw (isolated, c)
              (elim (Bool-cases (pod.namespace == net.namespace)) [
                | inl h ↦ rw h (returns (inr refl))
                | inr h ↦ rw h (returns (inr refl))
              ])
        | inr c ↦
            rw (isolated, c)
              (elim (Bool-cases (pod.namespace == net.namespace)) [
                | inl h ↦ rw h (returns (inl (ground arith)))
                | inr h ↦ rw h fails
              ])
      ]

  get_network_delegates-Visible :
      (networks : List NetworkSelectionElement) (m : Option ResourceMap)
      → Yields
          (λ ds m'. All (IsVisible pod conf) networks × (length ds ≡ length networks))
          (get_network_delegates client pod conf networks m)
  unfolding get_network_delegates
  get_network_delegates-Visible [] m = gives (tt, refl)
  get_network_delegates-Visible (net ∷ networks) m =
      Yields-next (Yields-Ensures {s = m} (check_isolation-IsVisible net)) λ _ m₀ v.
        Yields-then (context_of _ (get_kubernetes_delegate client net conf.conf_dir (some pod) m₀))
          _
          λ d m₁.
            Yields-next (get_network_delegates-Visible networks m₁)
              λ ds m₂ (vs, n). gives ((v, vs), ap suc n)

  -- With namespace isolation on, the delegates of a pod's networks are loaded only where every
  -- network is in the namespace of the pod or in one that is not isolated, and then there is one
  -- delegate for each network.
  pub get_network_delegates-isolated :
      (networks : List NetworkSelectionElement) (m : Option ResourceMap) {ds : List DelegateNetConf}
      {m' : Option ResourceMap}
      → get_network_delegates client pod conf networks m ≡ (ok ds, m')
      → All (IsVisible pod conf) networks × (length ds ≡ length networks)
  get_network_delegates-isolated networks m h =
      of_Yields (get_network_delegates-Visible networks m) h
