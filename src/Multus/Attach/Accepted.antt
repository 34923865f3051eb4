-- ===== src/Multus/Attach/Accepted.antt =====
-- The loop over delegates that every plugin accepts.
use multus_cni.Base.{
  ℕ, ◌+◌, String, ◌≡◌, ◌++◌, ◌⊎◌, inl, inr, Bool-cases, refl, Bool, true, false, Option, none, some,
  List, [], ◌∷◌, All,
}
use multus_cni.Base.Result.{ok}
use multus_cni.Json.{Fields}
use multus_cni.Types.{DelegateNetConf, RuntimeConf}
use multus_cni.K8sclient.Client.{Client}
use multus_cni.K8sclient.Status.Written.{IsKnown}
use multus_cni.Multus.Host.{Host}
use multus_cni.Multus.Plugins.Accepted.{IsObliging, delegate_add-accepts}
use multus_cni.Multus.World.{World}
use multus_cni.Multus.Attach.{
  Attached, Session, delegate_runtime, copied, plugin_added, add_plugin, delete_gateways,
  add_gateways, change_gateways, statuses_of, reports_status, gathered, attach_one, attach_from,
  device_info, deletes_v4, deletes_v6, adds_gateway, settled, choose,
}

-- A delegate that requests no address and no gateway, and whose gateways are not filtered.
abbrev pub IsPlain : DelegateNetConf → Type 0
IsPlain d =
    (d.mac_request ≡ "")
    × (d.ip_request ≡ none)
    × (d.gateway_request ≡ none)
    × (d.is_filter_v4_gateway ≡ false)
    × (d.is_filter_v6_gateway ≡ false)

-- What the statuses of networks are made of, and the pod, are known where statuses are reported.
pub record IsReported (H : Host) (S : Session) : Type 0 where
  pub client : Client
  pub given : S.client ≡ some client
  pub known : IsKnown client S.k8s_args
  pub statuses :
      (result : Fields) (name : String) (master : Bool) (info : Option Fields)
      → (l : List Fields) × (H.network_statuses result name master info ≡ ok l)

abbrev pub CanReport : Host → Session → Type 0
CanReport H S = (reports_status H S ≡ false) ⊎ IsReported H S

module _ (H : Host) (S : Session) (obliging : IsObliging H.plugins) (can : CanReport H S) where
  statuses_of-ok :
      (d : DelegateNetConf) (rt : RuntimeConf) (result : Fields) (w : World)
      → (l : List Fields) × (statuses_of H S d rt result w ≡ (ok l, w))
  unfolding statuses_of
  statuses_of-ok d rt result w = elim (Bool-cases (reports_status H S)) [
    | inr h ↦ ([], rw h refl)
    | inl h ↦ elim can [
      | inl h' ↦ ([], rw h' refl)
      | inr r ↦
          let (l, e) = r.statuses result d.name d.master_plugin (device_info H S rt w.calls) in
          (l, rw (h, e) refl)
    ]
  ]

  change_gateways-none :
      (d : DelegateNetConf) (rt : RuntimeConf) (o : Option (List String × Bool)) (w : World)
      → IsPlain d
      → change_gateways H S d rt o w ≡ (ok tt, w)
  unfolding change_gateways delete_gateways add_gateways deletes_v4 deletes_v6 adds_gateway
  change_gateways-none d rt none w _ = refl
  change_gateways-none d rt (some (_, false)) w _ = refl
  change_gateways-none d rt (some (_, true)) w (_, _, gw, v4, v6) = rw (v4, v6, gw) refl

  attach_one-accepts :
      (idx : ℕ) (d : DelegateNetConf) (a : Attached) (w : World)
      → IsPlain d
      → (a' : Attached) × (w' : World) × (attach_one H S idx d a w ≡ (ok a', w'))
  unfolding attach_one add_plugin plugin_added gathered
  attach_one-accepts idx d a w plain =
      let (rt, path) = delegate_runtime H S idx d in
      let (result, calls, added) =
        delegate_add-accepts H.plugins obliging S.conf (copied H S d path w.calls) S.pod d rt
          plain.0 plain.1 in
      let w₁ = settled H S calls (record w { calls = copied H S d path w.calls }) in
      let (statuses, stated) = statuses_of-ok d rt result w₁ in
      (
        record { result = choose H S d result a.result; statuses = a.statuses ++ statuses },
        w₁,
        rw (added, change_gateways-none d rt (H.plugins.result_of result) w₁ plain, stated) refl,
      )

  pub attach_from-accepts :
      (idx : ℕ) (delegates : List DelegateNetConf) (a : Attached) (w : World)
      → All IsPlain delegates
      → (a' : Attached) × (w' : World) × (attach_from H S idx delegates a w ≡ (ok a', w'))
  unfolding attach_from
  attach_from-accepts idx [] a w _ = (a, w, refl)
  attach_from-accepts idx (d ∷ delegates) a w (plain, more) =
      let (a₁, w₁, one) = attach_one-accepts idx d a w plain in
      let (a₂, w₂, rest) = attach_from-accepts (idx + 1) delegates a₁ w₁ more in
      (a₂, w₂, rw one rest)
