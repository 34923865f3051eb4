-- ===== src/Multus/Add/Accepted.antt =====
-- CmdAdd where nothing is refused.
use multus_cni.Base.{Bool-cases, Option-cases, inl, inr, ◌∷◌, ◌≡◌, refl, Option, none, All, []}
use multus_cni.Base.Outcome.{of_Yields}
use multus_cni.Base.Result.{ok}
use multus_cni.Json.{Fields}
use multus_cni.Types.{CmdArgs}
use multus_cni.K8sclient.Client.{Client}
use multus_cni.Multus.Calls.{annotate}
use multus_cni.K8sclient.Status.Written.{set_network_status-ok}
use multus_cni.Multus.Add.{annotated, prepare, publish, attach_all, cmd_add}
use multus_cni.Multus.Add.Order.{IsComplete, attach_all-IsComplete}
use multus_cni.Multus.Attach.{Attached, Session, reports_status}
use multus_cni.Multus.Attach.Accepted.{CanReport, IsPlain, attach_from-accepts}
use multus_cni.Multus.Host.{Host}
use multus_cni.Multus.Plugins.Accepted.{IsObliging}
use multus_cni.Multus.Scratch.{save_delegates}
use multus_cni.Multus.World.{World}

module _ (H : Host) (S : Session) (obliging : IsObliging H.plugins) (can : CanReport H S)
    (plain : All IsPlain S.conf.delegates) where
  publish-ok : (a : Attached) (w : World) → (w' : World) × (publish H S a w ≡ (ok a.result, w'))
  unfolding publish
  publish-ok a w = elim (Bool-cases (reports_status H S)) [
    | inr h ↦ (w, rw h refl)
    | inl h ↦ elim can [
      | inl h' ↦ (w, rw h' refl)
      | inr r ↦
          let (o, e) =
            set_network_status-ok H.codec.quote H.factory r.client S.k8s_args r.known a.statuses
              S.conf in
          elim (Option-cases o) [
            | inl none_sent ↦ (w, rw (h, r.given, e, none_sent, annotated) refl)
            | inr (pod, sent) ↦ (
              record w { calls = annotate pod a.statuses ∷ w.calls },
              rw (h, r.given, e, sent, annotated) refl,
            )
          ]
    ]
  ]

  attach_all-accepts :
      (w : World)
      → (save_delegates H.codec S.args.container_id S.conf.cni_dir S.conf.delegates w.os).0 ≡ ok tt
      → (result : Option Fields) × (w' : World) × (attach_all H S w ≡ (ok result, w'))
  unfolding attach_all
  attach_all-accepts w saved =
      let os =
        (save_delegates H.codec S.args.container_id S.conf.cni_dir S.conf.delegates w.os).1 in
      let (a, w', attached) =
        attach_from-accepts H S obliging can 0 S.conf.delegates
          (record { result = none; statuses = [] }) (record w { os = os }) plain in
      let (w₂, published) = publish-ok a w' in (a.result, w₂, rw (saved, attached) published)

pub cmd_add-succeeds :
    (H : Host) (args : CmdArgs) (client : Option Client) (w : World) (S : Session)
    → IsObliging H.plugins
    → prepare H args client ≡ ok S
    → (save_delegates H.codec S.args.container_id S.conf.cni_dir S.conf.delegates w.os).0 ≡ ok tt
    → CanReport H S
    → All IsPlain S.conf.delegates
    → (result : Option Fields) × (w' : World) × (cmd_add H args client w ≡ (ok result, w'))
      × IsComplete S w w'
unfolding cmd_add
cmd_add-succeeds H args client w S obliging prepared saved can plain =
    let (result, w', attached) = attach_all-accepts H S obliging can plain w saved in
    (result, w', rw prepared attached, of_Yields (attach_all-IsComplete H S w) attached)
