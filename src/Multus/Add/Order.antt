-- ===== src/Multus/Add/Order.antt =====
-- CmdAdd asks the plugins of each delegate once.
use multus_cni.Base.{◌≡◌, refl, ◌∙◌, ap, Bool-cases, inl, inr, Option, none, some, []}
use multus_cni.Base.Outcome.{Yields, gives, errs, unwinds, Yields-next, Yields-map, next, of_Yields}
use multus_cni.Base.Result.{Result, ok, err, panic}
use multus_cni.Json.{Fields}
use multus_cni.Types.{CmdArgs}
use multus_cni.K8sclient.Client.{Client}
use multus_cni.K8sclient.Status.{Annotated}
use multus_cni.Multus.Add.{prepare, blame, annotated, publish, attach_all, cmd_add}
use multus_cni.Multus.Attach.{Attached, Session, reports_status, attach_from}
use multus_cni.Multus.Attach.Order.{interfaces, all_added, attach_from-Grows, files-IsQuiet}
use multus_cni.Multus.Host.{Host}
use multus_cni.Multus.World.{World, ◌>>=◌}
use multus_cni.Multus.Scratch.{save_delegates}

-- The plugins were asked to add the delegates of the session, each once and in their order.
abbrev pub IsComplete : Session → World → World → Type 0
IsComplete S w w' = interfaces w'.calls ≡ all_added S 0 S.conf.delegates (interfaces w.calls)

abbrev nothing : Attached
nothing = record { result = none; statuses = [] }

module _ (H : Host) (S : Session) where
  annotated-interfaces :
      (a : Attached) (w : World) (r : Annotated)
      → Yields (λ _ w'. interfaces w'.calls ≡ interfaces w.calls) (annotated H S a w r)
  unfolding annotated
  annotated-interfaces a w (ok none) = gives refl
  annotated-interfaces a w (ok (some _)) = gives refl
  annotated-interfaces a w (err e) = errs
  annotated-interfaces a w panic = unwinds

  publish-interfaces :
      (a : Attached) (w : World)
      → Yields (λ _ w'. interfaces w'.calls ≡ interfaces w.calls) (publish H S a w)
  unfolding publish
  publish-interfaces a w = elim (Bool-cases (reports_status H S)) [
    | inl h ↦ rw h (annotated-interfaces a w _)
    | inr h ↦ rw h (gives refl)
  ]

  pub attach_all-IsComplete : (w : World) → Yields (λ _ w'. IsComplete S w w') (attach_all H S w)
  unfolding attach_all
  attach_all-IsComplete w =
      Yields-next {f = λ _. attach_from H S 0 S.conf.delegates nothing >>= publish H S}
        (files-IsQuiet (blame (some S.k8s_args) "error saving the delegates: ")
          (save_delegates H.codec S.args.container_id S.conf.cni_dir S.conf.delegates) w)
        λ _ w₁ quiet.
          Yields-next {f = publish H S} (attach_from-Grows H S 0 S.conf.delegates nothing w₁)
            λ a w₂ e.
              Yields-map
                (λ _ _ e'. e' ∙ (e ∙ ap (λ t. all_added S 0 S.conf.delegates (interfaces t)) quiet))
                (publish-interfaces a w₂)

module _ (H : Host) (args : CmdArgs) (client : Option Client) (w : World) where
  session-IsComplete :
      (x : Result Session)
      → prepare H args client ≡ x
      → Yields
          (λ _ w'. (S : Session) × (prepare H args client ≡ ok S) × IsComplete S w w')
          (next (attach_all H) (x, w))
  session-IsComplete (ok S) e = Yields-map (λ _ _ done. (S, e, done)) (attach_all-IsComplete H S w)
  session-IsComplete (err e) _ = errs
  session-IsComplete panic _ = unwinds

  -- CmdAdd that succeeds has prepared a session and has asked the plugins of each of its delegates once,
  -- in their order, to add it: with the configuration of the delegate, in the directories of the session,
  -- for the container and its network namespace and under the interface name of its place. It has asked
  -- for no deletion.
  pub cmd_add-all_added :
      (result : Option Fields) (w' : World)
      → cmd_add H args client w ≡ (ok result, w')
      → (S : Session) × (prepare H args client ≡ ok S) × IsComplete S w w'
  unfolding cmd_add
  cmd_add-all_added result w' h = of_Yields (session-IsComplete (prepare H args client) refl) h
