-- ===== src/Multus/Del/Cached.antt =====
-- CmdDel deletes the delegates that the file of CmdAdd holds.
use multus_cni.Base.{◌≡◌, ◌≢◌, refl, ◌∙◌, ap, Option, some, List, [], ◌∷◌, length, All, arith}
use multus_cni.Base.Result.{ok, panic}
use multus_cni.Types.{DelegateNetConf, NetConf, K8sArgs, CmdArgs}
use multus_cni.K8sclient.Client.{Pod, Client}
use multus_cni.Multus.Commands.Teardown.{take, torn_all, IsParsed, del_plugins-torn_all}
use multus_cni.Multus.Del.{target, chosen, find_target, delete_target, cleaned_up, with_versions}
use multus_cni.Multus.Host.{Host}
use multus_cni.Multus.Scratch.{consume_scratch_net_conf, cached_delegates}
use multus_cni.Multus.World.{World, ◌>>=◌}

take-length {ℓ} : {A : Type ℓ} (xs : List A) → take (length xs) xs ≡ xs
take-length [] = refl
take-length (x ∷ xs) = ap (λ l. x ∷ l) (take-length xs)

-- The configuration with the delegates of the file.
abbrev pub cached_conf : Host → NetConf → List DelegateNetConf → NetConf
cached_conf H conf delegates = with_versions H (record conf { delegates = delegates })

module _ (H : Host) (args : CmdArgs) (k8s_args : K8sArgs) where
  -- Whatever the configuration names, and whatever the plugins answer, CmdDel deletes each delegate
  -- of the file once, the last one first, and does not panic. The file can be read and decoded, and
  -- libcni reads the configuration of each delegate.
  pub find_target-torn_all :
      (conf : NetConf) (client : Option Client) (pod : Option Pod)
      (delegates : List DelegateNetConf) (w : World)
      → cached_delegates H.codec
          (consume_scratch_net_conf H.codec args.container_id conf.cni_dir w.os).0
        ≡ ok (some delegates)
      → All
          (IsParsed H.environment H.plugins args k8s_args
            (cached_conf H conf delegates)
            conf.runtime_config)
          (cached_conf H conf delegates).delegates
      → (((find_target H args k8s_args conf client pod >>= delete_target H args k8s_args) w).1.calls
          ≡ torn_all H.environment H.plugins args k8s_args
              (cached_conf H conf delegates)
              conf.runtime_config
              (cached_conf H conf delegates).delegates
              0
              w.calls)
        × (((find_target H args k8s_args conf client pod >>= delete_target H args k8s_args) w).0
            ≢ panic)
  unfolding find_target delete_target target chosen cleaned_up with_versions
  find_target-torn_all conf client pod delegates w file parsed =
      let conf' = cached_conf H conf delegates in
      let (e, returns) =
        del_plugins-torn_all H.environment H.plugins args k8s_args conf' conf.runtime_config
          conf'.delegates (length conf'.delegates) w.calls parsed (omega arith) in
      (
        rw file (
            e
            ∙ ap
                (λ l.
                  torn_all H.environment H.plugins args k8s_args conf' conf.runtime_config l 0
                    w.calls)
                (take-length conf'.delegates)),
        rw file returns,
      )
