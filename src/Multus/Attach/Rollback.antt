-- ===== src/Multus/Attach/Rollback.antt =====
-- What an addition that a plugin refuses leaves behind.
use multus_cni.Base.{ℕ, ◌+◌, ◌≤◌, ◌<>◌, ◌≡◌, ◌≢◌, refl, ap, List, ◌∷◌, length, All}
use multus_cni.Base.Result.{Result, ok, err, panic, Error}
use multus_cni.Types.{DelegateNetConf}
use multus_cni.Multus.Calls.{Trace}
use multus_cni.Multus.Commands.Teardown.{take, IsParsed, torn_all, del_plugins-torn_all}
use multus_cni.Multus.Host.{Host}
use multus_cni.Multus.Plugins.{delegate_add}
use multus_cni.Multus.World.{World}
use multus_cni.Multus.Attach.{
  Attached, Session, net_name, plugin_err, delegate_runtime, copied, settled, torn_down,
  plugin_added, add_plugin, attach_one, attach_from,
}

module _ (H : Host) (S : Session) where
  open S use {args, k8s_args, conf, pod}

  -- libcni reads the configuration of every delegate.
  abbrev pub AllParsed : Type 0
  AllParsed =
      All (IsParsed H.environment H.plugins args k8s_args conf conf.runtime_config) conf.delegates

  -- The calls behind the teardown of the first delegates.
  abbrev pub torn_first : ℕ → Trace → Trace
  torn_first count calls =
      torn_all H.environment H.plugins args k8s_args conf conf.runtime_config
        (take count conf.delegates) 0 calls

  abbrev pub refusal : DelegateNetConf → Error → Error
  refusal d e = plugin_err k8s_args (net_name d) (H.plugins.quote (net_name d) <> ": " <> e.text)

  torn_down-settled :
      (e : Error) (w : World) (x : Result (Unit {0}) × Trace) {calls : Trace}
      → x.1 ≡ calls
      → x.0 ≢ panic
      → torn_down H S e w x ≡ (err e, settled H S calls w)
  unfolding torn_down
  torn_down-settled e w (ok _, t) h n = ap (λ c. (err e, settled H S c w)) h
  torn_down-settled e w (err _, t) h n = ap (λ c. (err e, settled H S c w)) h
  torn_down-settled e w (panic, t) h n = absurd (n refl)

  module _ (parsed : AllParsed) (idx : ℕ) (within : idx + 1 ≤ length conf.delegates)
      (d : DelegateNetConf) where
    add_plugin-refused :
        (w : World) {e : Error} {calls : Trace}
        → delegate_add H.plugins conf w.calls pod d (delegate_runtime H S idx d).0 ≡ (err e, calls)
        → add_plugin H S idx d w ≡ (err (refusal d e), settled H S (torn_first (idx + 1) calls) w)
    unfolding add_plugin plugin_added
    add_plugin-refused w {e} {calls} refused =
        let (torn, returns) =
          del_plugins-torn_all H.environment H.plugins args k8s_args conf conf.runtime_config
            conf.delegates (idx + 1) calls parsed within in
        rw refused (torn_down-settled (refusal d e) w _ torn returns)

    -- Where a plugin refuses a delegate, the loop ends with the error of that plugin, and this
    -- delegate and all the ones before it are torn down, the last one first. The delegate is one of
    -- the configuration, and libcni reads the configuration of each.
    pub attach_from-refused :
        (w : World) (rest : List DelegateNetConf) (a : Attached) {e : Error} {calls : Trace}
        → delegate_add H.plugins conf
            (copied H S d (delegate_runtime H S idx d).1 w.calls)
            pod
            d
            (delegate_runtime H S idx d).0
          ≡ (err e, calls)
        → attach_from H S idx (d ∷ rest) a w
          ≡ (err (refusal d e), settled H S (torn_first (idx + 1) calls) w)
    unfolding attach_from attach_one
    attach_from-refused w rest a refused =
        rw
          (add_plugin-refused
            (record w { calls = copied H S d (delegate_runtime H S idx d).1 w.calls }) refused)
          refl
