-- ===== src/Conf/Netconf/Laws.antt =====
-- What a loaded configuration guarantees to the commands.
use mathlib.Core.Path.{subst}
use multus_cni.Base.{
  sym, ◌∙◌, Option-cases, ◌≡◌, refl, ◌≢◌, ◌⊎◌, inl, inr, true, false, none, some, List, [], ◌∷◌,
  ◌++◌, All, arith, ◌==◌, string_eq, Bool-cases,
}
use multus_cni.Base.Result.{
  ok, or_err, Ensures, returns, fails, panics, Ensures-after, Ensures-bind, Ensures-context,
  Ensures-map, of_Ensures,
}
use multus_cni.Json.{Bytes, Fields, marshal, json, obj, written_fields}
use multus_cni.Types.{NetConf, DelegateNetConf}
use multus_cni.Conf.Delegate.Laws.{IsLoaded, load_delegate_net_conf-Ensures}
use multus_cni.Conf.Netconf.{
  ConfReader, default_net_conf, mark_master, isolate, load_raw_delegates, prev_result, check_given,
  set_delegates, finish_net_conf, load_net_conf,
}

-- The first delegate is the master plugin, and no other one is.
abbrev pub IsMastered : List DelegateNetConf → Type 0
IsMastered [] = ⊥
IsMastered (d ∷ ds) = (d.master_plugin ≡ true) × All (λ e. e.master_plugin ≡ false) ds

-- Either the configuration names a cluster network and has no delegate yet, or it names none and
-- its delegates begin with the master.
abbrev pub IsReady : NetConf → Type 0
IsReady conf =
    (conf.cluster_network ≢ "") × (conf.delegates ≡ [])
    ⊎ (conf.cluster_network ≡ "") × IsMastered conf.delegates

module _ (R : ConfReader) where
  load_raw_delegates-IsLoaded :
      (raws : List Fields) → Ensures (All IsLoaded) (load_raw_delegates R raws)
  unfolding load_raw_delegates marshal
  load_raw_delegates-IsLoaded [] = returns tt
  load_raw_delegates-IsLoaded (raw ∷ raws) =
      Ensures-bind
        (Ensures-context _
          (load_delegate_net_conf-Ensures R.decoders (json (obj (written_fields raw))) "" "" none))
        λ d l. Ensures-bind (load_raw_delegates-IsLoaded raws) λ ds ls. returns (l, ls)

  not_masters :
      (ds : List DelegateNetConf) → All IsLoaded ds → All (λ e. e.master_plugin ≡ false) ds
  not_masters [] _ = tt
  not_masters (d ∷ ds) (l, ls) = (l.not_master, not_masters ds ls)

  mark_master-IsMastered :
      (ds : List DelegateNetConf) → All IsLoaded ds → Ensures IsMastered (mark_master ds)
  unfolding mark_master
  mark_master-IsMastered [] _ = panics
  mark_master-IsMastered (d ∷ ds) (l, ls) = returns (refl, not_masters ds ls)

  set_delegates-IsMastered :
      (conf : NetConf)
      → conf.delegates ≡ []
      → Ensures
          (λ c. (c.cluster_network ≡ conf.cluster_network) × IsMastered c.delegates)
          (set_delegates R conf)
  unfolding set_delegates
  set_delegates-IsMastered conf e =
      Ensures-bind (load_raw_delegates-IsLoaded conf.raw_delegates) λ ds ls.
        Ensures-bind
          (subst (λ l. Ensures IsMastered (mark_master (l ++ ds))) (sym e)
            (mark_master-IsMastered ds ls))
          λ marked m. returns (refl, m)

  finish_net_conf-IsReady :
      (conf : NetConf) → conf.delegates ≡ [] → Ensures IsReady (finish_net_conf R conf)
  unfolding finish_net_conf
  finish_net_conf-IsReady conf e = elim (Bool-cases (conf.cluster_network == "")) [
    | inl named ↦
        rw named
          (Ensures-map (λ c (same, m). inr (ground arith, m)) (set_delegates-IsMastered conf e))
    | inr other ↦ rw other (returns (inl (ground arith, e)))
  ]

  isolate-delegates : (conf : NetConf) → (isolate conf).delegates ≡ conf.delegates
  unfolding isolate
  isolate-delegates conf = ground arith

  fill-Ensures :
      (bytes : Bytes)
      → ((conf : NetConf) → R.fill default_net_conf bytes ≡ some conf → conf.delegates ≡ [])
      → Ensures
          (λ c. c.delegates ≡ [])
          (or_err "LoadNetConf: failed to load netconf" (R.fill default_net_conf bytes))
  fill-Ensures bytes skips = elim (Option-cases (R.fill default_net_conf bytes)) [
    | inl e ↦ rw e fails
    | inr (conf, e) ↦ rw e (returns (skips conf e))
  ]

  -- A configuration that loads is ready for the commands, where the JSON decoder leaves the field of
  -- the delegates alone, which its tag excludes: it names a cluster network and has no delegate yet,
  -- or it names none, and its first delegate is the master and no other one is.
  pub load_net_conf-IsReady :
      (bytes : Bytes)
      → ((conf : NetConf) → R.fill default_net_conf bytes ≡ some conf → conf.delegates ≡ [])
      → {conf : NetConf} → load_net_conf R bytes ≡ ok conf
      → IsReady conf
  unfolding load_net_conf
  load_net_conf-IsReady bytes skips h =
      of_Ensures
        (Ensures-bind (fill-Ensures bytes skips) λ c e.
          Ensures-after (prev_result R c.cni_version c.raw_prev_result) λ _.
            Ensures-after (check_given R c) λ _.
              finish_net_conf-IsReady (isolate (record c { raw_prev_result = none }))
                (isolate-delegates (record c { raw_prev_result = none }) ∙ e))
        h
