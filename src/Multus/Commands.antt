-- ===== src/Multus/Commands.antt =====
-- getIfname, delPlugins and CmdCheck: the loops over the delegates of a container.
pub mod Teardown
pub mod Interfaces
use multus_cni.Base.{
  ℕ, zero, suc, ◌+◌, ◌/◌, ◌%◌, String, ◌<>◌, Bool, Option, none, some, List, [], ◌∷◌, ◌++◌, ltb,
  length, get_elem?, ◌==◌, ◌!=◌, string_eq, if◌then◌else◌,
}
use multus_cni.Base.Result.{Result, ok, err, panic, Error, errorf, context, ◌>>=◌}
use multus_cni.Types.{DelegateNetConf, NetConf, RuntimeConfig, RuntimeConf, K8sArgs, CmdArgs}
use multus_cni.Conf.Netconf.{ConfReader, load_net_conf}
use multus_cni.Conf.Runtime.{Environment, create_cni_runtime_conf}
use multus_cni.Multus.Calls.{clean, Trace, Plugins}
use multus_cni.Multus.Plugins.{delegate_check, delegate_del}

abbrev digit_of : Option String → String
digit_of none = ""
digit_of (some s) = s

abbrev digit : ℕ → String
digit n = digit_of (get_elem? ("0" ∷ "1" ∷ "2" ∷ "3" ∷ "4" ∷ "5" ∷ "6" ∷ "7" ∷ "8" ∷ "9" ∷ []) n)

-- The decimal digits of a number; fuel above the number is enough.
unfoldable pub digits : ℕ → ℕ → String
digits zero n = ""
digits (suc fuel) n =
    let front = digits fuel (n / 10) in if ltb n 10 then digit n else front <> digit (n % 10)

unfoldable pub get_ifname : DelegateNetConf → String → ℕ → String
unfolding digits
get_ifname d argif idx =
    if d.ifname_request != ""
    then d.ifname_request
    else if d.master_plugin
    then argif
    else "net" <> digits (idx + 1) idx

abbrev pub joined_errors : List String → String
joined_errors [] = ""
joined_errors (s ∷ []) = s
joined_errors (s ∷ t ∷ more) = s <> " / " <> joined_errors (t ∷ more)

abbrev pub error_texts : Option Error → List String
error_texts none = []
error_texts (some e) = e.text ∷ []

-- The file of device information is removed where there is a name for it; an error of that is ignored.
abbrev pub cleaned : String → Trace → Trace
cleaned path trace = if path != "" then clean path ∷ trace else trace

-- The runtime configuration of the delegate at an index, and its file of device information.
unfoldable pub runtime :
    Environment
    → CmdArgs
    → K8sArgs
    → Option RuntimeConfig
    → DelegateNetConf
    → ℕ
    → RuntimeConf × String
unfolding get_ifname
runtime E args k8s_args rc d idx =
    create_cni_runtime_conf E args k8s_args (get_ifname d args.if_name idx) rc d

module _ (E : Environment) (P : Plugins) (args : CmdArgs) (k8s_args : K8sArgs) (conf : NetConf)
    (rc : Option RuntimeConfig) where
  unfoldable pub del_plugin : Trace → DelegateNetConf → ℕ → Option Error × Trace
  del_plugin trace d idx =
      let (e, trace') = delegate_del P conf trace d (runtime E args k8s_args rc d idx).0 in
      (e, cleaned (runtime E args k8s_args rc d idx).1 trace')

  -- The loop from `count - 1` down to 0. An index behind the last delegate panics.
  unfoldable pub del_from :
      List DelegateNetConf → ℕ → Trace → List String → Result (List String) × Trace
  unfolding del_plugin
  del_from delegates zero trace texts = (ok texts, trace)
  del_from delegates (suc idx) trace texts = elim (get_elem? delegates idx) [
    | none ↦ (panic, trace)
    | some d ↦
        del_from delegates idx (del_plugin trace d idx).1
          (texts ++ error_texts (del_plugin trace d idx).0)
  ]

  -- The joined texts are used as a format, and are taken to hold no "%".
  abbrev all_errors : List String → Result (Unit {0})
  all_errors [] = ok tt
  all_errors (s ∷ more) = err (errorf (joined_errors (s ∷ more)))

  -- delPlugins, where `count` is `lastIdx + 1`.
  unfoldable pub del_plugins : Trace → List DelegateNetConf → ℕ → Result (Unit {0}) × Trace
  unfolding del_from
  del_plugins trace delegates count =
      let (texts, trace') = del_from delegates count trace [] in (texts >>= all_errors, trace')

  -- The loop of CmdCheck, which stops at the first error.
  unfoldable pub check_from : Trace → ℕ → List DelegateNetConf → Result (Unit {0}) × Trace
  check_from trace idx [] = (ok tt, trace)
  check_from trace idx (d ∷ delegates) =
      let (e, trace') = delegate_check P conf trace d (runtime E args k8s_args rc d idx).0 in
      elim e [ some failure ↦ (err failure, trace') | none ↦ check_from trace' (idx + 1) delegates ]

module _ (E : Environment) (P : Plugins) (R : ConfReader)
    (load_args : String → Result K8sArgs) where
  check_loaded : Trace → CmdArgs → NetConf → Result K8sArgs → Result (Unit {0}) × Trace
  unfolding check_from
  check_loaded trace args conf (ok k8s_args) =
      check_from E P args k8s_args conf conf.runtime_config trace 0 conf.delegates
  check_loaded trace args conf (err e) = (err e, trace)
  check_loaded trace args conf panic = (panic, trace)

  check_read : Trace → CmdArgs → Result NetConf → Result (Unit {0}) × Trace
  unfolding check_loaded
  check_read trace args (ok conf) =
      check_loaded trace args conf
        (context "Multus: error getting k8s args: " (load_args args.args))
  check_read trace args (err e) = (err e, trace)
  check_read trace args panic = (panic, trace)

  unfoldable pub cmd_check : Trace → CmdArgs → Result (Unit {0}) × Trace
  unfolding check_read
  cmd_check trace args = check_read trace args (load_net_conf R args.stdin_data)
