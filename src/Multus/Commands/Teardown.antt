-- ===== src/Multus/Commands/Teardown.antt =====
-- What delPlugins calls, whatever the plugins answer.
use mathlib.Core.Path.{subst, ap₂}
use mathlib.Core.Option.{some-injective}
use multus_cni.Base.{
  ℕ, zero, suc, ◌+◌, ◌≤◌, String, ◌≡◌, ◌≢◌, refl, sym, ap, ◌∙◌, Option, none, some, List, [], ◌∷◌,
  ◌++◌, length, get_elem?, string_eq, arith, All,
}
use multus_cni.Base.Result.{ok, panic}
use multus_cni.Types.{DelegateNetConf, NetConf, RuntimeConfig, K8sArgs, CmdArgs}
use multus_cni.Conf.Runtime.{Environment}
use multus_cni.Multus.Plugins.Called.{delegate_del-called}
use multus_cni.Multus.Calls.{Action, Trace, Plugins}
use multus_cni.Multus.Plugins.{invocation}
use multus_cni.Multus.Commands.{
  runtime, cleaned, del_plugin, del_from, del_plugins, all_errors, error_texts,
}

-- The first delegates of a list.
abbrev pub take {ℓ} : {A : Type ℓ} → ℕ → List A → List A
take zero xs = []
take (suc n) [] = []
take (suc n) (x ∷ xs) = x ∷ take n xs

module _ {ℓ} {A : Type ℓ} where
  get_elem-less : (xs : List A) (n : ℕ) → suc n ≤ length xs → (x : A) × (get_elem? xs n ≡ some x)
  get_elem-less [] n h = absurd (omega (arith, h))
  get_elem-less (x ∷ xs) zero h = (x, refl)
  get_elem-less (x ∷ xs) (suc n) h = get_elem-less xs n (omega (arith, h))

All-get_elem {ℓ κ} :
    {A : Type ℓ} (P : A → Type κ) (xs : List A) (n : ℕ) {x : A}
    → All P xs
    → get_elem? xs n ≡ some x
    → P x
All-get_elem P [] n h e = cc
All-get_elem P (y ∷ xs) zero (p, _) e = subst P (some-injective _ _ e) p
All-get_elem P (y ∷ xs) (suc n) (_, h) e = All-get_elem P xs n h e

module _ (E : Environment) (P : Plugins) (args : CmdArgs) (k8s_args : K8sArgs) (conf : NetConf)
    (rc : Option RuntimeConfig) where
  -- The calls that tear down one delegate, in front of those before.
  abbrev pub torn : DelegateNetConf → ℕ → Trace → Trace
  torn d idx trace =
      let (rt, path) = runtime E args k8s_args rc d idx in
      cleaned path (invocation conf Action.del d rt ∷ trace)

  -- The calls that tear down a list of delegates from the last one to the first one.
  abbrev pub torn_all : List DelegateNetConf → ℕ → Trace → Trace
  torn_all [] idx trace = trace
  torn_all (d ∷ delegates) idx trace = torn d idx (torn_all delegates (idx + 1) trace)

  abbrev pub IsParsed : DelegateNetConf → Type 0
  IsParsed d = P.parse_error d.conf_list_plugin d.bytes ≡ none

  all_errors-returns : (texts : List String) → all_errors E P args k8s_args conf rc texts ≢ panic
  all_errors-returns [] h = cc
  all_errors-returns (s ∷ texts) h = cc

  del_plugin-torn :
      (trace : Trace) (d : DelegateNetConf) (idx : ℕ)
      → IsParsed d
      → (del_plugin E P args k8s_args conf rc trace d idx).1 ≡ torn d idx trace
  unfolding del_plugin
  del_plugin-torn trace d idx parsed =
      ap (λ t. cleaned (runtime E args k8s_args rc d idx).1 t)
        (delegate_del-called P conf trace d (runtime E args k8s_args rc d idx).0 parsed)

  torn_all-take :
      (delegates : List DelegateNetConf) (n idx : ℕ) {d : DelegateNetConf} (trace : Trace)
      → get_elem? delegates n ≡ some d
      → torn_all (take (suc n) delegates) idx trace
        ≡ torn_all (take n delegates) idx (torn d (idx + n) trace)
  torn_all-take [] n idx trace e = cc
  torn_all-take (x ∷ delegates) zero idx trace e =
      ap₂ (λ d i. torn d i trace) (some-injective _ _ e) (omega arith)
  torn_all-take (x ∷ delegates) (suc n) idx {d} trace e =
      ap (λ t. torn x idx t)
        (torn_all-take delegates n (idx + 1) trace e
          ∙ ap (λ i. torn_all (take n delegates) (idx + 1) (torn d i trace)) (omega arith))

  torn_all-last :
      (delegates : List DelegateNetConf) (n : ℕ) {d : DelegateNetConf} (trace : Trace)
      → get_elem? delegates n ≡ some d
      → torn_all (take n delegates) 0 (torn d n trace) ≡ torn_all (take (suc n) delegates) 0 trace
  torn_all-last delegates n {d} trace e =
      ap (λ i. torn_all (take n delegates) 0 (torn d i trace)) (omega arith)
      ∙ sym (torn_all-take delegates n 0 trace e)

  del_from-step :
      (delegates : List DelegateNetConf) (n : ℕ) (trace : Trace) (texts : List String)
      {d : DelegateNetConf}
      → get_elem? delegates n ≡ some d
      → del_from E P args k8s_args conf rc delegates (suc n) trace texts
        ≡ del_from E P args k8s_args conf rc delegates n
            (del_plugin E P args k8s_args conf rc trace d n).1
            (texts ++ error_texts (del_plugin E P args k8s_args conf rc trace d n).0)
  unfolding del_from
  del_from-step delegates n trace texts e = rw (e, del_from) refl

  del_from-torn :
      (delegates : List DelegateNetConf) (n : ℕ) (trace : Trace) (texts : List String)
      → All IsParsed delegates
      → n ≤ length delegates
      → (texts' : List String) × (del_from E P args k8s_args conf rc delegates n trace texts
          ≡ (ok texts', torn_all (take n delegates) 0 trace))
  unfolding del_from
  del_from-torn delegates zero trace texts parsed h = (texts, refl)
  del_from-torn delegates (suc n) trace texts parsed h =
      let (d, e) = get_elem-less delegates n h in
      let step = del_plugin E P args k8s_args conf rc trace d n in
      let (texts', rest) =
        del_from-torn delegates n step.1 (texts ++ error_texts step.0) parsed (omega (arith, h)) in
      (
        texts',
        del_from-step delegates n trace texts e
            ∙ (rest
                ∙ ap (λ t. (ok texts', t))
                    (ap (λ t. torn_all (take n delegates) 0 t)
                        (del_plugin-torn trace d n (All-get_elem IsParsed delegates n parsed e))
                      ∙ torn_all-last delegates n trace e)),
      )

  -- delPlugins deletes each of the first delegates of a list once, the last of them first, whatever
  -- the plugins answer, and returns: it does not panic. The number of delegates is at most that of
  -- the list, and libcni reads the configuration of each.
  pub del_plugins-torn_all :
      (delegates : List DelegateNetConf) (count : ℕ) (trace : Trace)
      → All IsParsed delegates
      → count ≤ length delegates
      → ((del_plugins E P args k8s_args conf rc trace delegates count).1
          ≡ torn_all (take count delegates) 0 trace)
        × ((del_plugins E P args k8s_args conf rc trace delegates count).0 ≢ panic)
  unfolding del_plugins
  del_plugins-torn_all delegates count trace parsed h =
      let (texts, e) = del_from-torn delegates count trace [] parsed h in
      (rw e refl, rw e (all_errors-returns texts))
