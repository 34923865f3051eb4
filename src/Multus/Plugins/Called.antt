-- ===== src/Multus/Plugins/Called.antt =====
-- Which operation of libcni is called for a delegate.
use multus_cni.Base.Outcome.{Yields, gives, errs, unwinds}
use multus_cni.Json.{Fields}
use multus_cni.K8sclient.Client.{Pod}
use multus_cni.Base.{
  List, ◌≡◌, refl, ap, ◌∙◌, String, inl, inr, Bool-cases, ◌==◌, string_eq, Option, none, some, ◌∷◌,
}
use multus_cni.Base.Result.{
  Result, Error, Ensures, returns, fails, panics, Ensures-bind, Ensures-map, Ensures-after,
}
use multus_cni.Types.{DelegateNetConf, NetConf, RuntimeConf}
use multus_cni.Multus.Calls.{place, add, Call, Reply, done, refused, Action, Trace, Plugins}
use multus_cni.Multus.Plugins.{
  invocation, run_replied, run_parsed, conf_run, conf_add, add_replied, add_parsed, add_linked,
  request_args, mac_args, ip_args, all_addresses, announce, add_with, add_checked, delegate_add,
  invoked, delegate_del,
}

module _ (P : Plugins) (conf : NetConf) where
  run_replied-called :
      (action : Action) (trace : Trace) (d : DelegateNetConf) (rt : RuntimeConf) (o : Option Error)
      → (run_replied P conf action trace d rt o).1 ≡ invocation conf action d rt ∷ trace
  unfolding run_replied
  run_replied-called action trace d rt none = refl
  run_replied-called action trace d rt (some e) = refl

  -- Where libcni reads the configuration, its operation is called.
  pub conf_run-called :
      (action : Action) (trace : Trace) (d : DelegateNetConf) (rt : RuntimeConf)
      → P.parse_error d.conf_list_plugin d.bytes ≡ none
      → (conf_run P conf action trace d rt).1 ≡ invocation conf action d rt ∷ trace
  unfolding conf_run run_parsed
  conf_run-called action trace d rt parsed = rw parsed (run_replied-called action trace d rt _)

  invoked-trace :
      (action : Action) (d : DelegateNetConf) (x : Option Error × Trace)
      → (invoked P conf action d x).1 ≡ x.1
  invoked-trace action d (none, trace) = refl
  invoked-trace action d (some e, trace) = refl

  pub delegate_del-called :
      (trace : Trace) (d : DelegateNetConf) (rt : RuntimeConf)
      → P.parse_error d.conf_list_plugin d.bytes ≡ none
      → (delegate_del P conf trace d rt).1 ≡ invocation conf Action.del d rt ∷ trace
  unfolding delegate_del
  delegate_del-called trace d rt parsed =
      invoked-trace Action.del d (conf_run P conf Action.del trace d rt)
      ∙ conf_run-called Action.del trace d rt parsed

  -- An addition that succeeds has called the plugin, and then at most sent an event.
  abbrev pub Added : Trace → Option Pod → DelegateNetConf → RuntimeConf → Fields → Trace → Type 0
  Added calls pod d rt result calls' =
      (rt' : RuntimeConf) × (place rt' ≡ place rt)
      × (calls'
          ≡ announce P conf pod d rt' (invocation conf add d rt' ∷ calls) (P.result_of result))

  mac_args-place :
      (mac : String) (rt : RuntimeConf)
      → Ensures (λ rt'. place rt' ≡ place rt) (mac_args P conf mac rt)
  unfolding mac_args
  mac_args-place mac rt = elim (Bool-cases (mac == "")) [
    | inl h ↦ rw h (returns refl)
    | inr h ↦ rw h (elim (Bool-cases (P.parsers.is_mac mac)) [
      | inl v ↦ rw v (returns refl)
      | inr v ↦ rw v fails
    ])
  ]

  ip_args-place :
      (o : Option (List String)) (rt : RuntimeConf)
      → Ensures (λ rt'. place rt' ≡ place rt) (ip_args P conf o rt)
  unfolding ip_args
  ip_args-place none rt = returns refl
  ip_args-place (some ips) rt = Ensures-after (all_addresses P conf ips) λ _. returns refl

  request_args-place :
      (d : DelegateNetConf) (rt : RuntimeConf)
      → Ensures (λ rt'. place rt' ≡ place rt) (request_args P conf d rt)
  unfolding request_args
  request_args-place d rt =
      Ensures-bind (mac_args-place d.mac_request rt)
        λ rt' e. Ensures-map (λ rt'' e'. e' ∙ e) (ip_args-place d.ip_request rt')

  add_replied-called :
      (calls : Trace) (call : Call) (r : Reply)
      → Yields (λ result t. t ≡ call ∷ calls) (add_replied P conf calls call r)
  unfolding add_replied
  add_replied-called calls call (done result) = gives refl
  add_replied-called calls call (refused e) = errs

  add_parsed-called :
      (calls : Trace) (d : DelegateNetConf) (rt : RuntimeConf) (o : Option Error)
      → Yields (λ result t. t ≡ invocation conf add d rt ∷ calls) (add_parsed P conf calls d rt o)
  unfolding add_parsed
  add_parsed-called calls d rt (some e) = errs
  add_parsed-called calls d rt none = add_replied-called calls (invocation conf add d rt) _

  add_with-called :
      (calls : Trace) (pod : Option Pod) (d : DelegateNetConf) (rt rt' : RuntimeConf)
      → place rt' ≡ place rt
      → {x : Result Fields × Trace} → Yields (λ result t. t ≡ invocation conf add d rt' ∷ calls) x
      → Yields (λ result t. Added calls pod d rt result t) (add_with P conf pod d rt' x)
  unfolding add_with
  add_with-called calls pod d rt rt' e (gives {a = result} h) =
      gives (rt', e, ap (λ t. announce P conf pod d rt' t (P.result_of result)) h)
  add_with-called calls pod d rt rt' e errs = errs
  add_with-called calls pod d rt rt' e unwinds = unwinds

  add_checked-called :
      (calls : Trace) (pod : Option Pod) (d : DelegateNetConf) (rt : RuntimeConf)
      {x : Result RuntimeConf}
      → Ensures (λ rt'. place rt' ≡ place rt) x
      → Yields (λ result t. Added calls pod d rt result t) (add_checked P conf calls pod d x)
  unfolding add_checked conf_add
  add_checked-called calls pod d rt (returns {a = rt'} e) =
      add_with-called calls pod d rt rt' e (add_parsed-called calls d rt' _)
  add_checked-called calls pod d rt fails = errs
  add_checked-called calls pod d rt panics = unwinds

  add_linked-called :
      (calls : Trace) (pod : Option Pod) (d : DelegateNetConf) (rt : RuntimeConf) (o : Option Error)
      → Yields (λ result t. Added calls pod d rt result t) (add_linked P conf calls pod d rt o)
  unfolding add_linked
  add_linked-called calls pod d rt (some e) = errs
  add_linked-called calls pod d rt none =
      add_checked-called calls pod d rt (request_args-place d rt)

  pub delegate_add-Added :
      (calls : Trace) (pod : Option Pod) (d : DelegateNetConf) (rt : RuntimeConf)
      → Yields (λ result t. Added calls pod d rt result t) (delegate_add P conf calls pod d rt)
  unfolding delegate_add
  delegate_add-Added calls pod d rt = add_linked-called calls pod d rt _
