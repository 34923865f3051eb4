-- ===== src/Multus/Attach/Order.antt =====
-- The order in which the loop adds the delegates.
use mathlib.Core.Path.{ap₂}
use multus_cni.Conf.Runtime.{create_cni_runtime_conf}
use multus_cni.Base.{
  ℕ, ◌+◌, String, ◌≡◌, refl, ap, ◌∙◌, Bool, true, false, Option, none, some, List, [], ◌∷◌, ◌&&◌,
  ◌!=◌, string_eq, if◌then◌else◌, Bool-cases, inl, inr,
}
use multus_cni.Base.Outcome.{Yields, gives, errs, unwinds, Yields-next, Yields-map, Outcome}
use multus_cni.Base.Result.{Result, ok, err, panic, Error}
use multus_cni.Json.{Fields, Bytes}
use multus_cni.Os.{Os}
use multus_cni.Types.{DelegateNetConf, RuntimeConf}
use multus_cni.K8sclient.Client.{Pod}
use multus_cni.Netutils.Routes.{Route, Edited}
use multus_cni.Multus.Calls.{place, Action, add, invoke, event, copy, clean, annotate, Trace}
use multus_cni.Multus.Commands.{get_ifname, runtime}
use multus_cni.Multus.Host.{Host}
use multus_cni.Multus.Plugins.{announce}
use multus_cni.Multus.Plugins.Called.{Added, delegate_add-Added}
use multus_cni.Multus.World.{
  World, Act, restated, rephrase, on_files, edit_routes, of_error, give, ◌>>◌, ◌>>=◌,
}
use multus_cni.Multus.Attach.{
  Attached, Session, delegate_runtime, copied, torn_down, plugin_added, add_plugin, delete_gateways,
  add_gateways, change_gateways, statuses_of, reports_status, gathered, attach_one, attach_from,
}

-- An operation that the plugins of a delegate were asked for: the configuration and whether it is a list,
-- the directories, and the place.
pub record Ask : Type 0 where
  pub action : Action
  pub is_list : Bool
  pub bytes : Bytes
  pub bin_dir : String
  pub cni_dir : String
  pub place : String × String × String

-- What the plugins were asked for, the latest one first.
abbrev pub interfaces : Trace → List Ask
interfaces [] = []
interfaces (invoke action is_list rt bytes bin_dir cni_dir ∷ calls) =
    record {
      action = action;
      is_list = is_list;
      bytes = bytes;
      bin_dir = bin_dir;
      cni_dir = cni_dir;
      place = place rt;
    }
    ∷ interfaces calls
interfaces (event _ _ _ _ ∷ calls) = interfaces calls
interfaces (copy _ _ _ ∷ calls) = interfaces calls
interfaces (clean _ ∷ calls) = interfaces calls
interfaces (annotate _ _ ∷ calls) = interfaces calls

-- The addition of a delegate with its configuration, for the container of the session and under the
-- name of its place.
abbrev pub wanted : Session → ℕ → DelegateNetConf → Ask
wanted S idx d = record {
  action = add;
  is_list = d.conf_list_plugin;
  bytes = d.bytes;
  bin_dir = S.conf.bin_dir;
  cni_dir = S.conf.cni_dir;
  place = (S.args.container_id, S.args.netns, get_ifname d S.args.if_name idx);
}

-- The delegates from an index on, added one after the other.
abbrev pub all_added : Session → ℕ → List DelegateNetConf → List Ask → List Ask
all_added S idx [] before = before
all_added S idx (d ∷ delegates) before = all_added S (idx + 1) delegates (wanted S idx d ∷ before)

-- The calls of a run are those of the state that it started from.
abbrev Quiet {ℓ} : {A : Type ℓ} → World → Outcome World A → Type ℓ
Quiet w = Yields (λ _ w'. w'.calls ≡ w.calls)

abbrev IsQuiet {ℓ} : {A : Type ℓ} → Act A → Type ℓ
IsQuiet act = (w : World) → Quiet w (act w)

module _ {ℓ} {A : Type ℓ} where
  Quiet-rephrase :
      (w : World) (f : String → Error) {x : Outcome World A}
      → Quiet w x
      → Quiet w (restated f x.0, x.1)
  Quiet-rephrase w f (gives e) = gives e
  Quiet-rephrase w f errs = errs
  Quiet-rephrase w f unwinds = unwinds

  Quiet-result : (w w' : World) (r : Result A) → w'.calls ≡ w.calls → Quiet w (r, w')
  Quiet-result w w' (ok a) e = gives e
  Quiet-result w w' (err f) e = errs
  Quiet-result w w' panic e = unwinds

if-IsQuiet : (act : Act (Unit {0})) (b : Bool) → IsQuiet act → IsQuiet (if b then act else give tt)
if-IsQuiet act true q w = q w
if-IsQuiet act false q w = gives refl

seq-IsQuiet : (act more : Act (Unit {0})) → IsQuiet act → IsQuiet more → IsQuiet (act >> more)
seq-IsQuiet act more q r w = Yields-next (q w) λ _ w' e. Yields-map (λ _ _ e'. e' ∙ e) (r w')

edit-IsQuiet :
    (f : String → Error) (netns : String) (g : List Route → Edited)
    → IsQuiet (rephrase f (edit_routes netns g))
unfolding edit_routes
edit-IsQuiet f netns g w =
    Quiet-rephrase w f
      (Quiet-result w (edit_routes netns g w).1 (of_error (g (w.routes netns)).0) refl)

pub files-IsQuiet :
    (f : String → Error) (g : Os → Result (Unit {0}) × Os) → IsQuiet (rephrase f (on_files g))
files-IsQuiet f g w = Quiet-rephrase w f (Quiet-result w (on_files g w).1 (g w.os).0 refl)

module _ (H : Host) (S : Session) where
  open S use {args, conf, pod}

  change_gateways-IsQuiet :
      (d : DelegateNetConf) (rt : RuntimeConf) (o : Option (List String × Bool))
      → IsQuiet (change_gateways H S d rt o)
  unfolding change_gateways delete_gateways add_gateways
  change_gateways-IsQuiet d rt none w = gives refl
  change_gateways-IsQuiet d rt (some (_, false)) w = gives refl
  change_gateways-IsQuiet d rt (some (_, true)) w =
      seq-IsQuiet _ _ (if-IsQuiet _ _ (seq-IsQuiet _ _ (edit-IsQuiet _ _ _) (files-IsQuiet _ _)))
        (if-IsQuiet _ _ (seq-IsQuiet _ _ (edit-IsQuiet _ _ _) (files-IsQuiet _ _))) w

  statuses_of-IsQuiet :
      (d : DelegateNetConf) (rt : RuntimeConf) (result : Fields)
      → IsQuiet (statuses_of H S d rt result)
  unfolding statuses_of
  statuses_of-IsQuiet d rt result w = elim (Bool-cases (reports_status H S)) [
    | inl h ↦ rw h (Quiet-rephrase w _ (Quiet-result w w _ refl))
    | inr h ↦ rw h (gives refl)
  ]

  interfaces-announce :
      (d : DelegateNetConf) (rt : RuntimeConf) (calls : Trace) (p : Option Pod)
      (o : Option (List String × Bool))
      → interfaces (announce H.plugins conf p d rt calls o) ≡ interfaces calls
  unfolding announce
  interfaces-announce d rt calls none o = refl
  interfaces-announce d rt calls (some _) none = refl
  interfaces-announce d rt calls (some _) (some (_, false)) = refl
  interfaces-announce d rt calls (some _) (some (_, true)) = refl

  interfaces-copied :
      (d : DelegateNetConf) (path : String) (calls : Trace)
      → interfaces (copied H S d path calls) ≡ interfaces calls
  unfolding copied
  interfaces-copied d path calls =
      elim (Bool-cases (path != "" && d.resource_name != "" && d.device_id != "")) [
        | inl h ↦ rw h refl
        | inr h ↦ rw h refl
      ]

  -- One more interface is asked for.
  abbrev Grows : ℕ → DelegateNetConf → World → World → Type 0
  Grows idx d w w' = interfaces w'.calls ≡ wanted S idx d ∷ interfaces w.calls

  runtime-place :
      (idx : ℕ) (d : DelegateNetConf)
      → place (delegate_runtime H S idx d).0 ≡ (wanted S idx d).place
  unfolding delegate_runtime runtime create_cni_runtime_conf
  runtime-place idx d = refl

  torn_down-errs {κ} :
      {P : Fields → World → Type κ} (e : Error) (w : World) (x : Result (Unit {0}) × Trace)
      → Yields P (torn_down H S e w x)
  unfolding torn_down
  torn_down-errs e w (ok _, calls) = errs
  torn_down-errs e w (err _, calls) = errs
  torn_down-errs e w (panic, calls) = unwinds

  plugin_added-Grows :
      (idx : ℕ) (d : DelegateNetConf) (w : World) (before : Trace) {x : Result Fields × Trace}
      → interfaces before ≡ interfaces w.calls
      → Yields
          (λ result t. Added H.plugins conf before pod d (delegate_runtime H S idx d).0 result t)
          x
      → Yields (λ _ w'. Grows idx d w w') (plugin_added H S idx d w x)
  unfolding plugin_added
  plugin_added-Grows idx d w before same (gives (rt', e, h)) = gives (
      ap (λ t. interfaces t) h
      ∙ (interfaces-announce d rt' _ pod _
          ∙ ap₂ (λ n l. (record (wanted S idx d) { place = n }) ∷ l) (e ∙ runtime-place idx d)
              same))
  plugin_added-Grows idx d w before same errs = torn_down-errs _ w _
  plugin_added-Grows idx d w before same unwinds = unwinds

  attach_one-Grows :
      (idx : ℕ) (d : DelegateNetConf) (a : Attached) (w : World)
      → Yields (λ _ w'. Grows idx d w w') (attach_one H S idx d a w)
  unfolding attach_one add_plugin gathered
  attach_one-Grows idx d a w =
      let path = (delegate_runtime H S idx d).1 in
      Yields-next
        (plugin_added-Grows idx d (record w { calls = copied H S d path w.calls })
          (copied H S d path w.calls) refl
          (delegate_add-Added H.plugins conf (copied H S d path w.calls) pod d
            (delegate_runtime H S idx d).0))
        λ result w₁ grown.
          Yields-next
            {f = λ _.
              statuses_of H S d (delegate_runtime H S idx d).0 result >>= gathered H S d result a}
            (change_gateways-IsQuiet d (delegate_runtime H S idx d).0 (H.plugins.result_of result)
              w₁)
            λ _ w₂ e.
              Yields-next {f = gathered H S d result a}
                (statuses_of-IsQuiet d (delegate_runtime H S idx d).0 result w₂)
                λ _ w₃ e'. gives (
                  ap (λ t. interfaces t) (e' ∙ e)
                  ∙ (grown ∙ ap (λ l. wanted S idx d ∷ l) (interfaces-copied d path w.calls)))

  pub attach_from-Grows :
      (idx : ℕ) (delegates : List DelegateNetConf) (a : Attached) (w : World)
      → Yields
          (λ _ w'. interfaces w'.calls ≡ all_added S idx delegates (interfaces w.calls))
          (attach_from H S idx delegates a w)
  unfolding attach_from
  attach_from-Grows idx [] a w = gives refl
  attach_from-Grows idx (d ∷ delegates) a w =
      Yields-next (attach_one-Grows idx d a w) λ a' w₁ grown.
        Yields-map (λ _ _ e. e ∙ ap (λ l. all_added S (idx + 1) delegates l) grown)
          (attach_from-Grows (idx + 1) delegates a' w₁)
