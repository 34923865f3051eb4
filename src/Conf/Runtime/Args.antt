-- ===== src/Conf/Runtime/Args.antt =====
-- The arguments of a plugin: what CNI_ARGS can change of the five that Multus gives.
use mathlib.Core.Option
use mathlib.Core.Option.{some-injective}
use mathlib.Core.Path.{subst}
use multus_cni.Base.{
  String, ◌≡◌, refl, ◌⊎◌, ◌∙◌, Option, none, some, List, [], ◌∷◌, ◌++◌, arith, ◌==◌, ◌!=◌,
  string_eq, inl, inr, Bool-cases, Option-cases, ◌&&◌,
}
use multus_cni.Text.{split, split_once}
use multus_cni.Types.{RuntimeConfig, DelegateNetConf, K8sArgs, CmdArgs}
use multus_cni.Conf.Runtime.{
  set_empty, add_arg, add_item, add_items, add_cni_args, create_args, Environment,
  create_cni_runtime_conf,
}

abbrev Args : Type 0
Args = List (String × String)

-- The new arguments begin with the old ones: the same keys in the same places, and the same values
-- where a value was not empty.
abbrev pub Extends : Args → Args → Type 0
Extends [] new = Unit
Extends (o ∷ old) [] = ⊥
Extends ((k, v) ∷ old) ((k', v') ∷ new) = (k' ≡ k) × ((v ≡ "") ⊎ (v' ≡ v)) × Extends old new

Extends-refl : (a : Args) → Extends a a
Extends-refl [] = tt
Extends-refl ((k, v) ∷ a) = (refl, inr refl, Extends-refl a)

Extends-trans : (a b c : Args) → Extends a b → Extends b c → Extends a c
Extends-trans [] b c h k = tt
Extends-trans ((_, v) ∷ a) [] c h k = elim h [ ]
Extends-trans ((_, v) ∷ a) ((_, v') ∷ b) [] h k = elim k [ ]
Extends-trans ((_, v) ∷ a) ((_, v') ∷ b) ((_, v'') ∷ c) (e, same, h) (e', same', h') =
    (e' ∙ e, ground arith, Extends-trans a b c h h')

Extends-append : (a b : Args) → Extends a (a ++ b)
Extends-append [] b = tt
Extends-append ((k, v) ∷ a) b = (refl, inr refl, Extends-append a b)

set_empty-Extends : (key val : String) (a b : Args) → set_empty key val a ≡ some b → Extends a b
unfolding set_empty
set_empty-Extends key val [] b h = tt
set_empty-Extends key val ((k, v) ∷ a) b h = elim (Bool-cases (k == key && v == "" && val != "")) [
  | inl fits ↦
      subst (Extends ((k, v) ∷ a)) (some-injective _ _ (rw fits at h))
        (refl, inl (ground arith), Extends-refl a)
  | inr other ↦
      let (more, found, same) = (Option.map-eq-some_iff _ _).0 (rw other at h) in
      subst (Extends ((k, v) ∷ a)) same (refl, inr refl, set_empty-Extends key val a more found)
]

add_arg-Extends : (key val : String) (a : Args) → Extends a (add_arg key val a)
unfolding add_arg
add_arg-Extends key val a = elim (Option-cases (set_empty key val a)) [
  | inl missing ↦ rw (missing, add_arg) (Extends-append a ((key, val) ∷ []))
  | inr (b, found) ↦ rw (found, add_arg) (set_empty-Extends key val a b found)
]

add_item-Extends : (a : Args) (item : String × Option String) → Extends a (add_item a item)
unfolding add_item
add_item-Extends a (key, none) = Extends-refl a
add_item-Extends a (key, some val) = add_arg-Extends key val a

add_items-Extends : (items : List String) (a : Args) → Extends a (add_items items a)
unfolding add_items
add_items-Extends [] a = Extends-refl a
add_items-Extends (item ∷ items) a =
    Extends-trans a _ _ (add_item-Extends a (split_once b'=' item))
      (add_items-Extends items (add_item a (split_once b'=' item)))

add_cni_args-Extends : (cni_args : String) (a : Args) → Extends a (add_cni_args cni_args a)
unfolding add_cni_args
add_cni_args-Extends cni_args a = elim (Bool-cases (cni_args != "")) [
  | inl given ↦ rw given (add_items-Extends (split b';' cni_args) a)
  | inr absent ↦ rw absent (Extends-refl a)
]

-- Whatever CNI_ARGS says, the arguments of a plugin begin with the five that Multus gives, in their
-- order, and a value of those that is not empty is not replaced.
pub create_cni_runtime_conf-Extends :
    (E : Environment) (args : CmdArgs) (k8s_args : K8sArgs) (if_name : String)
    (rc : Option RuntimeConfig) (delegate : DelegateNetConf)
    → Extends
        (create_args k8s_args.pod_namespace k8s_args.pod_name k8s_args.pod_infra_container_id
          k8s_args.pod_uid)
        (create_cni_runtime_conf E args k8s_args if_name rc delegate).0.args
unfolding create_cni_runtime_conf
create_cni_runtime_conf-Extends E args k8s_args if_name rc delegate =
    add_cni_args-Extends E.cni_args (
      create_args k8s_args.pod_namespace k8s_args.pod_name k8s_args.pod_infra_container_id
        k8s_args.pod_uid)
