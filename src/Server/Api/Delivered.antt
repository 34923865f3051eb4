-- ===== src/Server/Api/Delivered.antt =====
-- What the daemon makes of the request of a shim.
use Prim.Native.Char.{code}
use Prim.Native.String.{[], ◌∷◌}
use text.Mathlib.TextLemmas.{nil-append, cons-append}
use multus_cni.Base.{
  ℕ, String, ◌≡◌, ◌≢◌, refl, ap, ◌∙◌, Bool, true, false, Option, none, some, List, [], ◌∷◌, ◌==◌,
  string_eq, nat_eq, if◌then◌else◌, eq_self, eq_other, All, map,
}
use multus_cni.Base.Dict.{Dict, lookup, insert, lookup-insert}
use multus_cni.Base.Result.{ok}
use multus_cni.Json.{Bytes}
use multus_cni.Text.{split_once}
use multus_cni.Text.Split.{Lacks, NoSpaces, trim_space-NoSpaces}
use multus_cni.Server.Requests.{extract_cni_data, override_cni_config_with_server_config, or_eth0}
use multus_cni.Server.Api.{pair, with_item, gather_env, new_cni_request}

-- The name of a variable: it is not empty, and holds neither "=", which is 61, nor a space.
abbrev pub IsVariable : String × String → Type 0
IsVariable (name, value) = (name ≢ "") × Lacks 61 name × NoSpaces name

abbrev pub item : String × String → String
item (name, value) = pair name value

-- The value of a variable, the last one where it is given several times.
abbrev pub value_of : String → List (String × String) → Option String
value_of k [] = none
value_of k ((name, value) ∷ more) = elim (value_of k more) [
  | some w ↦ some w
  | none ↦ if k == name then some value else none
]

split_once-pair :
    (name value : String) → Lacks 61 name → split_once 61 (pair name value) ≡ (name, some value)
unfolding split_once
split_once-pair [] value _ = rw (nil-append, eq_self {A = ℕ} 61) refl
split_once-pair (c ∷ name) value (h, hs) =
    rw (cons-append, eq_other (code c) 61 h, split_once-pair name value hs) refl

abbrev or_before : Option String → Option String → Option String
or_before (some w) before = some w
or_before none before = before

with_item-variable :
    (name value : String) (d : Dict String)
    → IsVariable (name, value)
    → with_item d (split_once 61 (pair name value)) ≡ insert name value d
unfolding with_item
with_item-variable name value d (ne, lacks, spaces) =
    rw (split_once-pair name value lacks, trim_space-NoSpaces name spaces, eq_other name "" ne) refl

or_none : (o : Option String) → or_before o none ≡ o
or_none none = refl
or_none (some w) = refl

or_before-step :
    (o : Option String) (b : Bool) (value : String) (before : Option String)
    → or_before o (if b then some value else before)
      ≡ or_before (elim o [ some w ↦ some w | none ↦ if b then some value else none ]) before
or_before-step (some w) b value before = refl
or_before-step none true value before = refl
or_before-step none false value before = refl

lookup-gather_env :
    (k : String) (env : List (String × String)) (d : Dict String)
    → All IsVariable env
    → lookup k (gather_env (map item env) d) ≡ or_before (value_of k env) (lookup k d)
unfolding gather_env
lookup-gather_env k [] d _ = refl
lookup-gather_env k ((name, value) ∷ env) d (v, vs) =
    ap (λ d'. lookup k (gather_env (map item env) d')) (with_item-variable name value d v)
    ∙ lookup-gather_env k env (insert name value d) vs
    ∙ ap (or_before (value_of k env)) (lookup-insert k name value d)
    ∙ or_before-step (value_of k env) (k == name) value (lookup k d)

lookup-item :
    (k : String) (env : List (String × String))
    → All IsVariable env
    → lookup k (gather_env (map item env) []) ≡ value_of k env
unfolding lookup
lookup-item k env vs = lookup-gather_env k env [] vs ∙ or_none (value_of k env)

-- The daemon takes from the request of a shim what the variables of the shim say, and the configuration
-- that the shim read, with its own over it. A variable that is given several times has its last
-- value, and the interface is "eth0" where none is named.
pub new_cni_request-extracted :
    (env : List (String × String)) (stdin_data config merged : Bytes) (ignore : Bool)
    (command container_id netns args : String)
    → All IsVariable env
    → value_of "CNI_COMMAND" env ≡ some command
    → value_of "CNI_CONTAINERID" env ≡ some container_id
    → value_of "CNI_NETNS" env ≡ some netns
    → value_of "CNI_ARGS" env ≡ some args
    → override_cni_config_with_server_config stdin_data config ignore ≡ ok merged
    → extract_cni_data config ignore (new_cni_request (map item env) stdin_data)
      ≡ ok (
        command,
        record {
          container_id = container_id;
          netns = netns;
          if_name = or_eth0 (value_of "CNI_IFNAME" env);
          args = args;
          stdin_data = merged;
        },
      )
unfolding extract_cni_data new_cni_request string_eq
new_cni_request-extracted env stdin_data config merged ignore command container_id netns args vs e1
      e2 e3 e4 overrides =
    rw
      (
        lookup-item "CNI_COMMAND" env vs,
        e1,
        lookup-item "CNI_CONTAINERID" env vs,
        e2,
        lookup-item "CNI_NETNS" env vs,
        e3,
        lookup-item "CNI_ARGS" env vs,
        e4,
        lookup-item "CNI_IFNAME" env vs,
        overrides,
      )
      refl
