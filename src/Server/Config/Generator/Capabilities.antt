-- ===== src/Server/Config/Generator/Capabilities.antt =====
-- pkg/server/config/generator.go: setCapabilities and extractCapabilities, and what they leave of a
-- configuration.
use multus_cni.Base.{
  String, ◌≡◌, refl, Bool, true, Option, none, some, List, [], ◌∷◌, ◌++◌, if◌then◌else◌,
}
use multus_cni.Base.Dict.{Dict, insert}
use multus_cni.Base.Result.{
  Result, ok, panic, or_err, or_panic, ◌>>=◌, Ensures, returns, Ensures-after,
}
use multus_cni.Json.{Value, Fields, end, field, get, as_slice, as_map, as_bool}
use multus_cni.Server.Config.Generator.{MultusConf}

-- The names that are set to true; a value that is no Boolean panics. Go's order of the names is open.
unfoldable pub enabled : Fields → Result (List String)
enabled end = ok []
enabled (field name v more) = do
  b ← or_panic (as_bool v)
  names ← enabled more
  ok (if b then name ∷ names else names)

abbrev pub capability_map : Value → Option Fields
capability_map v = elim (as_map v) [
  | none ↦ none
  | some fields ↦ elim (get "capabilities" fields) [ none ↦ none | some c ↦ as_map c ]
]

unfoldable pub extract_capabilities : Value → Result (List String)
unfolding enabled
extract_capabilities v = elim (capability_map v) [ none ↦ ok [] | some fields ↦ enabled fields ]

unfoldable pub extract_all : List Value → Result (List String)
unfolding extract_capabilities
extract_all [] = ok []
extract_all (plugin ∷ plugins) = do
  names ← extract_capabilities plugin
  more ← extract_all plugins
  ok (names ++ more)

-- `pluginsListEntry.([]interface{})` panics for any other value.
plugins_of : Option Value → Result (List Value)
plugins_of none = ok []
plugins_of (some v) = or_panic (as_slice v)

of_plugins : Value → List Value → Result (List String)
unfolding extract_capabilities extract_all
of_plugins cni [] = extract_capabilities cni
of_plugins cni (plugin ∷ plugins) = extract_all (plugin ∷ plugins)

unfoldable pub enable_all : List String → Dict Bool → Dict Bool
enable_all [] d = d
enable_all (name ∷ names) d = enable_all names (insert name true d)

-- An assignment to a map that is nil panics.
assigned : List String → Option (Dict Bool) → Result (Option (Dict Bool))
unfolding enable_all
assigned names (some d) = ok (some (enable_all names d))
assigned [] none = ok none
assigned (name ∷ names) none = panic

-- The capabilities that the configuration of the primary plugin enables.
unfoldable pub capabilities_of : Value → Result (List String)
unfolding plugins_of of_plugins
capabilities_of cni = do
  fields ← or_err "couldn't get cni config from delegate" (as_map cni)
  plugins ← plugins_of (get "plugins" fields)
  of_plugins cni plugins

unfoldable pub set_capabilities : MultusConf → Value → Result MultusConf
unfolding capabilities_of assigned
set_capabilities conf cni = do
  names ← capabilities_of cni
  capabilities ← assigned names conf.capabilities
  ok (record conf { capabilities = capabilities })

pub set_capabilities-network :
    (conf : MultusConf) (v : Value)
    → Ensures (λ c. c.cluster_network ≡ conf.cluster_network) (set_capabilities conf v)
unfolding set_capabilities
set_capabilities-network conf v =
    Ensures-after (capabilities_of v)
      λ names. Ensures-after (assigned names conf.capabilities) λ d. returns refl
