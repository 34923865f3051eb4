-- ===== src/Server/Config/Primary.antt =====
-- findMasterPlugin: the search of a directory for the configuration of the primary plugin.
pub mod Search
use Prim.Native.Char.{code}
use Prim.Native.String.{[], ◌∷◌}
use mathlib.Core.Option
use multus_cni.Base.{
  ℕ, zero, suc, ◌+◌, String, ◌<>◌, Bool, true, false, not, ◌&&◌, ◌||◌, Option, none, some, List, [],
  ◌∷◌, ◌++◌, ◌==◌, ◌!=◌, nat_eq, string_eq, ltb, if◌then◌else◌,
}
use multus_cni.Base.Dict.{Dict, insert}
use multus_cni.Base.Result.{
  Result, ok, err, panic, Error, errorf, context, or_err, or_panic, ◌>>=◌, ◌>>◌,
}
use multus_cni.Json.{
  Value, bool, str, obj, Fields, end, field, get, as_string, as_slice, as_map, Bytes, json,
}
use multus_cni.Os.{Os, read_file}
use multus_cni.Text.{starts_with}

-- filepath.Ext of a name without a separator: the text from the last "." on, which is 46.
unfoldable pub ext : String → String
ext [] = []
ext (c ∷ s) = let rest = ext s in if rest != [] then rest else if code c == 46 then c ∷ s else []

unfoldable pub is_plugin_config : String → Bool
unfolding starts_with ext
is_plugin_config name =
    not (starts_with "00-multus" name) && (ext name == ".conf" || ext name == ".conflist")

unfoldable pub plugin_configs : List String → List String
unfolding is_plugin_config
plugin_configs [] = []
plugin_configs (name ∷ names) =
    let more = plugin_configs names in if is_plugin_config name then name ∷ more else more

-- The order of texts by their characters, and sort.Strings.
unfoldable pub before : String → String → Bool
before [] t = true
before (c ∷ s) [] = false
before (c ∷ s) (d ∷ t) = ltb (code c) (code d) || (code c == code d && before s t)

unfoldable pub insert_sorted : String → List String → List String
unfolding before
insert_sorted s [] = s ∷ []
insert_sorted s (t ∷ ts) = if before s t then s ∷ t ∷ ts else t ∷ insert_sorted s ts

unfoldable pub sort : List String → List String
unfolding insert_sorted
sort [] = []
sort (s ∷ ss) = insert_sorted s (sort ss)

first_of : List String → Result String → Result String
first_of [] later = later
first_of (name ∷ _) later = ok name

listed : Result (List String) → Result String → Result String
unfolding first_of sort plugin_configs
listed (ok names) later = first_of (sort (plugin_configs names)) later
listed (err e) later = err (errorf ("error when listing the CNI plugin configurations: " <> e.text))
listed panic later = panic

-- What os.ReadDir answers when a number of tries is left; the tries are a second apart.
unfoldable pub find_master_plugin : (ℕ → Result (List String)) → String → ℕ → Result String
unfolding listed
find_master_plugin read_dir path zero =
    err (errorf ("could not find a plugin configuration in " <> path))
find_master_plugin read_dir path (suc tries) =
    listed (read_dir (suc tries)) (find_master_plugin read_dir path tries)
