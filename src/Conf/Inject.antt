-- ===== src/Conf/Inject.antt =====
-- delegateAddDeviceID, addDeviceIDInConfList, injectCNIArgs, addCNIArgsInConfig and
-- addCNIArgsInConfList: what is written into a plugin's configuration before it is called.
pub mod Laws
use multus_cni.Base.{String, ◌<>◌, Option, none, some, List, [], ◌∷◌}
use multus_cni.Base.Result.{Result, ok, err, panic, or_err, or_panic, ◌>>=◌}
use multus_cni.Json.{
  Value, null, json, str, arr, obj, Items, Bytes, Fields, end, field, get, put, items, as_slice,
  as_map, unmarshal, marshal,
}

unfoldable pub put_device_id : String → Fields → Fields
put_device_id device_id config =
    put "pciBusID" (str device_id) (put "deviceID" (str device_id) config)

-- json.Unmarshal into a map that is assigned to: null leaves the map nil, and the assignment panics.
unfoldable pub writable : Bytes → Result Fields
unfolding unmarshal
writable (json null) = panic
writable b = unmarshal b

unfoldable pub delegate_add_device_id : Bytes → String → Result Bytes
unfolding writable marshal put_device_id
delegate_add_device_id in_bytes device_id = do
  raw_config ← writable in_bytes
  marshal (put_device_id device_id raw_config)

-- The loop over the plugins of a list, for a change that is made to each.
unfoldable pub change_plugins : (Value → Result Fields) → List Value → Result (List Value)
change_plugins change [] = ok []
change_plugins change (plugin ∷ plugins) = do
  changed ← change plugin
  rest ← change_plugins change plugins
  ok (obj changed ∷ rest)

-- The maps of a list's plugins are changed in place, so the list itself is what is written.
unfoldable pub change_list : String → (Value → Result Fields) → Bytes → Result Bytes
unfolding unmarshal marshal change_plugins
change_list what change in_bytes = do
  raw_config ← unmarshal in_bytes
  p_list ← or_err what (get "plugins" raw_config)
  plugins ← or_err what (as_slice p_list)
  plugins' ← change_plugins change plugins
  marshal (put "plugins" (arr (items plugins')) raw_config)

device_id_in_plugin : String → Value → Result Fields
device_id_in_plugin device_id plugin = do
  current ← or_err "addDeviceIDInConfList: unable to typecast plugin" (as_map plugin)
  ok (put_device_id device_id current)

unfoldable pub add_device_id_in_conf_list : Bytes → String → Result Bytes
unfolding change_list device_id_in_plugin put_device_id
add_device_id_in_conf_list in_bytes device_id =
    change_list "addDeviceIDInConfList" (device_id_in_plugin device_id) in_bytes

-- `for key, val := range *args { cnivalmap[key] = val }`
unfoldable pub put_all : Fields → Fields → Fields
put_all end m = m
put_all (field key val args) m = put_all args (put key val m)

-- A type assertion on a value that is no map panics.
merge_cni : Fields → Option Value → Result Fields
merge_cni args none = ok args
merge_cni args (some cnival) = do cnivalmap ← or_panic (as_map cnival); ok (put_all args cnivalmap)

merge_args : Fields → Option Value → Result Fields
unfolding merge_cni put_all
merge_args args none = ok (field "cni" (obj args) end)
merge_args args (some argsval) = do
  argsvalmap ← or_panic (as_map argsval)
  cni ← merge_cni args (get "cni" argsvalmap)
  ok (put "cni" (obj cni) argsvalmap)

unfoldable pub inject_cni_args : Fields → Fields → Result Fields
unfolding merge_args
inject_cni_args cni_config args = do
  merged ← merge_args args (get "args" cni_config)
  ok (put "args" (obj merged) cni_config)

unfoldable pub add_cni_args_in_config : Bytes → Fields → Result Bytes
unfolding inject_cni_args writable marshal
add_cni_args_in_config in_bytes cni_args = do
  raw_config ← writable in_bytes
  config ← inject_cni_args raw_config cni_args
  marshal config

cni_args_in_plugin : Fields → Value → Result Fields
unfolding inject_cni_args
cni_args_in_plugin cni_args plugin = do
  val_map ← or_panic (as_map plugin)
  inject_cni_args val_map cni_args

unfoldable pub add_cni_args_in_conf_list : Bytes → Fields → Result Bytes
unfolding change_list cni_args_in_plugin
add_cni_args_in_conf_list in_bytes cni_args =
    change_list "addCNIArgsInConfList()" (cni_args_in_plugin cni_args) in_bytes
