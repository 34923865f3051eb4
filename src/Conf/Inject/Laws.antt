-- ===== src/Conf/Inject/Laws.antt =====
-- What the injections leave in a configuration, key by key.
use mathlib.Core.Option
use mathlib.Core.Option.{or_else}
use multus_cni.Base.{
  String, ◌≡◌, ◌⊎◌, inl, inr, Bool-cases, refl, ◌∙◌, Option, none, some, arith, ◌==◌, string_eq,
  if◌then◌else◌, ◌||◌,
}
use multus_cni.Base.Result.{ok, >>=-eq-ok, ok-injective}
use multus_cni.Json.{Value, str, obj, json, Fields, end, field, get, put, written, written_fields}
use multus_cni.Json.Laws.{get-put, get-put_self, get-put_ne, get-field_self, get-written_fields}
use multus_cni.Conf.Inject.{
  put_device_id, delegate_add_device_id, put_all, merge_cni, merge_args, inject_cni_args,
}

-- The configuration with a device: its two keys name the device, and the others are as before.
pub get-put_device_id :
    (k device_id : String) (config : Fields)
    → get k (put_device_id device_id config)
      ≡ (if k == "deviceID" || k == "pciBusID" then some (str device_id) else get k config)
unfolding put_device_id
get-put_device_id k device_id config = ground (
  arith,
  get-put k "pciBusID" (str device_id) (put "deviceID" (str device_id) config),
  get-put k "deviceID" (str device_id) config,
)

-- The configuration that a plugin is called with names the device in both keys, and its other keys
-- hold what json.Marshal writes of their former values.
pub delegate_add_device_id-get :
    (config : Fields) (device_id : String)
    → (config' : Fields) × (delegate_add_device_id (json (obj config)) device_id
        ≡ ok (json (obj config')))
      × ((k : String)
          → get k config' ≡ (
              if k == "deviceID" || k == "pciBusID"
              then some (str device_id)
              else Option.map written (get k config)))
unfolding delegate_add_device_id written
delegate_add_device_id-get config device_id = (
  written_fields (put_device_id device_id config),
  refl,
  λ k.
      get-written_fields k (put_device_id device_id config)
      ∙ rw (get-put_device_id k device_id config) (ground arith),
)

-- The keys of a map that occur once each.
abbrev pub NodupKeys : Fields → Type 0
NodupKeys end = Unit
NodupKeys (field k v m) = (get k m ≡ none) × NodupKeys m

pub get-put_all :
    (k : String) (args m : Fields)
    → NodupKeys args
    → get k (put_all args m) ≡ or_else (get k args) (get k m)
unfolding put_all get or_else
get-put_all k end m _ = refl
get-put_all k (field j v args) m (fresh, u) =
    get-put_all k args (put j v m) u ∙ ground (arith, get-put k j v m)

abbrev map_or_end : Option Value → Fields
map_or_end (some (obj m)) = m
map_or_end _ = end

-- The map under "args" and "cni", empty where the configuration has none.
abbrev pub cni_args_of : Fields → Fields
cni_args_of config = map_or_end (get "cni" (map_or_end (get "args" config)))

module _ (args : Fields) (u : NodupKeys args) where
  merge_cni-get :
      (o : Option Value) (cni : Fields)
      → merge_cni args o ≡ ok cni
      → (k : String) → get k cni ≡ or_else (get k args) (get k (map_or_end o))
  unfolding merge_cni get or_else
  merge_cni-get none cni h k = rw (← ok-injective h) (ground arith)
  merge_cni-get (some (obj m)) cni h k = rw (← ok-injective h) (get-put_all k args m u)
  merge_cni-get (some _) cni h k = cc

  merge_args-get :
      (o : Option Value) (merged : Fields)
      → merge_args args o ≡ ok merged
      → (k : String)
      → get k (map_or_end (get "cni" merged))
        ≡ or_else (get k args) (get k (map_or_end (get "cni" (map_or_end o))))
  unfolding merge_args get
  merge_args-get none merged h k =
      rw (← ok-injective h)
        (rw (get-field_self "cni" (obj args) end) (merge_cni-get none args refl k))
  merge_args-get (some (obj m)) merged h k =
      let (cni, e, h') = >>=-eq-ok (merge_cni args (get "cni" m)) _ h in
      rw (← ok-injective h')
        (rw (get-put_self "cni" (obj cni) m) (merge_cni-get (get "cni" m) cni e k))
  merge_args-get (some _) merged h k = cc

  -- After an injection that returns, an argument that was given has its given value, any other one
  -- keeps what the configuration had, and the keys besides "args" are unchanged.
  pub inject_cni_args-get :
      (config config' : Fields)
      → inject_cni_args config args ≡ ok config'
      → ((k : String)
          → get k (cni_args_of config') ≡ or_else (get k args) (get k (cni_args_of config)))
        × ((k : String) → (k ≡ "args") ⊎ (get k config' ≡ get k config))
  unfolding inject_cni_args
  inject_cni_args-get config config' h =
      let (merged, e, h') = >>=-eq-ok (merge_args args (get "args" config)) _ h in
      (
        λ k. rw (← ok-injective h') (
            rw (get-put_self "args" (obj merged) config)
              (merge_args-get (get "args" config) merged e k)),
        λ k. elim (Bool-cases (k == "args")) [
          | inl e ↦ inl (ground arith)
          | inr ne ↦ inr (rw (← ok-injective h') (get-put_ne k "args" (obj merged) config ne))
        ],
      )
