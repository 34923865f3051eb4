-- ===== src/Json.antt =====
-- What encoding/json gives the source: values of type interface{}, and byte strings up to what they
-- parse to. `Fields` is map[string]interface{}; the order of its keys, which Go leaves open, is the
-- order of insertion.
pub mod Laws
use multus_cni.Base.{
  String, ◌≡◌, Bool, true, false, Option, none, some, List, [], ◌∷◌, ◌==◌, string_eq, if◌then◌else◌,
}
use multus_cni.Base.Dict.{Dict}
use multus_cni.Base.Result.{Result, ok, err, errorf}

-- `nil_slice` is a nil []interface{}: a list in memory that is written as null. `texts` is a
-- map[string]string: no map[string]interface{} in memory, but written as an object. A number is kept as
-- its text.
mutual
  pub data Value : Type 0 where
    null : Value
    bool : Bool → Value
    num : String → Value
    str : String → Value
    nil_slice : Value
    arr : Items → Value
    obj : Fields → Value
    texts : Dict String → Value

  pub data Fields : Type 0 where
    end : Fields
    field : String → Value → Fields → Fields

  pub data Items : Type 0 where
    nil : Items
    cons : Value → Items → Items

-- `v, ok := m[k]`
unfoldable pub get : String → Fields → Option Value
get k end = none
get k (field j v m) = if k == j then some v else get k m

-- `m[k] = v`
unfoldable pub put : String → Value → Fields → Fields
put k v end = field k v end
put k v (field j w m) = if k == j then field k v m else field j w (put k v m)

-- `delete(m, k)`
unfoldable pub delete : String → Fields → Fields
delete k end = end
delete k (field j w m) = let rest = delete k m in if k == j then rest else field j w rest

-- The elements of a slice, and the slice of such elements; `nil_slice` is the slice that nothing
-- was appended to.
abbrev pub elems : Items → List Value
elems nil = []
elems (cons v vs) = v ∷ elems vs

abbrev pub items : List Value → Items
items [] = nil
items (v ∷ vs) = cons v (items vs)

-- The type assertions `v.(string)`, `v.([]interface{})` and `v.(map[string]interface{})`.
abbrev pub as_string : Value → Option String
as_string (str s) = some s
as_string _ = none

abbrev pub as_slice : Value → Option (List Value)
as_slice nil_slice = some []
as_slice (arr vs) = some (elems vs)
as_slice _ = none

abbrev pub as_map : Value → Option Fields
as_map (obj m) = some m
as_map _ = none

abbrev pub as_bool : Value → Option Bool
as_bool (bool b) = some b
as_bool _ = none

abbrev pub text_fields : Dict String → Fields
text_fields [] = end
text_fields ((k, s) ∷ d) = field k (str s) (text_fields d)

-- The value that is read back from what json.Marshal writes.
unfoldable mutual
  pub written : Value → Value
  written nil_slice = null
  written (arr vs) = arr (written_items vs)
  written (obj m) = obj (written_fields m)
  written (texts d) = obj (text_fields d)
  written null = null
  written (bool b) = bool b
  written (num n) = num n
  written (str s) = str s

  pub written_items : Items → Items
  written_items nil = nil
  written_items (cons v vs) = cons (written v) (written_items vs)

  pub written_fields : Fields → Fields
  written_fields end = end
  written_fields (field k v m) = field k (written v) (written_fields m)

-- A byte string: a JSON document, or text that does not parse.
pub data Bytes : Type 0 where
  json : Value → Bytes
  malformed : String → Bytes

-- json.Unmarshal into a map: null leaves the map nil, which reads as an empty one.
unfoldable pub unmarshal : Bytes → Result Fields
unmarshal (json (obj m)) = ok m
unmarshal (json null) = ok end
unmarshal (json _) = err (errorf "json: cannot unmarshal into Go value")
unmarshal (malformed _) = err (errorf "invalid character")

-- json.Marshal of a map of these values does not fail.
unfoldable pub marshal : Fields → Result Bytes
marshal m = ok (json (obj (written_fields m)))
