-- ===== src/Json/Laws.antt =====
-- The laws of maps, in `if` form, and how writing acts on them.
use mathlib.Core.Option
use mathlib.Core.Path.{ap₂}
use multus_cni.Base.{
  String, ◌≡◌, refl, ap, false, none, some, List, [], ◌∷◌, arith, ◌==◌, eq_self, string_eq,
  if◌then◌else◌,
}
use multus_cni.Json.{
  Value, Fields, end, field, get, put, delete, elems, items, written_fields, written_items, written,
  text_fields, nil_slice, arr, obj, texts, null, bool, num, str, Items, nil, cons,
}
use multus_cni.Base.Dict.{Dict}

pub get-put :
    (j k : String) (v : Value) (m : Fields)
    → get j (put k v m) ≡ (if j == k then some v else get j m)
unfolding get put
get-put j k v end = refl
get-put j k v (field i w m) = ground (arith, get-put j k v m)

pub get-delete :
    (j k : String) (m : Fields) → get j (delete k m) ≡ (if j == k then none else get j m)
unfolding get delete
get-delete j k end = ground arith
get-delete j k (field i w m) = ground (arith, get-delete j k m)

pub put-put : (k : String) (v w : Value) (m : Fields) → put k v (put k w m) ≡ put k v m
unfolding put
put-put k v w end = ground arith
put-put k v w (field i u m) = ground (arith, put-put k v w m)

pub elems-items : (vs : List Value) → elems (items vs) ≡ vs
elems-items [] = refl
elems-items (v ∷ vs) = rw (elems-items vs)

pub get-written_fields :
    (k : String) (m : Fields) → get k (written_fields m) ≡ Option.map written (get k m)
unfolding get written
get-written_fields k end = refl
get-written_fields k (field i w m) = ground (arith, get-written_fields k m)

-- What was read back stays the same when it is written again.
text_fields-written : (d : Dict String) → written_fields (text_fields d) ≡ text_fields d
unfolding written
text_fields-written [] = refl
text_fields-written ((k, s) ∷ d) = ap (λ m. field k (str s) m) (text_fields-written d)

mutual
  unfolding written

  pub written-written : (v : Value) → written (written v) ≡ written v
  written-written nil_slice = refl
  written-written (arr vs) = ap (λ x. arr x) (written_items-written vs)
  written-written (obj m) = ap (λ x. obj x) (written_fields-written m)
  written-written (texts d) = ap (λ x. obj x) (text_fields-written d)
  written-written null = refl
  written-written (bool b) = refl
  written-written (num n) = refl
  written-written (str s) = refl

  written_items-written : (vs : Items) → written_items (written_items vs) ≡ written_items vs
  written_items-written nil = refl
  written_items-written (cons v vs) =
      ap₂ (λ x y. cons x y) (written-written v) (written_items-written vs)

  written_fields-written : (m : Fields) → written_fields (written_fields m) ≡ written_fields m
  written_fields-written end = refl
  written_fields-written (field k v m) =
      ap₂ (λ x y. field k x y) (written-written v) (written_fields-written m)

pub get-put_self : (k : String) (v : Value) (m : Fields) → get k (put k v m) ≡ some v
get-put_self k v m = rw (get-put k k v m) (rw (eq_self k))

pub get-put_ne :
    (j k : String) (v : Value) (m : Fields) → (j == k) ≡ false → get j (put k v m) ≡ get j m
get-put_ne j k v m ne = rw (get-put j k v m) (rw ne)

pub get-field_self : (k : String) (v : Value) (m : Fields) → get k (field k v m) ≡ some v
unfolding get
get-field_self k v m = rw (eq_self k)
