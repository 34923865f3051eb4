-- ===== src/Netutils/Cached.antt =====
-- The routes of the current format in the cache: an addition and then a removal, each from file to file.
use mathlib.Core.Option
use mathlib.Core.List.{append-nil, map-append}
use multus_cni.Base.{
  String, ◌≡◌, refl, ◌∙◌, sym, ap, true, false, Option, none, some, List, [], ◌∷◌, ◌++◌, All,
  All-append, map, Bool-cases, inl, inr, ◌==◌, string_eq, if◌then◌else◌,
}
use multus_cni.Base.Result.{ok}
use multus_cni.Json.{
  Value, str, arr, obj, texts, null, bool, num, nil_slice, json, Items, Bytes, Fields, get, put,
  elems, items, written, written_fields, written_items,
}
use multus_cni.Json.Laws.{get-put_self, get-put_ne, get-written_fields, written-written}
use multus_cni.Types.{Ip, v4, v6}
use multus_cni.Netutils.Delete.{set_routes, delete_default_gw_result}
use multus_cni.Netutils.Add.{gateway_route, gateway_routes, route_to}
use multus_cni.Netutils.Cache.{delete_default_gw_cache_bytes, add_default_gw_cache_bytes}
use multus_cni.Netutils.Remaining.{
  IsRoute, IsDst, destination, text_of, others, names_other, remaining, others-append, others-All,
}
use multus_cni.Netutils.Results.{
  IsCurrent, listed, get-set_routes, delete_default_gw_result-set_routes, add_default_gw_result-put,
}

elems-written : (vs : List Value) → elems (written_items (items vs)) ≡ map written vs
unfolding written
elems-written [] = refl
elems-written (v ∷ vs) = ap (λ l. written v ∷ l) (elems-written vs)

written_items-map :
    (vs : List Value) → written_items (items (map written vs)) ≡ written_items (items vs)
unfolding written
written_items-map [] = refl
written_items-map (v ∷ vs) = rw (written-written v, written_items-map vs) refl

IsDst-written : (o : Option Value) → IsDst o → IsDst (Option.map written o)
unfolding written
IsDst-written none h = h
IsDst-written (some (str s)) h = h
IsDst-written (some null) h = elim h [ ]
IsDst-written (some (bool _)) h = elim h [ ]
IsDst-written (some (num _)) h = elim h [ ]
IsDst-written (some nil_slice) h = elim h [ ]
IsDst-written (some (arr _)) h = elim h [ ]
IsDst-written (some (obj _)) h = elim h [ ]
IsDst-written (some (texts _)) h = elim h [ ]

IsRoute-written : (r : Value) → IsRoute r → IsRoute (written r)
unfolding written
IsRoute-written (obj m) h = rw (get-written_fields "dst" m) (IsDst-written (get "dst" m) h)
IsRoute-written null h = elim h [ ]
IsRoute-written (bool _) h = elim h [ ]
IsRoute-written (num _) h = elim h [ ]
IsRoute-written (str _) h = elim h [ ]
IsRoute-written nil_slice h = elim h [ ]
IsRoute-written (arr _) h = elim h [ ]
IsRoute-written (texts _) h = elim h [ ]

text_of-written : (o : Option Value) → IsDst o → text_of (Option.map written o) ≡ text_of o
unfolding written
text_of-written none h = refl
text_of-written (some (str s)) h = refl
text_of-written (some null) h = elim h [ ]
text_of-written (some (bool _)) h = elim h [ ]
text_of-written (some (num _)) h = elim h [ ]
text_of-written (some nil_slice) h = elim h [ ]
text_of-written (some (arr _)) h = elim h [ ]
text_of-written (some (obj _)) h = elim h [ ]
text_of-written (some (texts _)) h = elim h [ ]

destination-written : (r : Value) → IsRoute r → destination (written r) ≡ destination r
unfolding written
destination-written (obj m) h = rw (get-written_fields "dst" m) (text_of-written (get "dst" m) h)
destination-written null h = elim h [ ]
destination-written (bool _) h = elim h [ ]
destination-written (num _) h = elim h [ ]
destination-written (str _) h = elim h [ ]
destination-written nil_slice h = elim h [ ]
destination-written (arr _) h = elim h [ ]
destination-written (texts _) h = elim h [ ]

others-written :
    (dst : String) (rs : List Value)
    → All IsRoute rs
    → others dst (map written rs) ≡ map written (others dst rs)
others-written dst [] _ = refl
others-written dst (r ∷ rs) (h, hs) = elim (Bool-cases (names_other dst (destination r))) [
  | inl e ↦ rw (destination-written r h, e) (ap (λ l. written r ∷ l) (others-written dst rs hs))
  | inr e ↦ rw (destination-written r h, e) (others-written dst rs hs)
]

remaining-written :
    (rs : List Value)
    → All IsRoute rs
    → remaining true true (map written rs) ≡ map written (remaining true true rs)
remaining-written rs h =
    rw (others-written "0.0.0.0/0" rs h)
      (others-written "::0/0" (others "0.0.0.0/0" rs) (others-All IsRoute "0.0.0.0/0" rs h))

map-IsRoute : (rs : List Value) → All IsRoute rs → All IsRoute (map written rs)
map-IsRoute [] _ = tt
map-IsRoute (r ∷ rs) (h, hs) = (IsRoute-written r h, map-IsRoute rs hs)

gateway-IsRoute : (gw : List Ip) → All IsRoute (map written (gateway_routes gw))
unfolding gateway_route route_to get string_eq written
gateway-IsRoute [] = tt
gateway-IsRoute (v4 _ ∷ gw) = (tt, gateway-IsRoute gw)
gateway-IsRoute (v6 _ ∷ gw) = (tt, gateway-IsRoute gw)

remaining-gateway_routes :
    (gw : List Ip) → remaining true true (map written (gateway_routes gw)) ≡ []
unfolding gateway_route route_to get string_eq written
remaining-gateway_routes [] = refl
remaining-gateway_routes (v4 _ ∷ gw) = remaining-gateway_routes gw
remaining-gateway_routes (v6 _ ∷ gw) = remaining-gateway_routes gw

not_routes : ◌==◌ {A = String} "cniVersion" "routes" ≡ false
unfolding string_eq
not_routes = refl

module _ (cached result : Fields) (version : String) (routes : Items) (g : Ip) (gw : List Ip)
    (holds : get "result" cached ≡ some (obj result)) (c : IsCurrent result version routes) where
  abbrev all : List Value
  all = elems routes ++ gateway_routes (g ∷ gw)

  abbrev kept : List Value
  kept = remaining true true (elems routes)

  abbrev added : Fields
  added = put "routes" (arr (items all)) result

  -- The result in the file that the addition writes.
  abbrev read_back : Fields
  read_back = written_fields added

  read_back-IsCurrent : IsCurrent read_back version (written_items (items all))
  unfolding written
  read_back-IsCurrent = record {
    states =
        get-written_fields "cniVersion" added
        ∙ ap (Option.map written)
            (get-put_ne "cniVersion" "routes" (arr (items all)) result not_routes ∙ c.states);
    supported = c.supported;
    lists =
        get-written_fields "routes" added
        ∙ ap (Option.map written) (get-put_self "routes" (arr (items all)) result);
    formed =
        rw (elems-written all, map-append)
          (All-append IsRoute (map written (elems routes)) _ (map-IsRoute (elems routes) c.formed)
            (gateway-IsRoute (g ∷ gw)));
  }

  remaining-read_back : remaining true true (elems (written_items (items all))) ≡ map written kept
  remaining-read_back =
      rw (elems-written all, map-append written, others-append, others-append)
        (rw (remaining-gateway_routes (g ∷ gw), append-nil)
          (remaining-written (elems routes) c.formed))

  abbrev file_of : Fields → Fields
  file_of r = written_fields (put "result" (obj r) cached)

  abbrev left : Fields
  left = set_routes read_back (map written kept)

  abbrev alone : Fields
  alone = set_routes result kept

  listed-written :
      (vs : List Value)
      → Option.map written (listed (map written vs)) ≡ Option.map written (listed vs)
  unfolding written
  listed-written [] = refl
  listed-written (v ∷ vs) = ap (λ l. some (arr l)) (written_items-map (v ∷ vs))

  maybe-written :
      (o : Option Value) → Option.map written (Option.map written o) ≡ Option.map written o
  maybe-written none = refl
  maybe-written (some v) = ap (λ x. some x) (written-written v)

  listing :
      (k : String)
      → Option.map written (if k == "routes" then listed (map written kept) else get k read_back)
        ≡ Option.map written (if k == "routes" then listed kept else get k result)
  listing k = elim (Bool-cases (k == "routes")) [
    | inl h ↦ rw h (listed-written kept)
    | inr h ↦
        rw (h, get-written_fields k added, get-put_ne k "routes" (arr (items all)) result h)
          (maybe-written (get k result))
  ]

  left-alone : (k : String) → get k (written_fields left) ≡ get k (written_fields alone)
  left-alone k =
      get-written_fields k left
      ∙ ap (Option.map written) (get-set_routes k read_back (map written kept))
      ∙ listing k
      ∙ ap (Option.map written) (sym (get-set_routes k result kept))
      ∙ sym (get-written_fields k alone)

  result_of-file :
      (r file : Fields)
      → get "result" (written_fields (put "result" (obj r) file)) ≡ some (obj (written_fields r))
  unfolding written
  result_of-file r file =
      get-written_fields "result" (put "result" (obj r) file)
      ∙ ap (Option.map written) (get-put_self "result" (obj r) file)

  delete-read_back : delete_default_gw_result read_back true true ≡ ok left
  delete-read_back =
      delete_default_gw_result-set_routes read_back version (written_items (items all)) true true
        read_back-IsCurrent
      ∙ ap (λ rs. ok (set_routes read_back rs)) remaining-read_back

  -- A cache of the current format to which gateways are added, and from which the default routes of both
  -- families are then removed, holds for every key of the result what the removal alone leaves. Each of
  -- the three changes succeeds, and reads what the one before it has written.
  pub delete-add_default_gw_cache_bytes :
      (b : Bytes) × (file : Fields) × (file' : Fields) × (left' : Fields) × (alone' : Fields)
      × (add_default_gw_cache_bytes (json (obj cached)) (g ∷ gw) ≡ ok b)
      × (delete_default_gw_cache_bytes b true true ≡ ok (json (obj file)))
      × (delete_default_gw_cache_bytes (json (obj cached)) true true ≡ ok (json (obj file')))
      × (get "result" file ≡ some (obj left'))
      × (get "result" file' ≡ some (obj alone'))
      × ((k : String) → get k left' ≡ get k alone')
  unfolding delete_default_gw_cache_bytes add_default_gw_cache_bytes
  delete-add_default_gw_cache_bytes = (
    json (obj (file_of added)),
    written_fields (put "result" (obj left) (file_of added)),
    file_of alone,
    written_fields left,
    written_fields alone,
    rw holds (rw (add_default_gw_result-put result version routes g gw c)),
    rw (result_of-file added cached) (rw delete-read_back),
    rw holds (rw (delete_default_gw_result-set_routes result version routes true true c)),
    result_of-file left (file_of added),
    result_of-file alone cached,
    left-alone,
  )
