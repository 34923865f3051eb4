-- ===== src/K8sclient/Annotation/Lists.antt =====
-- Writing an annotation of comma-delimited names and reading it back.
use Prim.Native.Char.{Char, code}
use Prim.Native.String.{[], ◌∷◌}
use text.Mathlib.TextLemmas.{cons-ne-nil, append-ne-nil_of_right_ne-nil}
use multus_cni.Base.{
  ℕ, String, ◌<>◌, [], ◌∷◌, List, All, map, ap, ◌∙◌, ◌≡◌, refl, ◌≢◌, ◌≤◌, some, false, arith, ◌==◌,
  nat_eq, string_eq, Bool-cases, inl, inr, sym,
}
use multus_cni.Base.Result.{ok}
use multus_cni.Types.{NetworkSelectionElement}
use multus_cni.Text.{split, AllCodes, is_space}
use multus_cni.Text.Split.{NoSpaces, split-append, split-Lacks, trim_space-NoSpaces}
use multus_cni.K8sclient.Annotation.{
  Parsers, named_element, parse_items, is_json_char, check_elements, check_element,
  parse_pod_network_annotation,
}
use multus_cni.K8sclient.Annotation.Names.{IsLabelChar, Starts, contains_any-AllCodes}
use multus_cni.K8sclient.Annotation.RoundTrip.{
  IsPlainChar, AllCodes-map, AllCodes-append, render, render-eq, slash, at, tail_of, IsWritable,
  parse_pod_network_object_name-render,
}

-- A written name has visible characters that neither separate items nor begin JSON.
abbrev IsItemChar : ℕ → Type 0
IsItemChar c = (33 ≤ c) × (c ≤ 126) × (c ≢ b',') × (c ≢ b'[') × (c ≢ b'{') × (c ≢ 34)

item_of_label : (c : ℕ) → IsLabelChar c → IsItemChar c
item_of_label c h = ground arith

item_of_plain : (c : ℕ) → IsPlainChar c → IsItemChar c
item_of_plain c h = ground arith

IsItemChar-space : (c : Char) → IsItemChar (code c) → is_space c ≡ false
unfolding is_space
IsItemChar-space c h = ground arith

NoSpaces-IsItemChar : (s : String) → AllCodes IsItemChar s → NoSpaces s
NoSpaces-IsItemChar [] _ = tt
NoSpaces-IsItemChar (c ∷ s) (h, hs) = (IsItemChar-space c h, NoSpaces-IsItemChar s hs)

-- One selection: namespace, network and interface.
abbrev pub Selection : Type 0
Selection = String × String × String

abbrev pub written_name : Selection → String
written_name (ns, name, ifname) = render ns name ifname

abbrev pub IsSelection : Selection → Type 0
IsSelection (ns, name, ifname) = IsWritable ns name ifname

written_name-IsItemChar : (x : Selection) → IsSelection x → AllCodes IsItemChar (written_name x)
written_name-IsItemChar (ns, name, ifname) w = rw (render-eq ns name ifname) (
    AllCodes-append IsItemChar ns (slash ∷ tail_of name ifname)
      (AllCodes-map item_of_label ns w.namespace.0)
      (
        omega arith,
        AllCodes-append IsItemChar name (at ∷ ifname) (AllCodes-map item_of_label name w.network.0)
            (omega arith, AllCodes-map item_of_plain ifname w.interface),
      ))

abbrev pub comma : Char
comma = ","

-- The names of a nonempty list, with commas between them.
abbrev pub written_list : Selection → List Selection → String
written_list x [] = written_name x
written_list x (y ∷ ys) = written_name x <> (comma ∷ written_list y ys)

item-not_comma : (c : ℕ) → IsItemChar c → c ≢ b','
item-not_comma c h = ground arith

split-written_list :
    (x : Selection) (xs : List Selection)
    → All IsSelection (x ∷ xs)
    → split b',' (written_list x xs) ≡ map written_name (x ∷ xs)
split-written_list x [] (h, _) =
    split-Lacks b',' (written_name x) (AllCodes-map item-not_comma _ (written_name-IsItemChar x h))
split-written_list x (y ∷ ys) (h, hs) =
    split-append b',' comma (written_name x) (written_list y ys) refl
      (AllCodes-map item-not_comma _ (written_name-IsItemChar x h))
    ∙ ap (λ l. written_name x ∷ l) (split-written_list y ys hs)

parse_items-written :
    (xs : List Selection)
    → All IsSelection xs
    → parse_items (map written_name xs) ≡ ok (map (λ x. some (named_element x)) xs)
unfolding parse_items
parse_items-written [] _ = refl
parse_items-written ((ns, name, ifname) ∷ xs) (w, hs) =
    rw
      (trim_space-NoSpaces (render ns name ifname)
        (NoSpaces-IsItemChar _ (written_name-IsItemChar (ns, name, ifname) w)))
      (rw (parse_pod_network_object_name-render ns name ifname w) (rw (parse_items-written xs hs)))

-- What a selection becomes: its namespace, network and interface, and no other request.
abbrev pub element : Selection → NetworkSelectionElement
element x = named_element x

Starts-ne_nil : (s : String) → Starts s → s ≢ ""
Starts-ne_nil [] h = absurd h
Starts-ne_nil (c ∷ s) h = cons-ne-nil c s

append_cons-ne_nil : (s : String) (c : Char) (t : String) → s <> (c ∷ t) ≢ ""
append_cons-ne_nil s c t = append-ne-nil_of_right_ne-nil s (cons-ne-nil c t)

written_list-ne_nil : (x : Selection) (xs : List Selection) → written_list x xs ≢ ""
written_list-ne_nil (ns, name, ifname) [] p =
    append_cons-ne_nil ns slash (tail_of name ifname) (sym (render-eq ns name ifname) ∙ p)
written_list-ne_nil x (y ∷ ys) p = append_cons-ne_nil (written_name x) comma (written_list y ys) p

abbrev NotJson : ℕ → Type 0
NotJson c = is_json_char c ≡ false

item-NotJson : (c : ℕ) → IsItemChar c → NotJson c
item-NotJson c h = ground arith

written_list-NotJson :
    (x : Selection) (xs : List Selection)
    → All IsSelection (x ∷ xs)
    → AllCodes NotJson (written_list x xs)
written_list-NotJson x [] (h, _) = AllCodes-map item-NotJson _ (written_name-IsItemChar x h)
written_list-NotJson x (y ∷ ys) (h, hs) =
    AllCodes-append NotJson (written_name x) (comma ∷ written_list y ys)
      (AllCodes-map item-NotJson _ (written_name-IsItemChar x h))
      (ground arith, written_list-NotJson y ys hs)

module _ (P : Parsers) (default_namespace : String) where
  check_element-named :
      (x : Selection)
      → IsSelection x
      → check_element P default_namespace (some (named_element x)) ≡ ok (element x)
  unfolding check_element
  check_element-named (ns, name, ifname) w = ground (arith, Starts-ne_nil ns w.namespace.1)

  check_elements-named :
      (xs : List Selection)
      → All IsSelection xs
      → check_elements P default_namespace (map (λ x. some (named_element x)) xs)
        ≡ ok (map element xs)
  unfolding check_elements
  check_elements-named [] _ = refl
  check_elements-named (x ∷ xs) (w, hs) =
      rw (check_element-named x w) (rw (check_elements-named xs hs))

  -- A list of written names is read back: each selection in order, in its own namespace.
  pub parse_pod_network_annotation-written_list :
      (x : Selection) (xs : List Selection)
      → All IsSelection (x ∷ xs)
      → parse_pod_network_annotation P (written_list x xs) default_namespace
        ≡ ok (map element (x ∷ xs))
  unfolding parse_pod_network_annotation
  parse_pod_network_annotation-written_list x xs hs = elim (Bool-cases (written_list x xs == "")) [
    | inl e ↦ absurd (written_list-ne_nil x xs (ground arith))
    | inr e ↦ rw e (
        rw (contains_any-AllCodes is_json_char _ (written_list-NotJson x xs hs)) (
          rw (split-written_list x xs hs)
            (rw (parse_items-written (x ∷ xs) hs) (check_elements-named (x ∷ xs) hs))))
  ]
