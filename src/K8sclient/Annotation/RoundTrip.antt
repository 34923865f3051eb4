-- ===== src/K8sclient/Annotation/RoundTrip.antt =====
-- Writing an object name and reading it back.
use Prim.Native.Char.{Char, code}
use Prim.Native.String.{[], ◌∷◌, len}
use text.Mathlib.TextLemmas.{nil-append, cons-append}
use multus_cni.Base.{
  ℕ, String, ◌<>◌, [], ◌∷◌, ap, ◌∙◌, ◌≤◌, ◌≡◌, refl, ◌≢◌, false, arith, nat_eq, string_eq,
}
use multus_cni.Base.Result.{ok}
use multus_cni.Text.{split, AllCodes, is_space}
use multus_cni.Text.Split.{Lacks, NoSpaces, split-append, split-Lacks, trim_space-NoSpaces}
use multus_cni.K8sclient.Annotation.{
  check_item, is_bad_in_ifname, check_ifname, check_names, parse_pod_network_object_name,
}
use multus_cni.K8sclient.Annotation.Names.{
  IsLabelChar, IsLabel, is_label_iff, contains_any-AllCodes,
}

-- The characters that an interface name is written with: visible ASCII characters that neither
-- separate names nor begin JSON.
abbrev pub IsPlainChar : ℕ → Type 0
IsPlainChar c =
    (33 ≤ c) × (c ≤ 126) × (c ≢ b'/') × (c ≢ b'@') × (c ≢ b',') × (c ≢ b'[') × (c ≢ b'{') × (c ≢ 34)

IsPlainChar-space : (c : Char) → IsPlainChar (code c) → is_space c ≡ false
unfolding is_space
IsPlainChar-space c h = ground arith

IsLabelChar-space : (c : Char) → IsLabelChar (code c) → is_space c ≡ false
unfolding is_space
IsLabelChar-space c h = ground arith

module _ {κ κ'} {P : ℕ → Type κ} {Q : ℕ → Type κ'} where
  pub AllCodes-map : ((c : ℕ) → P c → Q c) → (s : String) → AllCodes P s → AllCodes Q s
  AllCodes-map f [] _ = tt
  AllCodes-map f (c ∷ s) (h, hs) = (f (code c) h, AllCodes-map f s hs)

pub NoSpaces-IsLabelChar : (s : String) → AllCodes IsLabelChar s → NoSpaces s
NoSpaces-IsLabelChar [] _ = tt
NoSpaces-IsLabelChar (c ∷ s) (h, hs) = (IsLabelChar-space c h, NoSpaces-IsLabelChar s hs)

pub NoSpaces-IsPlainChar : (s : String) → AllCodes IsPlainChar s → NoSpaces s
NoSpaces-IsPlainChar [] _ = tt
NoSpaces-IsPlainChar (c ∷ s) (h, hs) = (IsPlainChar-space c h, NoSpaces-IsPlainChar s hs)

pub AllCodes-append {κ} :
    (P : ℕ → Type κ) (s t : String) → AllCodes P s → AllCodes P t → AllCodes P (s <> t)
AllCodes-append P [] t _ h = rw nil-append h
AllCodes-append P (c ∷ s) t (h, hs) ht = rw cons-append (h, AllCodes-append P s t hs ht)

-- How a name is written in an annotation.
abbrev pub render : String → String → String → String
render ns name ifname = ns <> ("/" <> (name <> ("@" <> ifname)))

-- A namespace and a network that are labels, and an interface name.
pub record IsWritable (ns name ifname : String) : Type 0 where
  pub namespace : IsLabel ns
  pub network : IsLabel name
  pub interface : AllCodes IsPlainChar ifname
  pub short : len ifname ≤ 15

abbrev pub slash : Char
slash = "/"

abbrev pub at : Char
at = "@"

abbrev pub tail_of : String → String → String
tail_of name ifname = name <> (at ∷ ifname)

pub render-eq :
    (ns name ifname : String) → render ns name ifname ≡ ns <> (slash ∷ tail_of name ifname)
render-eq ns name ifname =
    rw (cons-append at [] ifname, nil-append ifname)
      (rw (cons-append slash [] (tail_of name ifname), nil-append (tail_of name ifname)))

label-not_slash : (c : ℕ) → IsLabelChar c → c ≢ b'/'
label-not_slash c h = ground arith

label-not_at : (c : ℕ) → IsLabelChar c → c ≢ b'@'
label-not_at c h = ground arith

plain-not_slash : (c : ℕ) → IsPlainChar c → c ≢ b'/'
plain-not_slash c h = ground arith

plain-not_at : (c : ℕ) → IsPlainChar c → c ≢ b'@'
plain-not_at c h = ground arith

plain-not_bad : (c : ℕ) → IsPlainChar c → is_bad_in_ifname c ≡ false
plain-not_bad c h = ground arith

check_item-IsLabel : (s : String) → IsLabel s → check_item s ≡ ok tt
unfolding check_item
check_item-IsLabel s h = rw ((is_label_iff s).1 h)

check_ifname-IsPlain : (s : String) → AllCodes IsPlainChar s → len s ≤ 15 → check_ifname s ≡ ok tt
unfolding check_ifname
check_ifname-IsPlain s h l =
    ground (arith, contains_any-AllCodes is_bad_in_ifname s (AllCodes-map plain-not_bad s h))

module _ (ns name ifname : String) (w : IsWritable ns name ifname) where
  tail-Lacks : Lacks b'/' (tail_of name ifname)
  tail-Lacks =
      AllCodes-append (λ c. c ≢ b'/') name (at ∷ ifname)
        (AllCodes-map label-not_slash name w.network.0)
        (omega arith, AllCodes-map plain-not_slash ifname w.interface)

  split-render : split b'/' (render ns name ifname) ≡ ns ∷ tail_of name ifname ∷ []
  split-render = rw (render-eq ns name ifname) (
      split-append b'/' slash ns (tail_of name ifname) refl
        (AllCodes-map label-not_slash ns w.namespace.0)
      ∙ ap (λ l. ns ∷ l) (split-Lacks b'/' (tail_of name ifname) tail-Lacks))

  split-tail_of : split b'@' (tail_of name ifname) ≡ name ∷ ifname ∷ []
  split-tail_of =
      split-append b'@' at name ifname refl (AllCodes-map label-not_at name w.network.0)
      ∙ ap (λ l. name ∷ l) (split-Lacks b'@' ifname (AllCodes-map plain-not_at ifname w.interface))

  check_names-IsWritable : check_names ns (name, ifname) ≡ ok (ns, name, ifname)
  unfolding check_names
  check_names-IsWritable = rw (check_item-IsLabel ns w.namespace) (
      rw (check_item-IsLabel name w.network) (rw (check_ifname-IsPlain ifname w.interface w.short)))

  -- A written name is read back as it was: namespace, network and interface.
  pub parse_pod_network_object_name-render :
      parse_pod_network_object_name (render ns name ifname) ≡ ok (ns, name, ifname)
  unfolding parse_pod_network_object_name
  parse_pod_network_object_name-render = rw split-render (
      rw split-tail_of (
        rw (trim_space-NoSpaces ns (NoSpaces-IsLabelChar ns w.namespace.0)) (
          rw (trim_space-NoSpaces name (NoSpaces-IsLabelChar name w.network.0)) (
            rw (trim_space-NoSpaces ifname (NoSpaces-IsPlainChar ifname w.interface))
              check_names-IsWritable))))
