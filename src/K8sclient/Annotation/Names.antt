-- ===== src/K8sclient/Annotation/Names.antt =====
-- The names that an annotation can carry, described by their characters.
use Prim.Native.Char.{Char, code}
use Prim.Native.String.{[], ◌∷◌, len}
use multus_cni.Base.{
  ℕ, String, ◌≤◌, ◌≡◌, refl, ◌↔◌, ◌⊎◌, Bool, true, false, arith, nat_eq, string_eq,
}
use multus_cni.Base.Result.{ok, >>=-eq-ok}
use multus_cni.Text.{split, contains_any, AllCodes}
use multus_cni.K8sclient.Annotation.{
  label_tail, is_label, check_item, is_bad_in_ifname, check_ifname, split_namespace,
  split_interface, check_names, parse_pod_network_object_name,
}

abbrev pub IsAlnum : ℕ → Type 0
IsAlnum c = ((b'a' ≤ c) × (c ≤ b'z')) ⊎ ((b'0' ≤ c) × (c ≤ b'9'))

abbrev pub IsLabelChar : ℕ → Type 0
IsLabelChar c = IsAlnum c ⊎ (c ≡ b'-')

abbrev pub Starts : String → Type 0
Starts [] = ⊥
Starts (c ∷ s) = IsAlnum (code c)

abbrev pub Ends : String → Type 0
Ends [] = ⊥
Ends (c ∷ []) = IsAlnum (code c)
Ends (c ∷ d ∷ s) = Ends (d ∷ s)

-- The characters of a DNS-1123 label, of any length: lower case letters, digits and dashes, with no dash at
-- either end.
abbrev pub IsLabel : String → Type 0
IsLabel s = AllCodes IsLabelChar s × Starts s × Ends s

label_tail_sound :
    (c : Char) (s : String)
    → label_tail (c ∷ s) ≡ true
    → AllCodes IsLabelChar (c ∷ s) × Ends (c ∷ s)
unfolding label_tail
label_tail_sound c [] h = ground arith
label_tail_sound c (d ∷ s) h = ground (arith, label_tail_sound d s)

label_tail_complete :
    (c : Char) (s : String)
    → AllCodes IsLabelChar (c ∷ s)
    → Ends (c ∷ s)
    → label_tail (c ∷ s) ≡ true
unfolding label_tail
label_tail_complete c [] h e = ground arith
label_tail_complete c (d ∷ s) (h, hs) e = ground (arith, label_tail_complete d s hs e)

-- The test that stands for the regular expression holds of the nonempty texts of lower case letters, digits
-- and dashes with no dash at either end, of any length, and of them only.
pub is_label_iff : (s : String) → (is_label s ≡ true) ↔ IsLabel s
unfolding is_label
is_label_iff [] = (λ h. cc, λ h. absurd h.1)
is_label_iff (c ∷ []) = (λ h. ground arith, λ h. ground arith)
is_label_iff (c ∷ d ∷ s) = (
  λ h. ground (arith, label_tail_sound d s),
  λ (h, a, e). ground (arith, label_tail_complete d s h.1 e),
)

-- An interface name of at most 15 bytes, with no slash and no ASCII white space.
abbrev pub IsIfname : String → Type 0
IsIfname s = (len s ≤ 15) × AllCodes (λ c. is_bad_in_ifname c ≡ false) s

AllCodes-contains_any :
    (p : ℕ → Bool) (s : String) → contains_any p s ≡ false → AllCodes (λ c. p c ≡ false) s
unfolding contains_any
AllCodes-contains_any p [] h = tt
AllCodes-contains_any p (c ∷ s) h = ground (arith, AllCodes-contains_any p s)

pub contains_any-AllCodes :
    (p : ℕ → Bool) (s : String) → AllCodes (λ c. p c ≡ false) s → contains_any p s ≡ false
unfolding contains_any
contains_any-AllCodes p [] h = refl
contains_any-AllCodes p (c ∷ s) (h, hs) = rw h (contains_any-AllCodes p s hs)

check_item_sound : (item : String) → check_item item ≡ ok tt → (item ≡ "") ⊎ IsLabel item
unfolding check_item
check_item_sound item h = ground (arith, (is_label_iff item).0)

check_ifname_sound : (name : String) → check_ifname name ≡ ok tt → (name ≡ "") ⊎ IsIfname name
unfolding check_ifname
check_ifname_sound name h = ground (arith, AllCodes-contains_any is_bad_in_ifname name)

check_names_sound :
    (ns name ifname ns' name' ifname' : String)
    → check_names ns (name, ifname) ≡ ok (ns', name', ifname')
    → ((ns' ≡ "") ⊎ IsLabel ns')
      × ((name' ≡ "") ⊎ IsLabel name')
      × ((ifname' ≡ "") ⊎ IsIfname ifname')
unfolding check_names
check_names_sound ns name ifname ns' name' ifname' h =
    let (_, e, h₁) = >>=-eq-ok (check_item ns) _ h in
    let (_, e₁, h₂) = >>=-eq-ok (check_item name) _ h₁ in
    let (_, e₂, h₃) = >>=-eq-ok (check_ifname ifname) _ h₂ in
    ground
      (arith, check_item_sound ns e, check_item_sound name e₁, check_ifname_sound ifname e₂, h₃)

-- Each part that an accepted object name yields is empty or well formed: the namespace and the
-- network are labels, the interface name has at most 15 bytes, no slash and no white space.
parse_pod_network_object_name_sound :
    (podnetwork ns name ifname : String)
    → parse_pod_network_object_name podnetwork ≡ ok (ns, name, ifname)
    → ((ns ≡ "") ⊎ IsLabel ns) × ((name ≡ "") ⊎ IsLabel name) × ((ifname ≡ "") ⊎ IsIfname ifname)
unfolding parse_pod_network_object_name
parse_pod_network_object_name_sound podnetwork ns name ifname h =
    let ((_, network), _, h₁) = >>=-eq-ok (split_namespace (split b'/' podnetwork)) _ h in
    let ((_, _), _, h₂) = >>=-eq-ok (split_interface (split b'@' network)) _ h₁ in
    check_names_sound _ _ _ ns name ifname h₂
