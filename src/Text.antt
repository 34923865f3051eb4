-- ===== src/Text.antt =====
-- The functions of package strings that the source calls, over the characters of a text.
pub mod Split
use Prim.Native.Char.{Char, code}
use Prim.Native.String.{[], ◌∷◌}
use multus_cni.Base.{
  ℕ, String, Bool, true, false, ◌&&◌, ◌||◌, Option, none, some, List, [], ◌∷◌, ◌==◌, nat_eq,
  string_eq, leb, if◌then◌else◌,
}

-- unicode.IsSpace
abbrev is_space_code : ℕ → Bool
is_space_code c =
    (leb 9 c && leb c 13)
    || c == 32
    || c == 0x85
    || c == 0xa0
    || c == 0x1680
    || (leb 0x2000 c && leb c 0x200a)
    || c == 0x2028
    || c == 0x2029
    || c == 0x202f
    || c == 0x205f
    || c == 0x3000

unfoldable pub is_space : Char → Bool
is_space c = is_space_code (code c)

abbrev add_first : Char → List String → List String
add_first c [] = (c ∷ []) ∷ []
add_first c (p ∷ parts) = (c ∷ p) ∷ parts

-- strings.Split at a separator of one character.
unfoldable pub split : ℕ → String → List String
split sep [] = [] ∷ []
split sep (c ∷ s) =
    let parts = split sep s in if code c == sep then [] ∷ parts else add_first c parts

abbrev add_front : Char → String × Option String → String × Option String
add_front c (front, back) = (c ∷ front, back)

-- strings.SplitN(s, sep, 2): the text before the first separator, and the text behind it.
unfoldable pub split_once : ℕ → String → String × Option String
split_once sep [] = ([], none)
split_once sep (c ∷ s) =
    let rest = split_once sep s in if code c == sep then ([], some s) else add_front c rest

trim_left : String → String
trim_left [] = []
trim_left (c ∷ s) = let rest = trim_left s in if is_space c then rest else c ∷ s

-- Keeps a character if it is no space or if something is kept behind it.
abbrev keep_front : Char → String → String
keep_front c [] = if is_space c then [] else c ∷ []
keep_front c (d ∷ s) = c ∷ d ∷ s

trim_right : String → String
trim_right [] = []
trim_right (c ∷ s) = keep_front c (trim_right s)

-- strings.TrimSpace
unfoldable pub trim_space : String → String
unfolding trim_left trim_right is_space
trim_space s = trim_right (trim_left s)

-- strings.HasSuffix
unfoldable pub ends_with : String → String → Bool
ends_with suffix [] = suffix == []
ends_with suffix (c ∷ s) = let rest = ends_with suffix s in if suffix == c ∷ s then true else rest

-- strings.ContainsAny, over a test for the characters that are looked for.
unfoldable pub contains_any : (ℕ → Bool) → String → Bool
contains_any p [] = false
contains_any p (c ∷ s) = p (code c) || contains_any p s

unfoldable pub starts_with : String → String → Bool
starts_with [] s = true
starts_with (c ∷ prefix) [] = false
starts_with (c ∷ prefix) (d ∷ s) = code c == code d && starts_with prefix s

-- strings.Contains
unfoldable pub contains_text : String → String → Bool
unfolding starts_with
contains_text part [] = part == []
contains_text part (c ∷ s) = starts_with part (c ∷ s) || contains_text part s

-- Every character of the text has a code with the property.
abbrev pub AllCodes {κ} : (ℕ → Type κ) → String → Type κ
AllCodes P [] = Unit
AllCodes P (c ∷ s) = P (code c) × AllCodes P s
