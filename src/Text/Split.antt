-- ===== src/Text/Split.antt =====
-- Splitting at a separator that a part lacks, and trimming a text that has no space.
use Prim.Native.Char.{Char, code}
use Prim.Native.String.{[], ◌∷◌}
use text.Mathlib.TextLemmas.{nil-append, cons-append}
use multus_cni.Base.{ℕ, String, ◌<>◌, ◌≡◌, refl, ◌≢◌, ◌∙◌, false, [], ◌∷◌, arith, nat_eq, ap}
use multus_cni.Text.{is_space, split, trim_left, trim_right, trim_space, keep_front, AllCodes}

abbrev pub Lacks : ℕ → String → Type 0
Lacks sep = AllCodes (λ c. c ≢ sep)

-- `d` stands for the separator itself.
pub split-append :
    (sep : ℕ) (d : Char) (s t : String)
    → code d ≡ sep
    → Lacks sep s
    → split sep (s <> (d ∷ t)) ≡ s ∷ split sep t
unfolding split
split-append sep d [] t e _ = rw nil-append (ground arith)
split-append sep d (c ∷ s) t e (h, hs) =
    rw cons-append (ground (arith, split-append sep d s t e hs))

pub split-Lacks : (sep : ℕ) (s : String) → Lacks sep s → split sep s ≡ s ∷ []
unfolding split
split-Lacks sep [] _ = refl
split-Lacks sep (c ∷ s) (h, hs) = ground (arith, split-Lacks sep s hs)

abbrev pub NoSpaces : String → Type 0
NoSpaces [] = Unit
NoSpaces (c ∷ s) = (is_space c ≡ false) × NoSpaces s

trim_left-NoSpaces : (s : String) → NoSpaces s → trim_left s ≡ s
unfolding trim_left
trim_left-NoSpaces [] _ = refl
trim_left-NoSpaces (c ∷ s) (h, _) = rw h

trim_right-NoSpaces : (s : String) → NoSpaces s → trim_right s ≡ s
unfolding trim_right
trim_right-NoSpaces [] _ = refl
trim_right-NoSpaces (c ∷ []) (h, _) = rw h
trim_right-NoSpaces (c ∷ d ∷ s) (h, hs) = ap (keep_front c) (trim_right-NoSpaces (d ∷ s) hs)

pub trim_space-NoSpaces : (s : String) → NoSpaces s → trim_space s ≡ s
unfolding trim_space
trim_space-NoSpaces s h = ap trim_right (trim_left-NoSpaces s h) ∙ trim_right-NoSpaces s h
