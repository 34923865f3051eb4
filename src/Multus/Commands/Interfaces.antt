-- ===== src/Multus/Commands/Interfaces.antt =====
-- The names of the interfaces of a container.
use Prim.Native.Char.{code}
use Prim.Native.String.{[], ◌∷◌}
use text.Mathlib.TextLemmas.{nil-append, cons-append}
use multus_cni.Base.{
  ℕ, zero, suc, ◌+◌, ◌-◌, ◌*◌, ◌/◌, ◌%◌, ◌<◌, String, ◌<>◌, ◌≡◌, ◌≢◌, refl, sym, ap, ◌∙◌, false,
  ltb, string_eq, inl, inr, arith, Bool-cases,
}
use multus_cni.Types.{DelegateNetConf}
use multus_cni.Multus.Commands.{digit, digits, get_ifname}

-- The number that decimal digits write, behind a number that is read already.
value : ℕ → String → ℕ
value acc [] = acc
value acc (c ∷ s) = value (acc * 10 + (code c - 48)) s

value-append : (acc : ℕ) (s t : String) → value acc (s <> t) ≡ value (value acc s) t
unfolding value
value-append acc [] t = rw (nil-append t) refl
value-append acc (c ∷ s) t = rw (cons-append c s t) (value-append (acc * 10 + (code c - 48)) s t)

value-digit : (acc n : ℕ) → n < 10 → value acc (digit n) ≡ acc * 10 + n
unfolding value
value-digit acc zero h = omega arith
value-digit acc (suc zero) h = omega arith
value-digit acc (suc (suc zero)) h = omega arith
value-digit acc (suc (suc (suc zero))) h = omega arith
value-digit acc (suc (suc (suc (suc zero)))) h = omega arith
value-digit acc (suc (suc (suc (suc (suc zero))))) h = omega arith
value-digit acc (suc (suc (suc (suc (suc (suc zero)))))) h = omega arith
value-digit acc (suc (suc (suc (suc (suc (suc (suc zero))))))) h = omega arith
value-digit acc (suc (suc (suc (suc (suc (suc (suc (suc zero)))))))) h = omega arith
value-digit acc (suc (suc (suc (suc (suc (suc (suc (suc (suc zero))))))))) h = omega arith
value-digit acc (suc (suc (suc (suc (suc (suc (suc (suc (suc (suc n)))))))))) h =
    absurd (omega (arith, h))

-- With fuel above the number the digits are all there.
value-digits : (fuel n : ℕ) → n < fuel → value 0 (digits fuel n) ≡ n
unfolding digits
value-digits zero n h = absurd (omega (arith, h))
value-digits (suc fuel) n h = elim (Bool-cases (ltb n 10)) [
  | inl small ↦ rw small (value-digit 0 n (ground arith) ∙ omega arith)
  | inr large ↦ rw large (
      value-append 0 (digits fuel (n / 10)) (digit (n % 10))
      ∙ (ap (λ v. value v (digit (n % 10))) (value-digits fuel (n / 10) (ground arith))
          ∙ (value-digit (n / 10) (n % 10) (ground arith) ∙ omega arith)))
]

behind_net : String → String
behind_net (_ ∷ _ ∷ _ ∷ s) = s
behind_net s = s

behind_net-net : (s : String) → behind_net ("net" <> s) ≡ s
unfolding behind_net
behind_net-net s =
    rw (cons-append "n" "et" s)
      (rw (cons-append "e" "t" s) (rw (cons-append "t" "" s) (nil-append s)))

abbrev pub IsUnnamed : DelegateNetConf → Type 0
IsUnnamed d = (d.ifname_request ≡ "") × (d.master_plugin ≡ false)

get_ifname-digits :
    (d : DelegateNetConf) (argif : String) (i : ℕ)
    → IsUnnamed d
    → value 0 (behind_net (get_ifname d argif i)) ≡ i
unfolding get_ifname string_eq
get_ifname-digits d argif i (unnamed, slave) =
    rw (unnamed, slave)
      (ap (λ s. value 0 s) (behind_net-net (digits (i + 1) i))
        ∙ value-digits (i + 1) i (omega arith))

-- The interfaces of two delegates that request no name and are not the master have different names
-- where the delegates stand at different places.
pub get_ifname-distinct :
    (d e : DelegateNetConf) (argif : String) (i j : ℕ)
    → IsUnnamed d
    → IsUnnamed e
    → i ≢ j
    → get_ifname d argif i ≢ get_ifname e argif j
get_ifname-distinct d e argif i j u v differ same = differ (
    sym (get_ifname-digits d argif i u)
    ∙ (ap (λ s. value 0 (behind_net s)) same ∙ get_ifname-digits e argif j v))
