-- ===== src/Base/Outcome.antt =====
-- A result with the state behind it, which stays also behind an error.
use mathlib.Core.Path.{◌≡◌, refl, subst}
use multus_cni.Base.Result.{Result, ok, err, panic, Error, Ensures, returns, fails, panics}

abbrev pub Outcome {ℓ κ} : Type ℓ → Type κ → Type (ℓ ⊔ κ)
Outcome S A = Result A × S

-- What follows on a value; an error and a panic end the run.
abbrev pub next {ℓ κ μ} :
    {S : Type ℓ} {A : Type κ} {B : Type μ} → (A → S → Outcome S B) → Outcome S A → Outcome S B
next f (ok a, s) = f a s
next f (err e, s) = (err e, s)
next f (panic, s) = (panic, s)

abbrev pub and_then {ℓ κ μ} :
    {S : Type ℓ} {A : Type κ} {B : Type μ} → Outcome S A → (A → S → Outcome S B) → Outcome S B
and_then x f = next f x

-- A postcondition of the value and of the state behind it.
pub data Yields {ℓ κ μ} {S : Type ℓ} {A : Type κ} (P : A → S → Type μ)
    : Outcome S A → Type (ℓ ⊔ κ ⊔ μ) where
  gives : {a : A} {s : S} → P a s → Yields P (ok a, s)
  errs : {e : Error} {s : S} → Yields P (err e, s)
  unwinds : {s : S} → Yields P (panic, s)

module _ {ℓ κ μ} {S : Type ℓ} {A : Type κ} where
  pub Yields-Ensures :
      {P : A → S → Type μ} {s : S} {x : Result A} → Ensures (λ a. P a s) x → Yields P (x, s)
  Yields-Ensures (returns p) = gives p
  Yields-Ensures fails = errs
  Yields-Ensures panics = unwinds

  pub Yields-map {ν} :
      {P : A → S → Type μ} {Q : A → S → Type ν} {x : Outcome S A}
      → ((a : A) (s : S) → P a s → Q a s)
      → Yields P x
      → Yields Q x
  Yields-map f (gives p) = gives (f _ _ p)
  Yields-map f errs = errs
  Yields-map f unwinds = unwinds

module _ {ℓ κ μ} {S : Type ℓ} {A : Type κ} {B : Type μ} where
  pub Yields-next {ν ξ} :
      {P : A → S → Type ν} {Q : B → S → Type ξ} {x : Outcome S A} {f : A → S → Outcome S B}
      → Yields P x
      → ((a : A) (s : S) → P a s → Yields Q (f a s))
      → Yields Q (next f x)
  Yields-next (gives p) h = h _ _ p
  Yields-next errs h = errs
  Yields-next unwinds h = unwinds

  pub Yields-then {ν} :
      {Q : B → S → Type ν} (x : Outcome S A) (f : A → S → Outcome S B)
      → ((a : A) (s : S) → Yields Q (f a s))
      → Yields Q (next f x)
  Yields-then (ok a, s) f h = h a s
  Yields-then (err e, s) f h = errs
  Yields-then (panic, s) f h = unwinds

  pub Yields-after {ν} :
      {Q : B → S → Type ν} (x : Result A) {s : S} (f : A → S → Outcome S B)
      → ((a : A) → Yields Q (f a s))
      → Yields Q (next f (x, s))
  Yields-after (ok a) f h = h a
  Yields-after (err e) f h = errs
  Yields-after panic f h = unwinds

module _ {ℓ κ μ} {S : Type ℓ} {A : Type κ} {B : Type μ} where
  pub Yields-from {ν ξ} :
      {P : A → Type ν} {Q : B → S → Type ξ} {x : Result A} {s : S} (f : A → S → Outcome S B)
      → Ensures P x
      → ((a : A) → P a → Yields Q (f a s))
      → Yields Q (next f (x, s))
  Yields-from f (returns p) h = h _ p
  Yields-from f fails h = errs
  Yields-from f panics h = unwinds

abbrev Holds {ℓ κ μ} : {S : Type ℓ} {A : Type κ} → (A → S → Type μ) → Outcome S A → Type μ
Holds P (ok a, s) = P a s
Holds P (err e, s) = Unit
Holds P (panic, s) = Unit

module _ {ℓ κ μ} {S : Type ℓ} {A : Type κ} {P : A → S → Type μ} where
  Yields-Holds : {x : Outcome S A} → Yields P x → Holds P x
  Yields-Holds (gives p) = p
  Yields-Holds errs = tt
  Yields-Holds unwinds = tt

  pub of_Yields : {x : Outcome S A} {a : A} {s : S} → Yields P x → x ≡ (ok a, s) → P a s
  of_Yields y e = subst (λ z. Holds P z) e (Yields-Holds y)

pub Yields-of {ℓ κ μ} :
    {S : Type ℓ} {A : Type κ} {P : A → S → Type μ} (x : Outcome S A)
    → ((a : A) (s : S) → x ≡ (ok a, s) → P a s)
    → Yields P x
Yields-of (ok a, s) h = gives (h a s refl)
Yields-of (err e, s) h = errs
Yields-of (panic, s) h = unwinds

pub Yields-lift {ℓ κ μ} :
    {S : Type ℓ} {A : Type κ} {P : S → Type μ} {s : S} (r : Result A) → P s → Yields (λ _. P) (r, s)
Yields-lift (ok a) h = gives h
Yields-lift (err e) h = errs
Yields-lift panic h = unwinds
