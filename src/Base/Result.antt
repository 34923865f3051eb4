-- ===== src/Base/Result.antt =====
-- What a Go function with an `error` result returns: a value, an error, or a panic that unwinds.
use Prim.Native.String.{String, ◌++◌ as ◌<>◌}
use mathlib.Core.Path.{◌≡◌, refl, subst}
use mathlib.Core.Option.{Option, none, some}

-- What the callers can tell of an error besides its text: the Kubernetes and `os` predicates on
-- errors, and the type `NoK8sNetworkError` of the source.
pub data Kind : Type 0 where
  plain not_found not_exist unavailable internal reset refused no_network : Kind

pub record Error : Type 0 where
  pub kind : Kind
  pub text : String

-- `fmt.Errorf` and `logging.Errorf` with `%v` keep the text of the inner error, and lose its kind.
abbrev pub errorf : String → Error
errorf text = record { kind = Kind.plain; text = text }

abbrev pub wrap : String → Error → Error
wrap prefix e = errorf (prefix <> e.text)

pub data Result {ℓ} (A : Type ℓ) : Type ℓ where
  panic : Result A
  ok : A → Result A
  err : Error → Result A

infixl 5 ◌>>=◌ ◌>>◌
abbrev pub ◌>>=◌ {ℓ κ} : {A : Type ℓ} {B : Type κ} → Result A → (A → Result B) → Result B
panic >>= k = panic
err failure >>= k = err failure
ok value >>= k = k value

abbrev pub ◌>>◌ {ℓ} : {A : Type ℓ} → Result (Unit {0}) → Result A → Result A
check >> rest = check >>= λ _. rest

-- `if err != nil { return errorf(…, err) }`
abbrev pub context {ℓ} : {A : Type ℓ} → String → Result A → Result A
context prefix (ok a) = ok a
context prefix (err e) = err (wrap prefix e)
context prefix panic = panic

-- A third-party call that fails with an error, seen as a result.
abbrev pub or_err {ℓ} : {A : Type ℓ} → String → Option A → Result A
or_err text none = err (errorf text)
or_err text (some a) = ok a

-- An access that panics where there is nothing: a nil pointer, an index, a type assertion.
abbrev pub or_panic {ℓ} : {A : Type ℓ} → Option A → Result A
or_panic none = panic
or_panic (some a) = ok a

-- Inversion of a successful bind, for proofs where the parts stay shut.
pub >>=-eq-ok {ℓ κ} :
    {A : Type ℓ} {B : Type κ} {result : B} (r : Result A) (k : A → Result B)
    → (r >>= k) ≡ ok result
    → (value : A) × (r ≡ ok value) × (k value ≡ ok result)
>>=-eq-ok panic k e = cc
>>=-eq-ok (err failure) k e = cc
>>=-eq-ok (ok value) k e = (value, refl, e)

pub context-eq-ok {ℓ} :
    {A : Type ℓ} (prefix : String) (m : Result A) {a : A} → context prefix m ≡ ok a → m ≡ ok a
context-eq-ok prefix (ok a) h = h
context-eq-ok prefix (err e) h = cc
context-eq-ok prefix panic h = cc

pub ok-injective {ℓ} : {A : Type ℓ} {a b : A} → ok a ≡ ok b → a ≡ b
ok-injective h = cc

-- A postcondition of the value, if one is returned, and its rules for the chains above.
pub data Ensures {ℓ κ} {A : Type ℓ} (P : A → Type κ) : Result A → Type (ℓ ⊔ κ) where
  returns : {a : A} → P a → Ensures P (ok a)
  fails : {e : Error} → Ensures P (err e)
  panics : Ensures P panic

module _ {ℓ κ μ} {A : Type ℓ} {B : Type κ} {Q : B → Type μ} where
  pub Ensures-after :
      (m : Result A) {f : A → Result B} → ((a : A) → Ensures Q (f a)) → Ensures Q (m >>= f)
  Ensures-after (ok a) h = h a
  Ensures-after (err e) h = fails
  Ensures-after panic h = panics

  pub Ensures-bind {ν} :
      {P : A → Type ν} {m : Result A} {f : A → Result B}
      → Ensures P m
      → ((a : A) → P a → Ensures Q (f a))
      → Ensures Q (m >>= f)
  Ensures-bind (returns p) h = h _ p
  Ensures-bind fails h = fails
  Ensures-bind panics h = panics

module _ {ℓ κ} {A : Type ℓ} {P : A → Type κ} where
  pub Ensures-context :
      (prefix : String) {m : Result A} → Ensures P m → Ensures P (context prefix m)
  Ensures-context prefix (returns p) = returns p
  Ensures-context prefix fails = fails
  Ensures-context prefix panics = panics

  pub of_Ensures : {m : Result A} {a : A} → Ensures P m → m ≡ ok a → P a
  of_Ensures (returns p) e = subst P (ok-injective e) p
  of_Ensures fails e = cc
  of_Ensures panics e = cc

module _ {ℓ κ μ} {A : Type ℓ} {P : A → Type κ} {Q : A → Type μ} where
  pub Ensures-map : {m : Result A} → ((a : A) → P a → Q a) → Ensures P m → Ensures Q m
  Ensures-map f (returns p) = returns (f _ p)
  Ensures-map f fails = fails
  Ensures-map f panics = panics

pub Ensures-of {ℓ κ} :
    {A : Type ℓ} {P : A → Type κ} {m : Result A} → ((a : A) → m ≡ ok a → P a) → Ensures P m
Ensures-of {m = ok a} h = returns (h a refl)
Ensures-of {m = err e} h = fails
Ensures-of {m = panic} h = panics
