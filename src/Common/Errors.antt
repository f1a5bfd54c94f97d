-- ===== src/Common/Errors.antt =====
-- Go's pair of a value and an error: `err e` for a non-nil error.
use mathlib.Core.Path.{◌≡◌, refl}
use mathlib.Core.Bool.{Bool, true, false}
use mathlib.Core.Logic.{◌↔◌, ◌⊎◌, inl, inr}

pub data Result {ℓ} (E : Type 0) (A : Type ℓ) : Type ℓ where
  ok : A → Result E A
  err : E → Result E A

-- `if failed { return err }`
abbrev pub fail_if : {E : Type 0} → Bool → E → Result E (Unit {0})
fail_if failed e = elim failed [ true ↦ err e | false ↦ ok tt ]

infixl 5 ◌>>=◌ ◌>>◌
abbrev pub ◌>>=◌ {ℓ κ} :
    {E : Type 0} {A : Type ℓ} {B : Type κ} → Result E A → (A → Result E B) → Result E B
r >>= k = elim r [ ok a ↦ k a | err e ↦ err e ]

abbrev pub ◌>>◌ {ℓ} : {E : Type 0} {B : Type ℓ} → Result E (Unit {0}) → Result E B → Result E B
r >> next = r >>= λ done. next

-- `fmt.Errorf("...: %w", err)`
abbrev pub wrap_err {ℓ} : {E F : Type 0} {A : Type ℓ} → (E → F) → Result E A → Result F A
wrap_err f (ok a) = ok a
wrap_err f (err e) = err (f e)

abbrev pub is_ok {ℓ} : {E : Type 0} {A : Type ℓ} → Result E A → Bool
is_ok (ok a) = true
is_ok (err e) = false

-- Both steps of a chain that returns a value have returned one.
pub >>=-eq-ok {ℓ κ} :
    {E : Type 0} {A : Type ℓ} {B : Type κ} (r : Result E A) (k : A → Result E B) {last : B}
    → (r >>= k) ≡ ok last
    → (first : A) × (r ≡ ok first) × (k first ≡ ok last)
>>=-eq-ok (ok a) k h = (a, refl, h)
>>=-eq-ok (err e) k h = cc

pub wrap_err-eq-ok {ℓ} :
    {E F : Type 0} {A : Type ℓ} (f : E → F) (r : Result E A) {a : A}
    → (wrap_err f r ≡ ok a) ↔ (r ≡ ok a)
wrap_err-eq-ok f (ok x) = (λ h. cc, λ h. cc)
wrap_err-eq-ok f (err e) = (λ h. cc, λ h. cc)

pub fail_if-eq-ok {ℓ} :
    {E : Type 0} {A : Type ℓ} (b : Bool) (x : E) (k : Result E A) {a : A}
    → (fail_if b x >> k ≡ ok a) ↔ ((b ≡ false) × (k ≡ ok a))
fail_if-eq-ok true x k = (λ h. cc, λ h. cc)
fail_if-eq-ok false x k = (λ h. (refl, h), λ h. h.1)

-- To split on a computed result and keep the equation.
pub Result-cases {ℓ} :
    {E : Type 0} {A : Type ℓ} (r : Result E A) → ((a : A) × (r ≡ ok a)) ⊎ ((e : E) × (r ≡ err e))
Result-cases (ok a) = inl (a, refl)
Result-cases (err e) = inr (e, refl)
