-- ===== src/Errors.antt =====
-- The errors of the tools: FrontendError with its stable codes, AnalysisError, ProvenanceError,
-- and the other exceptions that their functions raise. The message of an error is left out.
use mos_agondev.Prelude.{
  Bool, Option, ap, arith, false, inl, inr, none, not, refl, some, true, ℕ, ◌≡◌, ◌⊎◌,
}
use mos_agondev.Text.{Str}

pub data Code : Type 0 where
  nested_macro macro_params duplicate_macro orphan_macro_end unterminated_macro : Code
  nonconstant_structure_size nested_structure duplicate_structure structure_name_mismatch : Code
  unknown_structure_tag unsupported_structure_member duplicate_structure_member : Code
  unterminated_structure scope_in_macro section_redefinition conflicting_equate : Code
  duplicate_macro_local macro_local_outside_macro scoped_local_in_macro duplicate_local : Code
  unresolved_local unresolved_macro_local unresolved_anonymous unsupported_dollar : Code

pub record FrontendError : Type 0 where
  pub source : Str
  pub line : ℕ
  pub code : Code

pub data Fault : Type 0 where
  frontend : FrontendError → Fault
  value_error key_error analysis_error provenance_error : Fault

pub data Result {ℓ} (A : Type ℓ) : Type ℓ where
  ok : A → Result A
  err : Fault → Result A

infixl 5 ◌>>=◌ ◌>>◌
abbrev pub ◌>>=◌ {ℓ κ} : {A : Type ℓ} {B : Type κ} → Result A → (A → Result B) → Result B
ok a >>= f = f a
err e >>= f = err e

-- `raise FrontendError(source, line, code, message)`
abbrev pub raise {ℓ} : {A : Type ℓ} → Str → ℕ → Code → Result A
raise source line code = err (frontend (record { source = source; line = line; code = code }))

-- `if test: raise error`
abbrev pub fail_if : Bool → Fault → Result (Unit {0})
fail_if true e = err e
fail_if false e = ok tt

abbrev pub ◌>>◌ {ℓ} : {B : Type ℓ} → Result (Unit {0}) → Result B → Result B
m >> k = m >>= λ _. k

-- `d[k]`
abbrev pub from_option {ℓ} : {A : Type ℓ} → Fault → Option A → Result A
from_option e none = err e
from_option e (some a) = ok a

pub bind-eq-ok {ℓ κ} :
    {A : Type ℓ} {B : Type κ} (first : Result A) (next : A → Result B) {value : B}
    → first >>= next ≡ ok value
    → (a : A) × (first ≡ ok a) × (next a ≡ ok value)
bind-eq-ok (err fault) next h = cc
bind-eq-ok (ok a) next h = (a, refl, h)

pub from_option-eq-ok {ℓ} :
    {A : Type ℓ} (fault : Fault) (o : Option A) {a : A} → from_option fault o ≡ ok a → o ≡ some a
from_option-eq-ok fault none h = cc
from_option-eq-ok fault (some b) h = ground arith

-- A test that is passed on the way to a result.
pub fail_if-not-ok : (b : Bool) (fault : Fault) → fail_if (not b) fault ≡ ok tt → b ≡ true
fail_if-not-ok true fault h = refl
fail_if-not-ok false fault h = cc

pub fail_if-ok : (b : Bool) (fault : Fault) → fail_if b fault ≡ ok tt → b ≡ false
fail_if-ok true fault h = cc
fail_if-ok false fault h = refl

pub ok-injective {ℓ} : {A : Type ℓ} (a b : A) → ok a ≡ ok b → a ≡ b
ok-injective a b h = ground arith

-- Two steps that do not depend on each other, and a value made of both results.
pub bind_two-eq-ok {ℓ κ η} :
    {A : Type ℓ} {B : Type κ} {C : Type η} (first : Result A) (second : Result B) (f : A → B → C)
    {value : C}
    → (first >>= λ a. second >>= λ b. ok (f a b)) ≡ ok value
    → (a : A) × (b : B) × (first ≡ ok a) × (second ≡ ok b) × (f a b ≡ value)
bind_two-eq-ok (err fault) second f h = cc
bind_two-eq-ok (ok a) (err fault) f h = cc
bind_two-eq-ok (ok a) (ok b) f h = (a, b, refl, refl, ok-injective _ _ h)

-- A test in front of a result.
pub fail_if-then-ok {ℓ} :
    {A : Type ℓ} (b : Bool) (fault : Fault) (x : A) {y : A}
    → fail_if b fault >> ok x ≡ ok y
    → (b ≡ false) × (x ≡ y)
fail_if-then-ok true fault x h = cc
fail_if-then-ok false fault x h = (refl, ok-injective _ _ h)

pub fail_if-next-ok {ℓ} :
    {A : Type ℓ} (b : Bool) (fault : Fault) (next : Result A) {value : A}
    → fail_if b fault >> next ≡ ok value
    → (b ≡ false) × (next ≡ ok value)
fail_if-next-ok true fault next h = cc
fail_if-next-ok false fault next h = (refl, h)

-- the fault of an error, whatever its result would be
abbrev fault_of {ℓ} : {A : Type ℓ} → Fault → Result A → Fault
fault_of other (err e) = e
fault_of other (ok a) = other

err-injective {ℓ} : {A : Type ℓ} (e f : Fault) → ◌≡◌ {A = Result A} (err e) (err f) → e ≡ f
err-injective e f h = ap (fault_of e) h

pub bind_two-eq-err {ℓ κ η} :
    {A : Type ℓ} {B : Type κ} {C : Type η} (first : Result A) (second : Result B) (f : A → B → C)
    {fault : Fault}
    → (first >>= λ a. second >>= λ b. ok (f a b)) ≡ err fault
    → (first ≡ err fault) ⊎ (second ≡ err fault)
bind_two-eq-err (err e) second f h = inl (ap err (err-injective e _ h))
bind_two-eq-err (ok a) (err e) f h = inr (ap err (err-injective e _ h))
bind_two-eq-err (ok a) (ok b) f h = cc
