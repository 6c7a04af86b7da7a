-- ===== src/Base/Throw.antt =====
-- What a run of C++ code comes to: a value, an exception, the end of the process by
-- std::terminate(), or a use of an object that is not there, which C++ leaves undefined.
use mathlib.Core.Path.{◌≡◌}

-- The exceptions that the sources throw, by the text or the call that they name.
pub data Error : Type 0 where
  size_may_not_be_nil : Error
  stack_is_misaligned : Error
  posix_memalign_failed : Error
  failed_to_allocate_stack : Error
  failed_to_allocate_call_info : Error
  failed_to_allocate_context : Error
  getcontext_failed : Error
  sigaltstack_failed : Error
  sigaction_failed : Error
  raise_failed : Error
  out_of_range : Error

pub data Outcome {ℓ} (A : Type ℓ) : Type ℓ where
  ok : A → Outcome A
  throws : Error → Outcome A
  terminated : Outcome A
  undefined : Outcome A

infixl 5 ◌>>=◌ ◌>>◌
abbrev pub ◌>>=◌ {ℓ κ} : {A : Type ℓ} {B : Type κ} → Outcome A → (A → Outcome B) → Outcome B
ok a >>= f = f a
throws e >>= f = throws e
terminated >>= f = terminated
undefined >>= f = undefined

abbrev pub ◌>>◌ {ℓ} : {B : Type ℓ} → Outcome (Unit {0}) → Outcome B → Outcome B
m >> k = m >>= λ _. k

pub ok-inj {ℓ} : {A : Type ℓ} {x y : A} → ok x ≡ ok y → x ≡ y
ok-inj e = cc

pub ok-not_throws {ℓ} : {A : Type ℓ} {x : A} {e : Error} → ok x ≡ throws e → ⊥
ok-not_throws e = cc
