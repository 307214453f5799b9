-- ===== src/Dnsd/Result.antt =====
-- The exceptions of Homework/2/dnsd/include/utils.hpp, as results.
use nycu_intro_np.Prelude.{Option, none, some}

-- The exception classes.
pub data Exception : Type 0 where
  format_error server_failure name_error not_implemented forward : Exception

-- A value, an exception, or undefined behaviour.
pub data Result {ℓ} (A : Type ℓ) : Type ℓ where
  ok : A → Result A
  err : Exception → Result A
  fault : Result A

infixl 5 ◌>>=◌
abbrev pub ◌>>=◌ {ℓ κ} : {A : Type ℓ} {B : Type κ} → Result A → (A → Result B) → Result B
ok a >>= f = f a
err e >>= f = err e
fault >>= f = fault

abbrev pub from_option {ℓ} : {A : Type ℓ} → Option A → Result A
from_option none = fault
from_option (some a) = ok a

abbrev pub or_throw {ℓ} : {A : Type ℓ} → Option A → Exception → Result A
or_throw none e = err e
or_throw (some a) e = ok a
