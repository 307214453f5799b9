-- ===== src/Throughput/Holds.antt =====
-- What holds of the value that a function of the server returns.
use nycu_intro_np.Prelude.{Bool, true, false, nat_eq, if◌then◌else◌}
use nycu_intro_np.Throughput.{Outcome, returns, exits, fault, ◌>>=◌}

-- What holds of the value that a function returns, where it ends the program or returns.
abbrev pub Holds {ℓ} : {A : Type ℓ} → (A → Type 0) → Outcome A → Type 0
Holds P (returns a) = P a
Holds P exits = Unit
Holds P fault = ⊥

pub Holds-bind {ℓ κ} :
    {A : Type ℓ} {B : Type κ} (P : A → Type 0) (Q : B → Type 0) (m : Outcome A) (f : A → Outcome B)
    → Holds P m
    → ((a : A) → P a → Holds Q (f a))
    → Holds Q (m >>= f)
Holds-bind P Q (returns a) f h next = next a h
Holds-bind P Q exits f h next = tt
Holds-bind P Q fault f h next = h

pub Holds-implies {ℓ} :
    {A : Type ℓ} (P Q : A → Type 0) (m : Outcome A) → Holds P m → ((a : A) → P a → Q a) → Holds Q m
Holds-implies P Q (returns a) h next = next a h
Holds-implies P Q exits h next = tt
Holds-implies P Q fault h next = h

pub Holds-if {ℓ} :
    {A : Type ℓ} (P : A → Type 0) (b : Bool) (x y : Outcome A)
    → Holds P x
    → Holds P y
    → Holds P (if b then x else y)
Holds-if P true x y hx hy = hx
Holds-if P false x y hx hy = hy
