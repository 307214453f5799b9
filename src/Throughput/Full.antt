-- ===== src/Throughput/Full.antt =====
-- A read of commands that fills the buffer of a line.
use nycu_intro_np.Prelude.{◌≡◌, false, Bytes, codes, equal, nat_eq}
use nycu_intro_np.Throughput.{Outcome, returns, exits, fault}

abbrev Returns {ℓ} : {A : Type ℓ} → Outcome A → Type 0
Returns (returns a) = Unit
Returns exits = ⊥
Returns fault = ⊥

-- A token that does not end the server.
abbrev pub IsHarmless : Bytes → Type 0
IsHarmless token = equal token (codes "/exit") ≡ false
