-- ===== src/Prelude/Maps.antt =====
-- `std::map` and `std::unordered_map` as association lists. The order of the list is the order in
-- which the program walks the map.
use Prim.Native.Nat.{ℕ, ◌+◌}
use mathlib.Core.Path.{◌≡◌, refl}
use mathlib.Core.Logic.{◌↔◌}
use mathlib.Core.Bool.{Bool, true, false}
use mathlib.Core.Option
use mathlib.Core.Option.{Option, none, some}
use mathlib.Core.List.{List, [], ◌∷◌}
use native.Mathlib.Omega.{arith}
use nycu_intro_np.Prelude.Tests.{◌==◌ as nat_beq, ==_iff, if◌then◌else◌}
use nycu_intro_np.Prelude.Lists.{length}
use nycu_intro_np.Prelude.Text.{Bytes, equal, equal_iff}

pub record Eq {ℓ} (A : Type ℓ) : Type ℓ where
  pub same : A → A → Bool
  pub same_iff : (a b : A) → (same a b ≡ true) ↔ (a ≡ b)

instance abbrev pub nat_eq : Eq ℕ
nat_eq = record { same = nat_beq; same_iff = ==_iff }

instance abbrev pub bytes_eq : Eq Bytes
bytes_eq = record { same = equal; same_iff = equal_iff }

pub beq_refl {ℓ} : {K : Type ℓ} ⦃e : Eq K⦄ (k : K) → e.same k k ≡ true
beq_refl ⦃e⦄ k = (e.same_iff k k).1 refl

abbrev pub Map {ℓ κ} : Type ℓ → Type κ → Type (ℓ ⊔ κ)
Map K V = List (K × V)

module _ {ℓ κ} {K : Type ℓ} {V : Type κ} ⦃e : Eq K⦄ where
  unfoldable pub find : K → Map K V → Option V
  find k [] = none
  find k ((j, v) ∷ m) = if e.same j k then some v else find k m

  unfoldable pub contains : K → Map K V → Bool
  contains k [] = false
  contains k ((j, v) ∷ m) = if e.same j k then true else contains k m

  -- An entry that is there is kept.
  unfoldable pub emplace : K → V → Map K V → Map K V
  emplace k v m = if contains k m then m else (k, v) ∷ m

  unfoldable pub erase : K → Map K V → Map K V
  erase k [] = []
  erase k ((j, v) ∷ m) = if e.same j k then erase k m else (j, v) ∷ erase k m

  -- A write through a reference to the value at a key.
  unfoldable pub modify : K → (V → V) → Map K V → Map K V
  modify k f [] = []
  modify k f ((j, v) ∷ m) = if e.same j k then (j, f v) ∷ modify k f m else (j, v) ∷ modify k f m

  pub contains-find-none : (k : K) (m : Map K V) → find k m ≡ none → contains k m ≡ false
  unfolding find contains
  contains-find-none k [] h = refl
  contains-find-none k ((j, v) ∷ m) h = ground (arith, contains-find-none k m)

  pub contains-find-some : (k : K) (m : Map K V) {v : V} → find k m ≡ some v → contains k m ≡ true
  unfolding find contains
  contains-find-some k [] {v} h = cc
  contains-find-some k ((j, w) ∷ m) {v} h = ground (arith, contains-find-some k m {v = v})

  pub find-contains-false : (k : K) (m : Map K V) → contains k m ≡ false → find k m ≡ none
  unfolding find contains
  find-contains-false k [] h = refl
  find-contains-false k ((j, v) ∷ m) h = ground (arith, find-contains-false k m)

  pub find-emplace :
      (k j : K) (v : V) (m : Map K V)
      → find j (emplace k v m)
        ≡ (if contains k m then find j m else if e.same k j then some v else find j m)
  unfolding find emplace
  find-emplace k j v m = ground arith

  pub find-erase :
      (k j : K) (m : Map K V) → find j (erase k m) ≡ (if e.same k j then none else find j m)
  unfolding find erase
  find-erase k j [] = ground arith
  find-erase k j ((i, w) ∷ m) =
      ground (arith, e.same_iff k j, e.same_iff i k, e.same_iff i j, find-erase k j m)

  pub find-modify_self :
      (k : K) (f : V → V) (m : Map K V) (v : V)
      → find k m ≡ some v
      → find k (modify k f m) ≡ some (f v)
  unfolding find modify
  find-modify_self k f [] v h = cc
  find-modify_self k f ((i, w) ∷ m) v h = ground (arith, find-modify_self k f m v)

  pub find-modify_ne :
      (k j : K) (f : V → V) (m : Map K V) → e.same k j ≡ false → find j (modify k f m) ≡ find j m
  unfolding find modify
  find-modify_ne k j f [] h = refl
  find-modify_ne k j f ((i, w) ∷ m) h =
      ground (arith, e.same_iff k j, e.same_iff i k, e.same_iff i j, find-modify_ne k j f m h)

  pub contains-modify :
      (k j : K) (f : V → V) (m : Map K V) → contains j (modify k f m) ≡ contains j m
  unfolding contains modify
  contains-modify k j f [] = refl
  contains-modify k j f ((i, w) ∷ m) = ground (arith, contains-modify k j f m)

  -- No key comes twice.
  abbrev pub Distinct : Map K V → Type 0
  Distinct [] = Unit
  Distinct ((k, v) ∷ m) = (contains k m ≡ false) × Distinct m

  pub contains-erase :
      (k j : K) (m : Map K V)
      → contains j (erase k m) ≡ (if e.same k j then false else contains j m)
  unfolding contains erase
  contains-erase k j [] = ground arith
  contains-erase k j ((i, v) ∷ m) =
      ground (arith, e.same_iff k j, e.same_iff i k, e.same_iff i j, contains-erase k j m)

  pub Distinct-erase : (k : K) (m : Map K V) → Distinct m → Distinct (erase k m)
  unfolding erase
  Distinct-erase k [] h = tt
  Distinct-erase k ((i, v) ∷ m) (new, h) =
      ground (arith, e.same_iff i k, contains-erase k i m, Distinct-erase k m h)

  pub erase_absent : (k : K) (m : Map K V) → contains k m ≡ false → erase k m ≡ m
  unfolding contains erase
  erase_absent k [] h = refl
  erase_absent k ((i, v) ∷ m) h = ground (arith, erase_absent k m)

  pub length-erase :
      (k : K) (m : Map K V)
      → Distinct m
      → length m ≡ (if contains k m then 1 else 0) + length (erase k m)
  unfolding contains erase
  length-erase k [] h = omega arith
  length-erase k ((i, v) ∷ m) (new, h) =
      ground (arith, e.same_iff i k, length-erase k m h, erase_absent i m)

  pub find-modify :
      (k j : K) (f : V → V) (m : Map K V)
      → find j (modify k f m) ≡ (if e.same k j then Option.map f (find j m) else find j m)
  unfolding find modify
  find-modify k j f [] = ground arith
  find-modify k j f ((i, w) ∷ m) =
      ground (arith, e.same_iff k j, e.same_iff i k, e.same_iff i j, find-modify k j f m)
