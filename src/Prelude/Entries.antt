-- ===== src/Prelude/Entries.antt =====
-- What holds of all entries of a map, and of its keys, over changes of the map.
use mathlib.Core.Path.{◌≡◌, subst}
use mathlib.Core.Logic.{inl, inr}
use mathlib.Core.Bool.{true}
use mathlib.Core.Option.{some}
use mathlib.Core.List.{[], ◌∷◌}
use native.Mathlib.Omega.{arith}
use nycu_intro_np.Prelude.Tests.{if◌then◌else◌, Bool-cases, Option-cases}
use nycu_intro_np.Prelude.Lists.{All}
use nycu_intro_np.Prelude.Maps.{
  Eq, Map, find, contains, emplace, erase, modify, beq_refl, Distinct, contains-find-none,
  contains-find-some, contains-modify, find-modify,
}

module _ {ℓ κ} {K : Type ℓ} {V : Type κ} ⦃e : Eq K⦄ where
  -- What holds of every entry holds of one that is found.
  pub All-find {ι} :
      (P : K × V → Type ι) (k : K) (m : Map K V) (v : V) → All P m → find k m ≡ some v → P (k, v)
  unfolding find
  All-find P k [] v h f = absurd (cc)
  All-find P k ((j, w) ∷ m) v h f = elim (Bool-cases (e.same j k)) [
    | inl here ↦
        let value : w ≡ v = ground arith in
        let key = (e.same_iff j k).0 here in subst P (λ i. (key i, value i)) h.0
    | inr other ↦ All-find P k m v h.1 (ground arith)
  ]

  pub All-emplace {ι} :
      (P : K × V → Type ι) (k : K) (v : V) (m : Map K V)
      → P (k, v)
      → All P m
      → All P (emplace k v m)
  unfolding emplace
  All-emplace P k v m p h = elim (Bool-cases (contains k m)) [
    | inl there ↦ rw there h
    | inr new ↦ rw new (p, h)
  ]

  pub All-modify {ι} :
      (P Q : K × V → Type ι) (k : K) (f : V → V) (m : Map K V)
      → ((j : K) (v : V) → P (j, v) → Q (j, f v))
      → ((j : K) (v : V) → P (j, v) → Q (j, v))
      → All P m
      → All Q (modify k f m)
  unfolding modify
  All-modify P Q k f [] changed kept h = tt
  All-modify P Q k f ((j, v) ∷ m) changed kept h = elim (Bool-cases (e.same j k)) [
    | inl here ↦ rw here (changed j v h.0, All-modify P Q k f m changed kept h.1)
    | inr other ↦ rw other (kept j v h.0, All-modify P Q k f m changed kept h.1)
  ]

  pub All-erase {ι} : (P : K × V → Type ι) (k : K) (m : Map K V) → All P m → All P (erase k m)
  unfolding erase
  All-erase P k [] h = tt
  All-erase P k ((j, v) ∷ m) h = elim (Bool-cases (e.same j k)) [
    | inl here ↦ rw here (All-erase P k m h.1)
    | inr other ↦ rw other (h.0, All-erase P k m h.1)
  ]

  -- What stands at a key after a write through a reference stood there before.
  pub find-modify-some :
      (k j : K) (f : V → V) (m : Map K V) (v : V)
      → find j (modify k f m) ≡ some v
      → (u : V) × (find j m ≡ some u) × (v ≡ (if e.same k j then f u else u))
  find-modify-some k j f m v h = elim (Option-cases (find j m)) [
    | inl absent ↦ absurd (ground (arith, find-modify k j f m))
    | inr (u, there) ↦ (u, there, ground (arith, find-modify k j f m))
  ]

  pub contains-emplace :
      (k j : K) (v : V) (m : Map K V)
      → contains j (emplace k v m) ≡ (if e.same k j then true else contains j m)
  unfolding contains emplace
  contains-emplace k j v m = ground (arith, e.same_iff k j)

  pub find-some : (k : K) (m : Map K V) → contains k m ≡ true → (v : V) × (find k m ≡ some v)
  find-some k m h = elim (Option-cases (find k m)) [
    | inl absent ↦ absurd (ground (arith, contains-find-none k m absent))
    | inr there ↦ there
  ]

  pub Distinct-emplace : (k : K) (v : V) (m : Map K V) → Distinct m → Distinct (emplace k v m)
  unfolding emplace
  Distinct-emplace k v m h = elim (Bool-cases (contains k m)) [
    | inl there ↦ rw there h
    | inr new ↦ rw new (new, h)
  ]

  pub Distinct-modify : (k : K) (f : V → V) (m : Map K V) → Distinct m → Distinct (modify k f m)
  unfolding modify
  Distinct-modify k f [] h = tt
  Distinct-modify k f ((j, v) ∷ m) (new, h) =
      ground (arith, contains-modify k j f m, Distinct-modify k f m h)

  -- What holds of every value that is found holds of every entry.
  pub All-found {ι} :
      (P : K × V → Type ι) (m : Map K V)
      → Distinct m
      → ((k : K) (v : V) → find k m ≡ some v → P (k, v))
      → All P m
  unfolding find
  All-found P [] d h = tt
  All-found P ((j, w) ∷ m) (new, d) h = (
    h j w (rw (beq_refl j)),
    All-found P m d λ k v f. h k v (elim (Bool-cases (e.same j k)) [
      | inl same ↦ absurd (ground (arith, contains-find-some k m {v = v} f, e.same_iff j k))
      | inr other ↦ rw other f
    ]),
  )
