-- ===== src/Dnsd/Dn/Domains.antt =====
-- Subdomains: `operator%` and `operator-`.
use mathlib.Core.List.{reverse-reverse, reverse-append, reverse-cons}
use nycu_intro_np.Prelude.{
  ◌≡◌, refl, ap, true, false, [], ◌∷◌, ◌++◌, reverse, Bytes, length, length-append, append_assoc,
  arith, equal, equal_iff, ◌↔◌, append-nil, Bool-cases, inl, inr,
}
use nycu_intro_np.Dnsd.Dn.{Dn, same_labels, ◌under◌, pop_back, pop_each, minus}

same_labels-append : (b r : Dn) → same_labels (b ++ r) b ≡ true
unfolding same_labels
same_labels-append [] r = refl
same_labels-append (y ∷ b) r = ground (arith, equal_iff y y, same_labels-append b r)

same_labels-split : (a b : Dn) → same_labels a b ≡ true → (r : Dn) × (a ≡ b ++ r)
unfolding same_labels
same_labels-split a [] h = (a, refl)
same_labels-split [] (y ∷ b) h = absurd (ground arith)
same_labels-split (x ∷ a) (y ∷ b) h = elim (Bool-cases (equal x y)) [
  | inl e ↦ let (r, s) = same_labels-split a b (ground arith) in (r, ground (arith, equal_iff x y))
  | inr e ↦ absurd (ground arith)
]

-- `a % b` holds exactly of the names that begin with the labels of `b`, the top level first.
under_iff : (a b : Dn) → ((a under b) ≡ true) ↔ ((r : Dn) × (a ≡ b ++ r))
unfolding ◌under◌
under_iff a b = (
  λ h. same_labels-split a b (ground arith),
  λ p. rw p.1 (ground (arith, length-append b p.0, same_labels-append b p.0)),
)

pop_back-append : (l : Dn) (x : Bytes) → pop_back (l ++ x ∷ []) ≡ l
unfolding pop_back
pop_back-append [] x = refl
pop_back-append (y ∷ []) x = refl
pop_back-append (y ∷ z ∷ l) x = ap (◌∷◌ y) (pop_back-append (z ∷ l) x)

pop_each-append : (b s r : Dn) → length b ≡ length s → pop_each b (r ++ reverse s) ≡ r
unfolding pop_each
pop_each-append [] [] r h = append-nil r
pop_each-append [] (x ∷ s) r h = absurd (omega arith)
pop_each-append (y ∷ b) [] r h = absurd (omega arith)
pop_each-append (y ∷ b) (x ∷ s) r h =
    rw (reverse-cons x s, ← append_assoc r (reverse s) (x ∷ []), pop_back-append (r ++ reverse s) x)
      (pop_each-append b s r (omega arith))

-- `a - b` takes the labels of `b` off the names that lie in `b`, and leaves all others alone.
pub minus_lem :
    (a b : Dn) → ((r : Dn) → a ≡ b ++ r → minus a b ≡ r) × ((a under b) ≡ false → minus a b ≡ a)
unfolding minus
minus_lem a b = (
  λ r e. rw (
    e,
    (under_iff (b ++ r) b).1 (r, refl),
    reverse-append b r,
    pop_each-append b b (reverse r) refl,
    reverse-reverse,
  ),
  λ e. rw e,
)
