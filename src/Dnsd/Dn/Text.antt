-- ===== src/Dnsd/Dn/Text.antt =====
-- Names as text: `dn2s` and `s2dn`.
use mathlib.Core.List.{reverse-reverse}
use nycu_intro_np.Prelude.{
  ◌≡◌, ◌≢◌, refl, ap, ◌∙◌, false, List, [], ◌∷◌, ◌++◌, reverse, Bytes, equal, All, arith,
  append_assoc, append-nil,
}
use nycu_intro_np.Dnsd.Dn.{Dn, split_dots, s2dn, join_dots, dn2s}

abbrev pub Dotless : Bytes → Type 0
Dotless l = All (λ c. c ≢ b'.') l

split_dots-label :
    (l cur rest : Bytes)
    → Dotless l
    → split_dots cur (l ++ (b'.' ∷ rest)) ≡ (cur ++ l) ∷ split_dots [] rest
unfolding split_dots
split_dots-label [] cur rest h = rw append-nil
split_dots-label (c ∷ l) cur rest h =
    ground (arith, split_dots-label l (cur ++ c ∷ []) rest h.1, append_assoc cur (c ∷ []) l)

split_dots-join_dots : (ls : List Bytes) → All Dotless ls → split_dots [] (join_dots ls) ≡ ls
unfolding join_dots
split_dots-join_dots [] h = unfold split_dots in refl
split_dots-join_dots (l ∷ ls) h =
    split_dots-label l [] (join_dots ls) h.0 ∙ ap (◌∷◌ l) (split_dots-join_dots ls h.1)

-- Text that ends with a dot is not the sign for the zone itself.
join_dots-ne_at : (ls : List Bytes) → equal (join_dots ls) (b'@' ∷ []) ≡ false
unfolding join_dots equal
join_dots-ne_at [] = refl
join_dots-ne_at ([] ∷ ls) = refl
join_dots-ne_at ((c ∷ []) ∷ ls) = ground arith
join_dots-ne_at ((c ∷ d ∷ l) ∷ ls) = ground arith

-- A name whose labels hold no dot is read back from its text, the root and empty labels included.
s2dn-dn2s : (dn : Dn) → All Dotless (reverse dn) → s2dn (dn2s dn) ≡ dn
unfolding s2dn dn2s
s2dn-dn2s dn h =
    rw (join_dots-ne_at (reverse dn), split_dots-join_dots (reverse dn) h) (reverse-reverse dn)
