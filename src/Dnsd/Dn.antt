-- ===== src/Dnsd/Dn.antt =====
-- Homework/2/dnsd/src/dn.cpp: domain names, as lists of labels with the top level first.
pub mod Labels
pub mod Domains
pub mod Text
use nycu_intro_np.Prelude.{
  ℕ, ◌+◌, ◌%◌, suc, zero, ◌≡◌, refl, Bool, true, false, List, [], ◌∷◌, ◌++◌, reverse, map, Option,
  none, some, Bytes, codes, equal, is_empty, is_empty, ltb, ◌==◌, if◌then◌else◌, length, take, drop,
}

abbrev pub Dn : Type 0
Dn = List Bytes

-- The loop of `operator%` over the labels of `b`.
unfoldable pub same_labels : Dn → Dn → Bool
same_labels a [] = true
same_labels [] (y ∷ b) = false
same_labels (x ∷ a) (y ∷ b) = if equal x y then same_labels a b else false

-- `operator%`: `a` lies in the domain `b`.
infix 50 ◌under◌
unfoldable pub ◌under◌ : Dn → Dn → Bool
unfolding same_labels
a under b = if ltb (length a) (length b) then false else same_labels a b

unfoldable pub pop_back {ℓ} : {A : Type ℓ} → List A → List A
pop_back [] = []
pop_back (x ∷ []) = []
pop_back (x ∷ y ∷ l) = x ∷ pop_back (y ∷ l)

-- One `pop_back` for each label of `b`.
unfoldable pub pop_each : Dn → Dn → Dn
unfolding pop_back
pop_each [] r = r
pop_each (y ∷ b) r = pop_each b (pop_back r)

-- `operator-`.
unfoldable pub minus : Dn → Dn → Dn
unfolding ◌under◌ pop_each
minus a b = if a under b then reverse (pop_each b (reverse a)) else a

-- `views::split('.')` of C++20; `cur` is the piece so far. Where the text ends behind a dot, or is
-- empty, there is no further piece.
unfoldable pub split_dots : Bytes → Bytes → List Bytes
split_dots cur [] = if is_empty cur then [] else cur ∷ []
split_dots cur (c ∷ cs) =
    let next = split_dots [] cs in
    let more = split_dots (cur ++ c ∷ []) cs in if c == b'.' then cur ∷ next else more

unfoldable pub s2dn : Bytes → Dn
unfolding split_dots
s2dn name = if equal name (b'@' ∷ []) then [] else reverse (split_dots [] name)

-- The loop of `dn2s` over the reversed labels.
unfoldable pub join_dots : List Bytes → Bytes
join_dots [] = []
join_dots (l ∷ ls) = l ++ (b'.' ∷ join_dots ls)

unfoldable pub dn2s : Dn → Bytes
unfolding join_dots
dn2s domain = join_dots (reverse domain)

-- The loop of `dn2data` over the reversed labels.
unfoldable pub put_labels : List Bytes → Bytes
put_labels [] = []
put_labels (l ∷ ls) = length l % 256 ∷ (l ++ put_labels ls)

unfoldable pub dn2data : Dn → Bytes
unfolding put_labels
dn2data domain = put_labels (reverse domain) ++ 0 ∷ []

-- The loop of `data2dn`; `none` where it reads past the end of the message. Each round takes a byte
-- or more off `data`, so the fuel of `data2dn` is enough.
unfoldable pub get_labels : ℕ → Dn → Bytes → Option (Dn × Bytes)
get_labels zero acc bytes = none
get_labels (suc fuel) acc [] = none
get_labels (suc fuel) acc (sz ∷ rest) =
    let next = get_labels fuel (acc ++ take sz rest ∷ []) (drop sz rest) in
    if sz == 0 then some (acc, rest) else if ltb (length rest) sz then none else next

-- `data2dn`: the labels, and where the pointer stands behind them.
unfoldable pub data2dn : Bytes → Option (Dn × Bytes)
unfolding get_labels
data2dn bytes = elim (get_labels (suc (length bytes)) [] bytes) [
  | none ↦ none
  | some (ls, rest) ↦ some (reverse ls, rest)
]
