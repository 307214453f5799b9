-- ===== src/Throughput/Tables.antt =====
-- The tables of the server: the counts of connections, and the sizes recorded for descriptors.
use nycu_intro_np.Prelude.{
  ℕ, ◌+◌, ◌%◌, ◌^◌, ◌≡◌, refl, sym, ◌∙◌, subst, false, ◌==◌, [], ◌∷◌, some, Map, find, contains,
  emplace, erase, nat_eq, Distinct, Distinct-erase, Distinct-emplace, find-modify, find-emplace,
  find-contains-false, contains-find-some, contains-find-none, erase_absent, ==_iff, Option-cases,
  Bool-cases, arith, if◌then◌else◌, inl, inr,
}
use nycu_intro_np.Throughput.{
  Server, returns, at, change, increase, decrease, handle_new_client, handle_del_client,
}

-- How many connections a listening socket accepted.
unfoldable pub count_of : ℕ → Map ℕ ℕ → ℕ
count_of l [] = 0
count_of l ((fd, k) ∷ m) = (if k == l then 1 else 0) + count_of l m

-- The counts are those of the connections, each under a descriptor of its own.
abbrev pub IsCounted : Server → Type 0
IsCounted s = Distinct s.mapping × ((l : ℕ) → at l s.cnt ≡ count_of l s.mapping % 2 ^ 32)

count_of-erase :
    (k l j : ℕ) (m : Map ℕ ℕ)
    → Distinct m
    → find k m ≡ some l
    → count_of j m ≡ (if l == j then 1 else 0) + count_of j (erase k m)
unfolding count_of find erase
count_of-erase k l j [] d f = absurd (ground arith)
count_of-erase k l j ((fd, v) ∷ m) (new, d) f = elim (Bool-cases (fd == k)) [
  | inl here ↦ ground (arith, ==_iff fd k, erase_absent k m)
  | inr other ↦ ground (arith, count_of-erase k l j m d)
]

at-change :
    (k j : ℕ) (f : ℕ → ℕ) (m : Map ℕ ℕ)
    → at j (change k f m) ≡ (if k == j then f (at k m) else at j m)
unfolding at change
at-change k j f m = elim (Option-cases (find k m)) [
  | inl absent ↦ ground (
    arith,
    find-modify k j f (emplace k 0 m),
    find-emplace k j 0 m,
    contains-find-none k m absent,
    ==_iff k j,
  )
  | inr (v, there) ↦ ground (
    arith,
    find-modify k j f (emplace k 0 m),
    find-emplace k j 0 m,
    contains-find-some k m {v = v} there,
    ==_iff k j,
  )
]

pub new-IsCounted :
    (l fd mss : ℕ) (s : Server)
    → contains fd s.mapping ≡ false
    → IsCounted s
    → IsCounted (handle_new_client l fd mss s)
unfolding handle_new_client emplace count_of
new-IsCounted l fd mss s fresh (d, counts) = (
  Distinct-emplace fd l s.mapping d,
  λ j. ground (arith, at-change l j increase s.cnt, counts j, counts l, ==_iff l j),
)

-- A size that is recorded for a descriptor stays.
abbrev pub KeepsSizes : Server → Server → Type 0
KeepsSizes s t = (k m : ℕ) → find k s.mss ≡ some m → find k t.mss ≡ some m

pub del-IsCounted :
    (fd l : ℕ) (s : Server)
    → find fd s.mapping ≡ some l
    → IsCounted s
    → (t : Server) × (handle_del_client fd s ≡ returns t) × IsCounted t × KeepsSizes s t
unfolding handle_del_client
del-IsCounted fd l s there (d, counts) = (
  record s { cnt = change l decrease s.cnt; mapping = erase fd s.mapping },
  simp (handle_del_client, there),
  (
    Distinct-erase fd s.mapping d,
    λ j. ground (
      arith,
      at-change l j decrease s.cnt,
      counts j,
      counts l,
      ==_iff l j,
      count_of-erase fd l j s.mapping d there,
      count_of-erase fd l l s.mapping d there,
    ),
  ),
  λ k m e. e,
)

-- The tables that only connections change.
abbrev pub IsSame : Server → Server → Type 0
IsSame s t = (t.mapping ≡ s.mapping) × ((l : ℕ) → at l t.cnt ≡ at l s.cnt) × KeepsSizes s t

pub same-IsCounted : (s t : Server) → IsSame s t → IsCounted s → IsCounted t
same-IsCounted s t (mapping, cnt, _) (d, counts) =
    (subst (λ m. Distinct m) (sym mapping) d, λ l. cnt l ∙ rw mapping (counts l))

pub IsSame-refl : (s : Server) → IsSame s s
IsSame-refl s = (refl, λ l. refl, λ k m e. e)

pub IsSame-trans : (s t u : Server) → IsSame s t → IsSame t u → IsSame s u
IsSame-trans s t u (m, c, k) (n, d, j) = (n ∙ m, λ l. d l ∙ c l, λ i v e. j i v (k i v e))

pub at-emplace : (k l : ℕ) (m : Map ℕ ℕ) → at l (emplace k 0 m) ≡ at l m
unfolding at
at-emplace k l m = ground (arith, find-emplace k l 0 m, find-contains-false k m, ==_iff k l)

pub emplace-Keeps :
    (fd v k m : ℕ) (sizes : Map ℕ ℕ) → find k sizes ≡ some m → find k (emplace fd v sizes) ≡ some m
emplace-Keeps fd v k m sizes e =
    ground (arith, find-emplace fd k v sizes, contains-find-some k sizes {v = m} e, ==_iff fd k)

pub new_keeps : (l fd mss : ℕ) (s : Server) → KeepsSizes s (handle_new_client l fd mss s)
unfolding handle_new_client
new_keeps l fd mss s k m = emplace-Keeps fd mss k m s.mss
