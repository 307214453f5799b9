-- ===== src/Dnsd/Server/Choice.antt =====
-- Which zone answers.
use nycu_intro_np.Prelude.{
  ◌≤◌, suc, ◌≡◌, ◌≢◌, refl, sym, ap, ◌∙◌, true, false, List, [], ◌∷◌, ◌++◌, none, some, Bytes,
  length, length-append, append_assoc, append-nil, arith, Bool-cases, inl, inr, subst, ◌⊎◌,
}
use nycu_intro_np.Dnsd.Dn.{Dn, pop_back}
use nycu_intro_np.Dnsd.Server.{search_zone}
use nycu_intro_np.Dnsd.Zone.{Config, has}

-- `d` is the longest of the names above `dn`, itself included and the root not, that `config` has.
pub record IsClosest (config : Config) (dn d : Dn) : Type 0 where
  pub ne_root : d ≢ []
  pub configured : has d config ≡ true
  pub above : (r : Dn) × (dn ≡ d ++ r)
  pub longest : (e s : Dn) → dn ≡ e ++ s → e ≢ [] → has e config ≡ true → length e ≤ length d

-- No name above `dn`, the root aside, is configured.
abbrev pub IsForeign : Config → Dn → Type 0
IsForeign config dn = (e s : Dn) → dn ≡ e ++ s → e ≢ [] → has e config ≡ false

nil_of_append : (f s : Dn) → f ++ s ≡ [] → f ≡ []
nil_of_append [] s h = refl
nil_of_append (x ∷ f) s h = cc

length-pop_back : (x : Bytes) (dn : Dn) → suc (length (pop_back (x ∷ dn))) ≡ length (x ∷ dn)
unfolding pop_back
length-pop_back x [] = refl
length-pop_back x (y ∷ dn) = ap suc (length-pop_back y dn)

pop_back-cons : (x : Bytes) (dn : Dn) → (l : Bytes) × (x ∷ dn ≡ pop_back (x ∷ dn) ++ l ∷ [])
unfolding pop_back
pop_back-cons x [] = (x, refl)
pop_back-cons x (y ∷ dn) = let (l, e) = pop_back-cons y dn in (l, ap (◌∷◌ x) e)

pop_back-append_cons : (e : Dn) (y : Bytes) (s : Dn) → pop_back (e ++ y ∷ s) ≡ e ++ pop_back (y ∷ s)
unfolding pop_back
pop_back-append_cons [] y s = refl
pop_back-append_cons (x ∷ []) y s = refl
pop_back-append_cons (x ∷ z ∷ e) y s = ap (◌∷◌ x) (pop_back-append_cons (z ∷ e) y s)

-- A name above `dn` is `dn` or lies above what is left of it without its last label.
above-cases : (dn e s : Dn) → dn ≡ e ++ s → (e ≡ dn) ⊎ ((t : Dn) × (pop_back dn ≡ e ++ t))
above-cases dn e [] h = inl (sym (h ∙ append-nil e))
above-cases dn e (y ∷ s) h = inr (pop_back (y ∷ s), ap pop_back h ∙ pop_back-append_cons e y s)

IsClosest-self :
    (config : Config) (dn : Dn) → dn ≢ [] → has dn config ≡ true → IsClosest config dn dn
IsClosest-self config dn ne e = record {
  ne_root = ne;
  configured = e;
  above = ([], sym (append-nil dn));
  longest = λ f s h _ _. omega (arith, ap length h, length-append f s);
}

IsClosest-pop_back :
    (config : Config) (x : Bytes) (dn d : Dn)
    → has (x ∷ dn) config ≡ false
    → IsClosest config (pop_back (x ∷ dn)) d
    → IsClosest config (x ∷ dn) d
IsClosest-pop_back config x dn d no_self ih = record {
  ne_root = ih.ne_root;
  configured = ih.configured;
  above =
      let (l, e) = pop_back-cons x dn in
      let (r, f) = ih.above in
      (r ++ l ∷ [], e ∙ ap (λ t. t ++ l ∷ []) f ∙ append_assoc d r (l ∷ []));
  longest = λ f s h ne there. elim (above-cases (x ∷ dn) f s h) [
    | inl same ↦ absurd (ground (arith, ap (λ t. has t config) same))
    | inr (t, k) ↦ ih.longest f t k ne there
  ];
}

search_zone-IsClosest :
    (rounds : List Bytes) (config : Config) (dn d : Dn)
    → length rounds ≡ length dn
    → search_zone rounds config dn ≡ some d
    → IsClosest config dn d
unfolding search_zone
search_zone-IsClosest [] config dn d n h = absurd (ground arith)
search_zone-IsClosest (l ∷ rounds) config [] d n h = absurd (omega arith)
search_zone-IsClosest (l ∷ rounds) config (x ∷ dn) d n h = elim (Bool-cases (has (x ∷ dn) config)) [
  | inl e ↦
      let found : x ∷ dn ≡ d = ground arith in
      subst (IsClosest config (x ∷ dn)) found (IsClosest-self config (x ∷ dn) (λ e. cc) e)
  | inr e ↦ IsClosest-pop_back config x dn d e (
      search_zone-IsClosest rounds config (pop_back (x ∷ dn)) d
        (omega (arith, length-pop_back x dn)) (ground arith))
]

search_zone-IsForeign :
    (rounds : List Bytes) (config : Config) (dn : Dn)
    → length rounds ≡ length dn
    → search_zone rounds config dn ≡ none
    → IsForeign config dn
unfolding search_zone
search_zone-IsForeign [] config [] n h f s e ne = absurd (ne (nil_of_append f s (sym e)))
search_zone-IsForeign [] config (x ∷ dn) n h f s e ne = absurd (omega arith)
search_zone-IsForeign (l ∷ rounds) config [] n h f s e ne = absurd (omega arith)
search_zone-IsForeign (l ∷ rounds) config (x ∷ dn) n h f s e ne =
    let missed : has (x ∷ dn) config ≡ false = ground arith in
    let below =
      search_zone-IsForeign rounds config (pop_back (x ∷ dn)) (omega (arith, length-pop_back x dn))
        (ground arith) in
    elim (above-cases (x ∷ dn) f s e) [
      | inl same ↦ ap (λ t. has t config) same ∙ missed
      | inr (t, k) ↦ below f t k ne
    ]

-- The zone that answers a query is the closest one above the name that is asked for; where none is
-- found, none above the name is configured.
pub search_zone_lem :
    (config : Config) (dn : Dn)
    → ((d : Dn) → search_zone dn config dn ≡ some d → IsClosest config dn d)
      × (search_zone dn config dn ≡ none → IsForeign config dn)
search_zone_lem config dn = (
  λ d h. search_zone-IsClosest dn config dn d refl h,
  λ h. search_zone-IsForeign dn config dn refl h,
)
