-- ===== src/Dnsd/Record/Nip.antt =====
-- Names that spell an address, as with nip.io.
use nycu_intro_np.Prelude.{
  ℕ, ◌<◌, ◌≡◌, refl, sym, ap, ◌∙◌, true, [], ◌∷◌, ◌++◌, Option, none, some, Bytes, arith,
  append_assoc, length, All, all, is_digit, IsDigit, ◌≤◌, ◌↔◌, List, reverse, Bool-cases, inl, inr,
}
use mathlib.Core.List.{reverse-reverse}
use nycu_intro_np.Dnsd.Dn.{Dn, pop_back, dn2s}
use nycu_intro_np.Dnsd.Dn.Domains.{minus_lem}
use nycu_intro_np.Dnsd.Record.{
  Family, inet, is_octet_label, is_nip, niplike, new_record, rdata_of, type_a, clas_in,
  parse_datadn,
}
use nycu_intro_np.Dnsd.Result.{ok, err, format_error, ◌>>=◌}

-- The text of an address.
abbrev pub dotted : Bytes → Bytes → Bytes → Bytes → Bytes
dotted a b c d = a ++ (b'.' ∷ (b ++ (b'.' ∷ (c ++ (b'.' ∷ d)))))

pop_back-last : (l : Bytes) (x : ℕ) → pop_back (l ++ x ∷ []) ≡ l
unfolding pop_back
pop_back-last [] x = refl
pop_back-last (y ∷ []) x = refl
pop_back-last (y ∷ z ∷ l) x = ap (◌∷◌ y) (pop_back-last (z ∷ l) x)

dn2s-dotted : (a b c d : Bytes) → pop_back (dn2s (d ∷ c ∷ b ∷ a ∷ [])) ≡ dotted a b c d
unfolding dn2s
dn2s-dotted a b c d = ap pop_back (regroup a b c d) ∙ pop_back-last (dotted a b c d) b'.'
  where
    regroup :
        (a b c d : Bytes)
        → a ++ (b'.' ∷ (b ++ (b'.' ∷ (c ++ (b'.' ∷ (d ++ (b'.' ∷ [])))))))
          ≡ dotted a b c d ++ b'.' ∷ []
    regroup a b c d = simp append_assoc

-- A label of up to three digits.
abbrev pub IsOctet : Bytes → Type 0
IsOctet l = (length l ≤ 3) × All IsDigit l

-- Four labels of up to three digits each, and a fifth that is shorter than 62.
abbrev pub SpellsAddress : Bytes → Bytes → Bytes → Bytes → Bytes → Type 0
SpellsAddress a b c d e = IsOctet a × IsOctet b × IsOctet c × IsOctet d × (length e < 62)

all-digits : (l : Bytes) → (all is_digit l ≡ true) ↔ All IsDigit l
all-digits [] = ground arith
all-digits (c ∷ l) = ground (arith, all-digits l)

IsOctet-iff : (l : Bytes) → (is_octet_label l ≡ true) ↔ IsOctet l
unfolding is_octet_label
IsOctet-iff l = ground (arith, all-digits l)

is_nip-spells :
    (a b c d e : Bytes) → (is_nip (a ∷ b ∷ c ∷ d ∷ e ∷ []) ≡ true) ↔ SpellsAddress a b c d e
unfolding is_nip
is_nip-spells a b c d e = ground (arith, IsOctet-iff a, IsOctet-iff b, IsOctet-iff c, IsOctet-iff d)

is_nip_shape :
    (sub : List Bytes)
    → is_nip sub ≡ true
    → (a : Bytes) × (b : Bytes) × (c : Bytes) × (d : Bytes) × (e : Bytes) × (sub
        ≡ a ∷ b ∷ c ∷ d ∷ e ∷ [])
      × SpellsAddress a b c d e
unfolding is_nip
is_nip_shape (a ∷ b ∷ c ∷ d ∷ e ∷ []) h = (a, b, c, d, e, refl, (is_nip-spells a b c d e).0 h)
is_nip_shape _ h = absurd (ground arith)

module _ (pton : Family → Bytes → Option Bytes) where
  niplike-text :
      (base : Dn) (a b c d e : Bytes)
      → SpellsAddress a b c d e
      → let name = base ++ (e ∷ d ∷ c ∷ b ∷ a ∷ []) in
        niplike pton name base
        ≡ (new_record pton name type_a clas_in 1 (dotted a b c d) >>= λ rr. ok (rr ∷ []))
  unfolding niplike pop_back
  niplike-text base a b c d e spells =
      rw ((minus_lem (base ++ (e ∷ d ∷ c ∷ b ∷ a ∷ [])) base).0 (e ∷ d ∷ c ∷ b ∷ a ∷ []) refl)
        (rw ((is_nip-spells a b c d e).1 spells, dn2s-dotted a b c d))

  niplike-spells :
      (base : Dn) (a b c d e : Bytes)
      → SpellsAddress a b c d e
      → let name = base ++ (e ∷ d ∷ c ∷ b ∷ a ∷ []) in
        ((bytes : Bytes)
          → pton inet (dotted a b c d) ≡ some bytes
          → niplike pton name base
            ≡ ok (
                (record {
                  question = record { domain = name; type = type_a; clas = clas_in };
                  ttl = 1;
                  text = dotted a b c d;
                  rdata = bytes;
                  datadn = [];
                })
                ∷ []))
        × (pton inet (dotted a b c d) ≡ none → niplike pton name base ≡ err format_error)
  unfolding new_record rdata_of parse_datadn
  niplike-spells base a b c d e spells = (
    λ bytes p. niplike-text base a b c d e spells ∙ rw p,
    λ p. niplike-text base a b c d e spells ∙ rw p,
  )

  niplike-other :
      (base r : Dn)
      → ((a b c d e : Bytes) → r ≡ e ∷ d ∷ c ∷ b ∷ a ∷ [] → SpellsAddress a b c d e → ⊥)
      → niplike pton (base ++ r) base ≡ ok []
  unfolding niplike
  niplike-other base r none_spelt = elim (Bool-cases (is_nip (reverse r))) [
    | inl nip ↦
        let (a, b, c, d, e, same, spells) = is_nip_shape (reverse r) nip in
        absurd (none_spelt a b c d e (sym (reverse-reverse r) ∙ ap reverse same) spells)
    | inr plain ↦ rw ((minus_lem (base ++ r) base).0 r refl) (rw plain refl)
  ]

  -- A name exactly five labels below a zone, the lowest four of up to three digits each and the fifth
  -- shorter than 62, has a record that says so: an A record for the name, with the address that the C
  -- library makes of the four labels. Where it makes none, as with a label above 255, the query is ill
  -- formed. Any other name in the zone, with fewer or more labels too, has no such record.
  pub niplike_lem :
      (base r : Dn)
      → ((a b c d e : Bytes)
          → r ≡ e ∷ d ∷ c ∷ b ∷ a ∷ []
          → SpellsAddress a b c d e
          → ((bytes : Bytes)
              → pton inet (dotted a b c d) ≡ some bytes
              → niplike pton (base ++ r) base
                ≡ ok (
                    (record {
                      question = record { domain = base ++ r; type = type_a; clas = clas_in };
                      ttl = 1;
                      text = dotted a b c d;
                      rdata = bytes;
                      datadn = [];
                    })
                    ∷ []))
            × (pton inet (dotted a b c d) ≡ none
                → niplike pton (base ++ r) base ≡ err format_error))
        × (((a b c d e : Bytes) → r ≡ e ∷ d ∷ c ∷ b ∷ a ∷ [] → SpellsAddress a b c d e → ⊥)
            → niplike pton (base ++ r) base ≡ ok [])
  niplike_lem base r = (
    λ a b c d e same spells. rw same (niplike-spells base a b c d e spells),
    niplike-other base r,
  )
