-- ===== src/Dnsd/Load/Listed.antt =====
-- Homework/2/dnsd/src/config.cpp: what the constructor of the configuration reads of a file that was written
-- for it.
use nycu_intro_np.Prelude.{
  ℕ, zero, suc, ◌≤◌, ◌<◌, ◌≡◌, refl, false, ◌==◌, List, [], ◌∷◌, ◌++◌, Option, none, some, Bytes,
  All, is_empty, length, length-append, arith,
}
use nycu_intro_np.Dnsd.Record.{Family, is_space, skip_spaces}
use nycu_intro_np.Dnsd.Scan.{scan_char, scan_word}
use nycu_intro_np.Dnsd.Scan.Reads.{
  scan_set-append, scan_word-append, c_str-none, starts_space, skip_spaces-none,
}
use nycu_intro_np.Dnsd.Zone.{Config}
use nycu_intro_np.Dnsd.Load.{
  Loaded, done, ◌>>=◌, bind_cong, is_comma, scan_pair, add_zone, load_zones, load_config,
}

-- A zone's domain and path as a line can hold them.
abbrev pub IsEntry : Bytes × Bytes → Type 0
IsEntry (d, p) =
    ((starts_space d ≡ false)
      × ((is_empty d ≡ false)
          × (length d ≤ 255)
          × All (λ c. is_comma c ≡ false) d
          × All (λ c. (c == 0) ≡ false) d))
    × ((is_empty p ≡ false)
        × (length p ≤ 511)
        × All (λ c. is_space c ≡ false) p
        × All (λ c. (c == 0) ≡ false) p)

-- The lines of the zones, from the end of the line above on.
abbrev pub print_entries : List (Bytes × Bytes) → Bytes
print_entries [] = b'\n' ∷ []
print_entries ((d, p) ∷ es) = b'\n' ∷ (d ++ b',' ∷ (p ++ print_entries es))

-- A configuration file: the address, then a domain and a path on each line.
abbrev pub print_config : Bytes → List (Bytes × Bytes) → Bytes
print_config ip es = ip ++ print_entries es

-- Where the lines of the zones end, there is an end of a line.
print_entries_cons :
    (es : List (Bytes × Bytes)) → (rest : Bytes) × (print_entries es ≡ b'\n' ∷ rest)
print_entries_cons [] = ([], refl)
print_entries_cons ((d, p) ∷ es) = (d ++ b',' ∷ (p ++ print_entries es), refl)

scan_word-print_entries :
    (room : ℕ) (s : Bytes) (es : List (Bytes × Bytes))
    → is_empty s ≡ false
    → All (λ x. is_space x ≡ false) s
    → length s ≤ room
    → scan_word room (s ++ print_entries es) ≡ some (s, print_entries es)
scan_word-print_entries room s es n0 n1 n2 =
    let (rest, e) = print_entries_cons es in rw e (scan_word-append room s b'\n' rest n0 n1 refl n2)

scan_pair-entry :
    (dv pv : Option Bytes) (d p : Bytes) (es : List (Bytes × Bytes))
    → IsEntry (d, p)
    → scan_pair dv pv (d ++ b',' ∷ (p ++ print_entries es)) ≡ (some d, some p, print_entries es)
unfolding scan_pair scan_char
scan_pair-entry dv pv d p es ((_, (d0, d1, d2, d3)), (p0, p1, p2, p3)) =
    simp (scan_pair, scan_set-append is_comma 255 d b',' (p ++ print_entries es) d0 d2 refl d1)
      (rw (scan_word-print_entries 511 p es p0 p2 p1) (simp (c_str-none d d3, c_str-none p p3)))

is_empty-append : (s : Bytes) (c : ℕ) (rest : Bytes) → is_empty (s ++ c ∷ rest) ≡ false
is_empty-append [] c rest = refl
is_empty-append (x ∷ s) c rest = refl

fuel_enough : (es : List (Bytes × Bytes)) → length es < length (print_entries es)
fuel_enough [] = omega arith
fuel_enough ((d, p) ∷ es) = omega (
  arith,
  fuel_enough es,
  length-append d (b',' ∷ (p ++ print_entries es)),
  length-append p (print_entries es),
)

module _ (pton : Family → Bytes → Option Bytes) (type_cast clas_cast : Bytes → Option ℕ)
    (read_file : Bytes → Bytes) where
  -- The zones made in order, each only where its domain has none.
  unfoldable pub add_zones : List (Bytes × Bytes) → Config → Loaded Config
  add_zones [] zones = done zones
  add_zones ((d, p) ∷ es) zones =
      add_zone pton type_cast clas_cast read_file d p zones >>= add_zones es

  load_zones-entries :
      (es : List (Bytes × Bytes)) (fuel : ℕ) (dv pv : Option Bytes) (zones : Config)
      → All IsEntry es
      → length es < fuel
      → load_zones pton type_cast clas_cast read_file fuel dv pv (print_entries es) zones
        ≡ add_zones es zones
  unfolding load_zones add_zones skip_spaces
  load_zones-entries es zero dv pv zones h enough = absurd (omega arith)
  load_zones-entries [] (suc fuel) dv pv zones h enough = refl
  load_zones-entries ((d, p) ∷ es) (suc fuel) dv pv zones h enough =
      let ((starts, (some_there, _, _, _)), _) = h.0 in
      simp
        (
          skip_spaces-none d (b',' ∷ (p ++ print_entries es)) some_there starts,
          is_empty-append d b',' (p ++ print_entries es),
          scan_pair-entry dv pv d p es h.0,
        )
        (bind_cong (add_zone pton type_cast clas_cast read_file d p zones) _ (add_zones es)
          λ zones'. load_zones-entries es fuel (some d) (some p) zones' h.1 (omega arith))

  -- A configuration file that holds an address (of up to 19 characters, none of them a space) and on each
  -- line a domain and a path (the domain of up to 255 characters, not led by a space, without a comma; the
  -- path of up to 511 without a space; neither empty nor with a NUL) is read as the address and the zones
  -- of the lines: each is made of its file in order, unless its domain has a zone already, and the
  -- first that cannot be made decides what becomes of the program. The fuel is enough for every line.
  pub load_config-print_config :
      (ip : Bytes) (es : List (Bytes × Bytes))
      → is_empty ip ≡ false
      → length ip ≤ 19
      → All (λ c. is_space c ≡ false) ip
      → All IsEntry es
      → load_config pton type_cast clas_cast read_file (print_config ip es)
        ≡ (add_zones es [] >>= λ zones. done (ip, zones))
  unfolding load_config
  load_config-print_config ip es n0 n1 n2 h = simp (
    scan_word-print_entries 19 ip es n0 n2 n1,
    load_zones-entries es (suc (length (print_entries es))) none none [] h
        (omega (arith, fuel_enough es)),
  )
