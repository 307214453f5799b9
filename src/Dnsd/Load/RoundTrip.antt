-- ===== src/Dnsd/Load/RoundTrip.antt =====
-- Homework/2/dnsd/src/zone.cpp: what the constructor of a zone reads of a file that was written for it.
use nycu_intro_np.Prelude.{
  ℕ, ◌≤◌, ◌<◌, ◌^◌, ◌≡◌, refl, false, ◌==◌, List, [], ◌∷◌, ◌++◌, Option, Bytes, All, All-append,
  All-implies, is_empty, length, IsDigit, decimal, decimal-IsDigit, arith,
}
use nycu_intro_np.Dnsd.Dn.{s2dn}
use nycu_intro_np.Dnsd.Record.{Family}
use nycu_intro_np.Dnsd.Scan.{split_lines, strip_cr, scan_char}
use nycu_intro_np.Dnsd.Scan.Reads.{
  scan_set-append, scan_set-whole, scan_int-decimal, split_lines-append, strip_cr-none, c_str-none,
  starts_space, skip_spaces-none,
}
use nycu_intro_np.Dnsd.Zone.{Zone, dn_beq_iff}
use nycu_intro_np.Dnsd.Load.{
  Loaded, done, ◌>>=◌, bind_cong, Row, is_comma, is_eol, scan_row, add_row, load_lines, check_soa,
  first_line, load_zone,
}

-- A character that a line can hold: no NUL and no end of a line.
abbrev pub IsText : ℕ → Type 0
IsText c = (((c == 0) ≡ false) × ((c == b'\r') ≡ false)) × ((c == b'\n') ≡ false)

-- A field of up to `room` characters, none of them a comma.
abbrev pub IsField : ℕ → Bytes → Type 0
IsField room s =
    (is_empty s ≡ false) × (length s ≤ room) × All IsText s × All (λ c. is_comma c ≡ false) s

-- The rows that a line can hold.
abbrev pub IsRow : Row → Type 0
IsRow r =
    (starts_space r.name ≡ false)
    × IsField 255 r.name
    × (r.ttl < 2 ^ 31)
    × IsField 4 r.clas
    × IsField 9 r.type
    × ((is_empty r.rdata ≡ false) × (length r.rdata ≤ 511) × All IsText r.rdata)

-- A row as a line without its end, from its last fields on.
abbrev pub print_type : Row → Bytes
print_type r = r.type ++ b',' ∷ r.rdata

abbrev pub print_clas : Row → Bytes
print_clas r = r.clas ++ b',' ∷ print_type r

abbrev pub print_ttl : Row → Bytes
print_ttl r = decimal r.ttl ++ b',' ∷ print_clas r

abbrev pub print_row : Row → Bytes
print_row r = r.name ++ b',' ∷ print_ttl r

abbrev pub print_rows : List Row → Bytes
print_rows [] = []
print_rows (r ∷ rows) = print_row r ++ b'\n' ∷ print_rows rows

-- A zone file: the name of the zone, and a row on each line.
abbrev pub print_zone : Bytes → List Row → Bytes
print_zone name rows = name ++ b'\n' ∷ print_rows rows

All-IsText-digits : (s : Bytes) → All IsDigit s → All IsText s
All-IsText-digits s h = All-implies IsDigit IsText (λ x d. ground arith) s h

-- A field, the comma behind it, and more.
print_field-All : (s rest : Bytes) → All IsText s → All IsText rest → All IsText (s ++ b',' ∷ rest)
print_field-All s rest h more = All-append IsText s (b',' ∷ rest) h (((refl, refl), refl), more)

print_row-All : (r : Row) → IsRow r → All IsText (print_row r)
print_row-All r (starts, (_, _, name, _), ttl, (_, _, clas, _), (_, _, type, _), (_, _, rdata)) =
    print_field-All r.name _ name (
      print_field-All (decimal r.ttl) _ (All-IsText-digits _ (decimal-IsDigit r.ttl))
        (print_field-All r.clas _ clas (print_field-All r.type r.rdata type rdata)))

All-no_eol : (s : Bytes) → All IsText s → All (λ c. is_eol c ≡ false) s
All-no_eol s h = All-implies IsText (λ c. is_eol c ≡ false) (λ x t. ground arith) s h

scan_row-print_row : (r : Row) → IsRow r → scan_row (print_row r) ≡ done r
unfolding scan_row scan_char
scan_row-print_row r h =
    let (starts, (n0, n1, _, n3), ttl, (c0, c1, _, c3), (t0, t1, _, t3), (r0, r1, r2)) = h in
    let no_nul = All-implies IsText (λ c. (c == 0) ≡ false) (λ x t. t.0.0) _ (print_row-All r h) in
    simp (
      c_str-none (print_row r) no_nul,
      skip_spaces-none r.name (b',' ∷ print_ttl r) n0 starts,
      scan_set-append is_comma 255 r.name b',' (print_ttl r) n0 n3 refl n1,
      scan_int-decimal r.ttl b',' (print_clas r) ttl refl,
      scan_set-append is_comma 4 r.clas b',' (print_type r) c0 c3 refl c1,
      scan_set-append is_comma 9 r.type b',' r.rdata t0 t3 refl t1,
      scan_set-whole is_eol 511 r.rdata r0 (All-no_eol r.rdata r2) r1,
    )

-- A line of text, and what is read behind it.
split_line :
    (s rest : Bytes) → All IsText s → split_lines [] (s ++ b'\n' ∷ rest) ≡ s ∷ split_lines [] rest
split_line s rest h =
    split_lines-append [] s rest (All-implies IsText (λ c. (c == b'\n') ≡ false) (λ x t. t.1) s h)

strip_line : (s : Bytes) → All IsText s → strip_cr s ≡ s
strip_line s h = strip_cr-none s (All-implies IsText (λ c. (c == b'\r') ≡ false) (λ x t. t.0.1) s h)

module _ (pton : Family → Bytes → Option Bytes) (type_cast clas_cast : Bytes → Option ℕ) where
  -- The rows' records added in order, up to the first that ends the program.
  unfoldable pub add_rows : List Row → Zone → Loaded Zone
  add_rows [] z = done z
  add_rows (r ∷ rows) z = add_row pton type_cast clas_cast r z >>= add_rows rows

  load_lines-print_rows :
      (rows : List Row) (z : Zone)
      → All IsRow rows
      → load_lines pton type_cast clas_cast (split_lines [] (print_rows rows)) z ≡ add_rows rows z
  unfolding load_lines add_rows split_lines
  load_lines-print_rows [] z h = refl
  load_lines-print_rows (r ∷ rows) z h =
      simp
        (
          split_line (print_row r) (print_rows rows) (print_row-All r h.0),
          strip_line (print_row r) (print_row-All r h.0),
          scan_row-print_row r h.0,
        )
        (bind_cong (add_row pton type_cast clas_cast r z) _ (add_rows rows)
          λ z'. load_lines-print_rows rows z' h.1)

  -- A file that names a zone and holds a row on each of its lines (each field within the length that it is
  -- read to, without a NUL, an end of a line or, but for the data, a comma; the name not led by a space, the
  -- time below 2 ^ 31) is read as its rows, whatever adding these comes to: the zone of the records that they
  -- make, in order, where the zone has a SOA record; else the program ends, as it does at the first row that
  -- makes no record or one of another zone.
  pub load_zone-print_zone :
      (name : Bytes) (rows : List Row)
      → All IsText name
      → All IsRow rows
      → load_zone pton type_cast clas_cast (s2dn name) (print_zone name rows)
        ≡ (add_rows rows (record { domain = s2dn name; rrs = [] }) >>= check_soa)
  unfolding load_zone first_line
  load_zone-print_zone name rows text h = simp (
    split_line name (print_rows rows) text,
    strip_line name text,
    (dn_beq_iff (s2dn name) (s2dn name)).1 refl,
    load_lines-print_rows rows (record { domain = s2dn name; rrs = [] }) h,
  )
