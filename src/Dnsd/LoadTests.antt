-- ===== src/Dnsd/LoadTests.antt =====
-- Reading the configuration and the zone files of the name server on concrete inputs.
use nycu_intro_np.Prelude.{
  ℕ, ◌≡◌, refl, List, [], ◌∷◌, ◌++◌, Option, none, some, Bytes, codes, equal, arith, if◌then◌else◌,
  c_str, contains,
}
use nycu_intro_np.Dnsd.Dn.{s2dn}
use nycu_intro_np.Dnsd.Record.{
  Family, inet, inet6, type_a, type_soa, clas_in, skip_spaces, take_digits,
}
use nycu_intro_np.Dnsd.Scan.{
  split_lines, strip_cr, take_until, not_empty, scan_set, scan_char, scan_digits, scan_signed,
  scan_int,
}
use nycu_intro_np.Dnsd.Zone.{has, dn_beq, key_eq, dn_eq}
use nycu_intro_np.Dnsd.Load.{
  done, quits, ◌>>=◌, unset, hangs, Row, scan_row, load_lines, check_soa, first_line, load_zone,
  scan_pair, add_zone, load_zones, load_config,
}
use nycu_intro_np.Dnsd.Load.RoundTrip.{print_zone, add_rows, load_zone-print_zone}
use nycu_intro_np.Dnsd.Load.Listed.{print_config, add_zones, load_config-print_config}

abbrev address : Family → Bytes → Option Bytes
address inet text = if equal text (codes "1.2.3.4") then some (1 ∷ 2 ∷ 3 ∷ 4 ∷ []) else none
address inet6 text = none

abbrev type_cast : Bytes → Option ℕ
type_cast text =
    if equal text (codes "A")
    then some type_a
    else if equal text (codes "SOA")
    then some type_soa
    else none

abbrev clas_cast : Bytes → Option ℕ
clas_cast text = if equal text (codes "IN") then some clas_in else none

abbrev www_row : Row
www_row = record {
  name = codes "w";
  ttl = 60;
  clas = codes "IN";
  type = codes "A";
  rdata = codes "1.2.3.4";
}

abbrev soa_row : Row
soa_row = record {
  name = codes "@";
  ttl = 7;
  clas = codes "IN";
  type = codes "SOA";
  rdata = codes "n. r. 1 2 3 4 5";
}

abbrev newline : Bytes
newline = b'\n' ∷ []

-- A row with a space in front and a carriage return at its end.
scan_row_text : scan_row (strip_cr (codes " w,60,IN,A,1.2.3.4" ++ b'\r' ∷ [])) ≡ done www_row
unfolding scan_row strip_cr c_str skip_spaces scan_set take_until not_empty scan_char scan_int
    scan_signed scan_digits take_digits
scan_row_text = refl

-- A blank line sets no variable.
scan_row_blank : scan_row [] ≡ unset
unfolding scan_row c_str skip_spaces scan_set take_until not_empty
scan_row_blank = refl

-- A line of the configuration that starts with a comma is read for ever, from the second on.
load_zones_comma :
    load_zones address type_cast clas_cast
      (λ p. [])
      9
      (some (codes "n"))
      (some (codes "p"))
      (codes ",x")
      ((s2dn (codes "n"), record { domain = []; rrs = [] }) ∷ [])
    ≡ hangs
unfolding load_zones skip_spaces scan_pair scan_set take_until not_empty add_zone has contains s2dn
    dn_beq equal
load_zones_comma = refl

-- A zone without its SOA record ends the program.
load_zone_soa :
    load_zone address type_cast clas_cast (codes "n" ∷ []) (codes "n." ++ newline) ≡ quits
unfolding load_zone load_lines split_lines strip_cr first_line check_soa contains s2dn dn_beq equal
load_zone_soa = refl

load_zone-print_zone_example :
    load_zone address type_cast clas_cast
      (s2dn (codes "n."))
      (print_zone (codes "n.") (soa_row ∷ www_row ∷ []))
    ≡ (add_rows address type_cast clas_cast
          (soa_row ∷ www_row ∷ [])
          (record { domain = s2dn (codes "n."); rrs = [] })
        >>= check_soa)
load_zone-print_zone_example =
    load_zone-print_zone address type_cast clas_cast (codes "n.") (soa_row ∷ www_row ∷ [])
      (ground arith) (ground arith)

abbrev file_n : Bytes → Bytes
file_n path = print_zone (codes "n.") (soa_row ∷ www_row ∷ [])

abbrev entries : List (Bytes × Bytes)
entries = (codes "n.", codes "z") ∷ (codes "n.", codes "y") ∷ []

load_config-print_config_example :
    load_config address type_cast clas_cast file_n (print_config (codes "8.8.8.8") entries) ≡ (
      add_zones address type_cast clas_cast file_n entries [] >>= λ zones.
      done (codes "8.8.8.8", zones))
load_config-print_config_example =
    load_config-print_config address type_cast clas_cast file_n (codes "8.8.8.8") entries refl
      (omega arith) (ground arith) (ground arith)
