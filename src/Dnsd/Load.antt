-- ===== src/Dnsd/Load.antt =====
-- Homework/2/dnsd/src/{zone,config}.cpp: reading the configuration and the zone files. `inet_pton`, the
-- names of the enumerators that magic_enum knows and the contents of the files are parameters; a
-- file that cannot be opened reads as an empty one.
pub mod RoundTrip
pub mod Listed
use nycu_intro_np.Prelude.{
  ℕ, zero, suc, ◌≡◌, refl, Bool, ◌||◌, ◌==◌, List, [], ◌∷◌, ◌++◌, Option, none, some, Bytes,
  if◌then◌else◌, Map, emplace, contains, c_str, length, is_empty, drop,
}
use nycu_intro_np.Dnsd.Dn.{Dn, s2dn}
use nycu_intro_np.Dnsd.Record.{Record, Family, new_record, type_soa, clas_in, skip_spaces}
use nycu_intro_np.Dnsd.Result.{Result, ok, err}
use nycu_intro_np.Dnsd.Result
use nycu_intro_np.Dnsd.Zone.{Zone, Config, add, has, dn_beq, key_eq, dn_eq}
use nycu_intro_np.Dnsd.Scan.{split_lines, strip_cr, scan_set, scan_char, scan_int, scan_word}

-- What a constructor makes; or the program ends (exit, an exception that nothing catches, or a failed
-- assertion), goes on with variables that were never set, or reads the same text for ever.
pub data Loaded {ℓ} (A : Type ℓ) : Type ℓ where
  done : A → Loaded A
  quits : Loaded A
  unset : Loaded A
  hangs : Loaded A

infixl 5 ◌>>=◌
abbrev pub ◌>>=◌ {ℓ κ} : {A : Type ℓ} {B : Type κ} → Loaded A → (A → Loaded B) → Loaded B
done a >>= f = f a
quits >>= f = quits
unset >>= f = unset
hangs >>= f = hangs

pub bind_cong {ℓ κ} :
    {A : Type ℓ} {B : Type κ}
    → (m : Loaded A) (f g : A → Loaded B) → ((a : A) → f a ≡ g a)
    → (m >>= f) ≡ (m >>= g)
bind_cong (done a) f g h = h a
bind_cong quits f g h = refl
bind_cong unset f g h = refl
bind_cong hangs f g h = refl

abbrev pub or_unset {ℓ} : {A : Type ℓ} → Option A → Loaded A
or_unset none = unset
or_unset (some a) = done a

abbrev pub or_quits {ℓ} : {A : Type ℓ} → Option A → Loaded A
or_quits none = quits
or_quits (some a) = done a

-- An exception in a constructor ends the program.
abbrev pub uncaught {ℓ} : {A : Type ℓ} → Result A → Loaded A
uncaught (ok a) = done a
uncaught (err e) = quits
uncaught Result.fault = unset

-- The fields of a line.
pub record Row : Type 0 where
  pub name : Bytes
  pub ttl : ℕ
  pub clas : Bytes
  pub type : Bytes
  pub rdata : Bytes

abbrev pub is_comma : ℕ → Bool
is_comma c = c == b','

abbrev pub is_eol : ℕ → Bool
is_eol c = c == b'\r' || c == b'\n'

-- `sscanf(line, " %255[^,],%d,%4[^,],%9[^,],%511[^\r\n]", …)`; a format that does not match leaves
-- variables unset.
unfoldable pub scan_row : Bytes → Loaded Row
scan_row line = do
  (name, s1) ← or_unset (scan_set is_comma 255 (skip_spaces (c_str line)))
  s2 ← or_unset (scan_char b',' s1)
  (ttl, s3) ← or_unset (scan_int s2)
  s4 ← or_unset (scan_char b',' s3)
  (clas, s5) ← or_unset (scan_set is_comma 4 s4)
  s6 ← or_unset (scan_char b',' s5)
  (type, s7) ← or_unset (scan_set is_comma 9 s6)
  s8 ← or_unset (scan_char b',' s7)
  (rdata, s9) ← or_unset (scan_set is_eol 511 s8)
  done (record { name = name; ttl = ttl; clas = clas; type = type; rdata = rdata })

-- `v2e` of a text: a text that names no enumerator gives E(-1).
unfoldable pub v2e : (Bytes → Option ℕ) → Bytes → ℕ
v2e enum_cast v = elim (enum_cast v) [ none ↦ 65535 | some e ↦ e ]

-- The assertion that the zone has a SOA record.
unfoldable pub check_soa : Zone → Loaded Zone
check_soa z = if contains (z.domain, type_soa, clas_in) z.rrs then done z else quits

unfoldable pub first_line : List Bytes → Bytes
first_line [] = []
first_line (line ∷ lines) = strip_cr line

-- `fscanf(config, " %255[^,],%511s", domain, path)` behind the spaces; what the format does not reach keeps
-- its value.
unfoldable pub scan_pair : Option Bytes → Option Bytes → Bytes → Option Bytes × Option Bytes × Bytes
scan_pair domain path text = elim (scan_set is_comma 255 text) [
  | none ↦ (domain, path, text)
  | some (d, s1) ↦ elim (scan_char b',' s1) [
    | none ↦ (some (c_str d), path, s1)
    | some s2 ↦ elim (scan_word 511 s2) [
      | none ↦ (some (c_str d), path, skip_spaces s2)
      | some (p, rest) ↦ (some (c_str d), some (c_str p), rest)
    ]
  ]
]

module _ (pton : Family → Bytes → Option Bytes) (type_cast clas_cast : Bytes → Option ℕ) where
  -- The record of a row, and its addition.
  unfoldable pub add_row : Row → Zone → Loaded Zone
  add_row r z = do
    rr ← uncaught (
        new_record pton (z.domain ++ s2dn r.name) (v2e type_cast r.type) (v2e clas_cast r.clas)
          r.ttl r.rdata)
    or_quits (add rr z)

  -- The loop of `Zone::Zone`.
  unfoldable pub load_lines : List Bytes → Zone → Loaded Zone
  load_lines [] z = done z
  load_lines (line ∷ lines) z = scan_row (strip_cr line) >>= λ r. add_row r z >>= load_lines lines

  -- `Zone::Zone`.
  unfoldable pub load_zone : Dn → Bytes → Loaded Zone
  load_zone domain file =
      let lines = split_lines [] file in
      if dn_beq (s2dn (first_line lines)) domain
      then (load_lines (drop 1 lines) (record { domain = domain; rrs = [] }) >>= check_soa)
      else quits

  module _ (read_file : Bytes → Bytes) where
    -- `zones.try_emplace(dn, dn, zone_path)`: the zone is made only where there is none.
    unfoldable pub add_zone : Bytes → Bytes → Config → Loaded Config
    add_zone domain path zones =
        let dn = s2dn domain in
        if has dn zones
        then done zones
        else (load_zone dn (read_file path) >>= λ z. done (emplace dn z zones))

    -- The loop of `Config::Config`. Each round takes a character and a unit of fuel, or leaves the text as it
    -- is, and so do the rounds behind it.
    unfoldable pub load_zones : ℕ → Option Bytes → Option Bytes → Bytes → Config → Loaded Config
    load_zones zero domain path text zones = hangs
    load_zones (suc fuel) domain path text zones =
        let start = skip_spaces text in
        let (domain', path', rest) = scan_pair domain path start in
        let round = (do
          d ← or_unset domain'
          p ← or_unset path'
          zones' ← add_zone d p zones
          load_zones fuel domain' path' rest zones') in
        if is_empty start then done zones else round

    -- `Config::Config`: the address to forward to, then the zones.
    unfoldable pub load_config : Bytes → Loaded (Bytes × Config)
    load_config text = do
      (forward_ip, rest) ← or_unset (scan_word 19 text)
      zones ← load_zones (suc (length rest)) none none rest []
      done (forward_ip, zones)
