-- ===== src/Dnsd/Zone.antt =====
-- Homework/2/dnsd/src/{zone,config}.cpp: zones and the configuration as maps. Dnsd/Load reads them from
-- files.
pub mod Lookup
use nycu_intro_np.Prelude.{
  ℕ, Bool, true, false, not, ◌&&◌, ◌==◌, ◌≡◌, ◌↔◌, List, [], ◌∷◌, ◌++◌, Option, none, some, Bytes,
  equal, is_empty, if◌then◌else◌, Map, Eq, find, contains, bytes_eq, nat_eq, equal_iff, arith,
}
use nycu_intro_np.Dnsd.Dn.{Dn, ◌under◌}
use nycu_intro_np.Dnsd.Record.{
  Question, Record, Key, key, Family, enum_contains, niplike, type_a, type_aaaa, clas_in,
}
use nycu_intro_np.Dnsd.Result.{
  Result, ok, err, fault, ◌>>=◌, or_throw, server_failure, name_error, not_implemented,
}

-- Equality of names and of keys.
unfoldable pub dn_beq : Dn → Dn → Bool
dn_beq [] [] = true
dn_beq (x ∷ a) (y ∷ b) = equal x y && dn_beq a b
dn_beq _ _ = false

pub dn_beq_iff : (a b : Dn) → (dn_beq a b ≡ true) ↔ (a ≡ b)
unfolding dn_beq
dn_beq_iff (x ∷ a) (y ∷ b) = ground (arith, dn_beq_iff a b, equal_iff x y)
dn_beq_iff _ _ = ground arith

instance abbrev pub dn_eq : Eq Dn
dn_eq = record { same = dn_beq; same_iff = dn_beq_iff }

abbrev pub key_beq : Key → Key → Bool
key_beq (d, t, c) (e, u, k) = dn_beq d e && (t == u && c == k)

pub key_beq_iff : (a b : Key) → (key_beq a b ≡ true) ↔ (a ≡ b)
key_beq_iff (d, t, c) (e, u, k) = ground (arith, dn_beq_iff d e)

instance abbrev pub key_eq : Eq Key
key_eq = record { same = key_beq; same_iff = key_beq_iff }

abbrev pub Records : Type 0
Records = List Record

pub record Zone : Type 0 where
  pub domain : Dn
  pub rrs : Map Key Records

-- `rrs[k].emplace_back(rr)`.
unfoldable pub push_record : Key → Record → Map Key Records → Map Key Records
push_record k rr [] = (k, rr ∷ []) ∷ []
push_record k rr ((j, rs) ∷ m) =
    if key_beq j k then (j, rs ++ rr ∷ []) ∷ m else (j, rs) ∷ push_record k rr m

-- `Zone::add`; `none` where the program gives up and exits.
unfoldable pub add : Record → Zone → Option Zone
unfolding push_record
add rr z =
    if not (rr.domain under z.domain)
    then none
    else some (record z { rrs = push_record (key rr.question) rr z.rrs })

-- The loop of `Zone::Zone` over the records of the file.
unfoldable pub add_all : List Record → Zone → Option Zone
unfolding add
add_all [] z = some z
add_all (rr ∷ rrs) z = elim (add rr z) [ none ↦ none | some z' ↦ add_all rrs z' ]

-- The records at a key, or NAME_ERROR.
abbrev pub at_key : Key → Zone → Result Records
at_key k z = or_throw (find k z.rrs) name_error

-- `Zone::get(TYPE, CLAS)`, with the class IN that every call leaves out.
unfoldable pub get_type : ℕ → Zone → Result Records
get_type t z = at_key (z.domain, t, clas_in) z

abbrev pub found_or_none : Option Records → Records
found_or_none none = []
found_or_none (some rs) = rs

-- `Zone::getIP`.
unfoldable pub get_ip : Dn → Zone → Records
get_ip dn z =
    found_or_none (find (dn, type_a, clas_in) z.rrs)
    ++ found_or_none (find (dn, type_aaaa, clas_in) z.rrs)

-- `Zone::get(Question)`.
unfoldable pub get : (Family → Bytes → Option Bytes) → Question → Zone → Result Records
get pton q z =
    if not (q.domain under z.domain)
    then err server_failure
    else (niplike pton q.domain z.domain >>= λ rr.
        if not (is_empty rr)
        then ok rr
        else if not (enum_contains q.type)
        then err not_implemented
        else at_key (key q) z)

-- `Config::zones`, `has` and `get`.
abbrev pub Config : Type 0
Config = Map Dn Zone

unfoldable pub has : Dn → Config → Bool
has dn config = contains dn config

unfoldable pub get_zone : Dn → Config → Result Zone
get_zone dn config = elim (find dn config) [ none ↦ fault | some z ↦ ok z ]
