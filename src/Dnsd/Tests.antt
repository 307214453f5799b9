-- ===== src/Dnsd/Tests.antt =====
-- The name server on concrete inputs.
use nycu_intro_np.Prelude.{
  ℕ, ◌-◌, ◌^◌, ◌≡◌, refl, List, [], ◌∷◌, ◌++◌, Option, none, some, Bytes, codes, equal, find, arith,
  if◌then◌else◌, length, contains, equal_iff,
}
use nycu_intro_np.Dnsd.Dn.{Dn, ◌under◌, minus, s2dn, dn2data, data2dn, pop_back}
use nycu_intro_np.Dnsd.Dn.Labels.{data2dn-dn2data}
use nycu_intro_np.Dnsd.Header.{Flags, Header, parse, dump}
use nycu_intro_np.Dnsd.Header.RoundTrip.{as_read, parse-dump}
use nycu_intro_np.Dnsd.Record.{
  Family, inet, inet6, Question, Record, niplike, type_a, type_ns, type_soa, clas_in, dump_mx,
  read_number, read_last, read_word, dump_question, dump_record,
}
use nycu_intro_np.Dnsd.Record.Nip.{niplike_lem}
use nycu_intro_np.Dnsd.Result.{ok, err, format_error}
use nycu_intro_np.Dnsd.Server.{search_zone, answer_from, query, replies, set_authoritative}
use nycu_intro_np.Dnsd.Server.Choice.{IsClosest, IsForeign, search_zone_lem}
use nycu_intro_np.Dnsd.Server.Replies.{with_answers, answer_from-found, query_foreign}
use nycu_intro_np.Dnsd.Word.{put16, data2uint16}
use nycu_intro_np.Dnsd.Zone.{
  Zone, Config, add_all, push_record, found_or_none, dn_beq, get, get_type, get_ip, has, get_zone,
  key_eq,
}
use nycu_intro_np.Dnsd.Zone.Lookup.{find-add_all}

-- A library that knows one address.
abbrev loopback : Family → Bytes → Option Bytes
loopback inet text = if equal text (codes "127.0.0.1") then some (127 ∷ 0 ∷ 0 ∷ 1 ∷ []) else none
loopback inet6 text = none

abbrev org : Dn
org = codes "org" ∷ codes "ex" ∷ []

abbrev www : Dn
www = codes "org" ∷ codes "ex" ∷ codes "www" ∷ []

abbrev rr_at : Dn → ℕ → Record
rr_at dn t = record {
  question = record { domain = dn; type = t; clas = clas_in };
  ttl = 300;
  text = codes "x";
  rdata = 1 ∷ 2 ∷ [];
  datadn = [];
}

abbrev empty_zone : Zone
empty_zone = record { domain = org; rrs = [] }

abbrev zone_rrs : List Record
zone_rrs = rr_at org type_soa ∷ rr_at org type_ns ∷ rr_at www type_a ∷ rr_at org type_ns ∷ []

abbrev zone : Zone
zone = record {
  domain = org;
  rrs =
      ((org, type_soa, clas_in), rr_at org type_soa ∷ [])
      ∷ ((org, type_ns, clas_in), rr_at org type_ns ∷ rr_at org type_ns ∷ [])
      ∷ ((www, type_a, clas_in), rr_at www type_a ∷ [])
      ∷ [];
}

abbrev config : Config
config = (org, zone) ∷ []

abbrev ask : Dn → ℕ → Question
ask dn t = record { domain = dn; type = t; clas = clas_in }

abbrev query_flags : Flags
query_flags = record { qr = 0; opcode = 0; aa = 0; tc = 0; rd = 1; ra = 0; z = 2; rcode = 0 }

abbrev asked : List Question → Header
asked qs = record {
  id = 4660;
  flags = query_flags;
  qdcount = length qs;
  ancount = 0;
  nscount = 0;
  arcount = 0;
  question = qs;
  answer = [];
  authority = [];
  additional = [];
}

s2dn_names : s2dn (codes "www.ex.org.") ≡ www
unfolding s2dn equal
s2dn_names = refl

dn2data_name : dn2data org ≡ 2 ∷ b'e' ∷ b'x' ∷ 3 ∷ b'o' ∷ b'r' ∷ b'g' ∷ 0 ∷ []
unfolding dn2data
dn2data_name = refl

dump_mx_text : dump_mx (codes "10 a.b") ≡ ok (0 ∷ 10 ∷ 1 ∷ b'a' ∷ 1 ∷ b'b' ∷ 0 ∷ [])
unfolding dump_mx read_number read_word s2dn equal dn2data put16
dump_mx_text = refl

read_last_fails : read_last (2 ^ 32) (codes " x") ≡ some 0
unfolding read_last
read_last_fails = refl

read_number_negative : read_number (2 ^ 32) (codes " -1 x") ≡ some (2 ^ 32 - 1, codes " x")
unfolding read_number
read_number_negative = refl

-- A whole query for www.ex.org, and what comes back.
www_answer :
    query loopback (λ qs. some qs) config (dump (asked (ask www type_a ∷ [])))
    ≡ replies (
        dump
          (record (set_authoritative (record (asked (ask www type_a ∷ [])) {
            flags = record query_flags { qr = 1; z = 0 };
          })) {
            answer = rr_at www type_a ∷ [];
            authority = rr_at org type_ns ∷ rr_at org type_ns ∷ [];
          }))
unfolding query parse dump dump_question dump_record put16 data2uint16 dn2data data2dn equal dn_beq
    has contains get_zone find get get_type get_ip ◌under◌ minus niplike pop_back
www_answer = refl

data2dn-dn2data_example : data2dn (dn2data org ++ 7 ∷ []) ≡ some (org, 7 ∷ [])
data2dn-dn2data_example = data2dn-dn2data org (7 ∷ []) (omega arith)

parse-dump_example :
    parse (dump (asked (ask www type_a ∷ []))) ≡ some (as_read (asked (ask www type_a ∷ [])))
parse-dump_example = parse-dump (asked (ask www type_a ∷ [])) (omega arith)

niplike_lem_example :
    niplike loopback (org ++ (codes "x" ∷ codes "1" ∷ codes "0" ∷ codes "0" ∷ codes "999" ∷ [])) org
    ≡ err format_error
unfolding equal
niplike_lem_example =
    ((niplike_lem loopback org (codes "x" ∷ codes "1" ∷ codes "0" ∷ codes "0" ∷ codes "999" ∷ [])).0
        (codes "999") (codes "0") (codes "0") (codes "1") (codes "x") refl (omega arith)).1
      refl

find-add_all_example :
    found_or_none (find (org, type_ns, clas_in) zone.rrs)
    ≡ rr_at org type_ns ∷ rr_at org type_ns ∷ []
unfolding add_all ◌under◌ equal push_record dn_beq find
find-add_all_example = find-add_all zone_rrs empty_zone zone (org, type_ns, clas_in) refl

search_zone_lem_example : IsClosest config www org
unfolding search_zone has pop_back contains dn_beq equal
search_zone_lem_example = (search_zone_lem config www).0 org refl

answer_from-found_example : answer_from loopback zone (ask www type_a) (asked []) ≡ (
  record (with_answers zone (rr_at www type_a ∷ []) (set_authoritative (asked []))) {
    authority = rr_at org type_ns ∷ rr_at org type_ns ∷ [];
  },
  ok (
      dump (record (with_answers zone (rr_at www type_a ∷ []) (set_authoritative (asked []))) {
        authority = rr_at org type_ns ∷ rr_at org type_ns ∷ [];
      })),
)
unfolding get get_type ◌under◌ equal dn_beq find set_authoritative minus niplike
answer_from-found_example =
    (answer_from-found loopback zone (ask www type_a) (asked []) (rr_at www type_a ∷ []) refl).1
      (rr_at org type_ns ∷ rr_at org type_ns ∷ []) refl refl

abbrev net : Dn
net = codes "net" ∷ []

net-IsForeign : IsForeign config net
unfolding has contains dn_beq equal
net-IsForeign [] s h ne = absurd (ne refl)
net-IsForeign (x ∷ e) s h ne = ground (arith, equal_iff (codes "org") x)

query_foreign_example :
    query loopback (λ qs. some qs) config (dump (asked (ask net type_a ∷ [])))
    ≡ replies (dump (asked (ask net type_a ∷ [])))
unfolding dump dump_question dn2data put16
query_foreign_example =
    ((query_foreign loopback (λ qs. some qs) config (dump (asked (ask net type_a ∷ [])))
          (as_read (asked (ask net type_a ∷ []))) (ask net type_a) []
          (parse-dump (asked (ask net type_a ∷ [])) (omega arith)) refl refl net-IsForeign).0
        (dump (asked (ask net type_a ∷ []))) refl).1
      (omega arith)
