-- ===== src/Dnsd/Server.antt =====
-- Homework/2/dnsd/src/server.cpp: how a query is answered. `pton` is the C library's `inet_pton`;
-- `upstream` is the exchange with the server that queries are forwarded to: the datagram that answers a
-- query, or none where `recv` fails.
pub mod Choice
pub mod Replies
use nycu_intro_np.Prelude.{
  ℕ, not, ◌==◌, List, [], ◌∷◌, ◌++◌, Option, none, some, Bytes, if◌then◌else◌, take,
}
use nycu_intro_np.Dnsd.Dn.{Dn, pop_back}
use nycu_intro_np.Dnsd.Header.{Header, parse, dump}
use nycu_intro_np.Dnsd.Record.{Question, Family, type_ns, type_soa}
use nycu_intro_np.Dnsd.Result.{
  Result, ok, err, fault, format_error, name_error, not_implemented, forward,
}
use nycu_intro_np.Dnsd.Zone.{Zone, Records, Config, get, get_type, get_ip, has, get_zone}

-- A header that a function changed, and how the function ended.
abbrev pub After : Type 0
After = Header × Result Bytes

abbrev pub set_rcode : ℕ → Header → Header
set_rcode c h = record h { flags = record (h.flags) { rcode = c } }

-- `header.AA = 1; header.RD = 1; header.RA = 0; header.RCODE = 0`.
unfoldable pub set_authoritative : Header → Header
set_authoritative h = record h { flags = record (h.flags) { aa = 1; rd = 1; ra = 0; rcode = 0 } }

-- The loop over the records found: each is an answer, and the addresses of the name that it refers
-- to are additional.
unfoldable pub add_answers : Zone → Records → Header → Header
add_answers z [] h = h
add_answers z (rr ∷ rrs) h =
    add_answers z rrs
      (record h { answer = h.answer ++ rr ∷ []; additional = h.additional ++ get_ip rr.datadn z })

-- The `catch (NAME_ERROR)` clause, and the dump behind it.
unfoldable pub name_error_reply : Zone → Header → After
name_error_reply z h = elim (get_type type_soa z) [
  | ok rrs ↦ let h' = record (set_rcode 3 h) { authority = rrs } in (h', ok (dump h'))
  | err e ↦ (set_rcode 3 h, err e)
  | fault ↦ (h, fault)
]

-- The rest of the `try` block behind the loop.
unfoldable pub add_authority : ℕ → Zone → Header → After
unfolding name_error_reply
add_authority t z h = if t == type_ns then (h, ok (dump h)) else elim (get_type type_ns z) [
  | ok rrs ↦ let h' = record h { authority = h.authority ++ rrs } in (h', ok (dump h'))
  | err name_error ↦ name_error_reply z h
  | err e ↦ (h, err e)
  | fault ↦ (h, fault)
]

-- The loop of `query` over the domain and those above it, on as many rounds as it has labels.
unfoldable pub search_zone : List Bytes → Config → Dn → Option Dn
search_zone [] config dn = none
search_zone (l ∷ rounds) config dn =
    let next = search_zone rounds config (pop_back dn) in if has dn config then some dn else next

-- What a query is answered with; or the program ends, or runs into undefined behaviour.
pub data Reply : Type 0 where
  replies : Bytes → Reply
  quits : Reply
  undefined : Reply

-- `Server::forward`: a datagram is cut to the buffer; a length of -1 makes a string that throws, if `fail`
-- has not ended the program.
unfoldable pub forward_query : (Bytes → Option Bytes) → Bytes → Reply
forward_query upstream qs = elim (upstream qs) [
  | none ↦ quits
  | some answer ↦ replies (take 2048 answer)
]

module _ (pton : Family → Bytes → Option Bytes) where
  -- What `query` does with the zone that it found.
  unfoldable pub answer_from : Zone → Question → Header → After
  unfolding set_authoritative add_authority name_error_reply add_answers
  answer_from z q header =
      let h = set_authoritative header in
      elim (get pton q z) [
        | ok rrs ↦ add_authority q.type z (add_answers z rrs h)
        | err name_error ↦ name_error_reply z h
        | err e ↦ (h, err e)
        | fault ↦ (h, fault)
      ]

  -- `Server::query(Header&)`.
  unfoldable pub query_header : Config → Header → After
  unfolding answer_from search_zone
  query_header config h =
      if not (h.qdcount == 1) then (h, err not_implemented) else elim h.question [
        | [] ↦ (h, fault)
        | q ∷ qs ↦ elim (search_zone q.domain config q.domain) [
          | none ↦ (h, err forward)
          | some dn ↦ elim (get_zone dn config) [
            | ok z ↦ answer_from z q h
            | err e ↦ (h, err e)
            | fault ↦ (h, fault)
          ]
        ]
      ]

  -- The `catch` clauses of `Server::query(std::string)`.
  unfoldable pub reply : (Bytes → Option Bytes) → Bytes → After → Reply
  reply upstream qs (h, ok bytes) = replies bytes
  reply upstream qs (h, err forward) = forward_query upstream qs
  reply upstream qs (h, err format_error) = replies (dump (set_rcode 1 h))
  reply upstream qs (h, err not_implemented) = replies (dump (set_rcode 4 h))
  reply upstream qs (h, err _) = replies (dump (set_rcode 2 h))
  reply upstream qs (h, fault) = undefined

  -- `Server::query(std::string)`.
  unfoldable pub query : (Bytes → Option Bytes) → Config → Bytes → Reply
  unfolding query_header reply
  query upstream config qs = elim (parse qs) [
    | none ↦ undefined
    | some h ↦ reply upstream qs (query_header config h)
  ]
