-- ===== src/Dnsd/Server/Replies.antt =====
-- What a query is answered with.
use nycu_intro_np.Prelude.{
  ◌≡◌, refl, ◌∙◌, true, false, ◌==◌, List, [], ◌∷◌, ◌++◌, Option, none, some, Bytes, arith,
  append_assoc, append-nil, Option-cases, inl, inr, ◌≢◌, length, ◌<◌, ◌≤◌, ℕ, zero, suc, ap, take,
}
use nycu_intro_np.Dnsd.Dn.{Dn}
use nycu_intro_np.Dnsd.Header.{Header, parse, dump}
use nycu_intro_np.Dnsd.Record.{Question, Family, type_ns, type_soa}
use nycu_intro_np.Dnsd.Result.{ok, err, name_error}
use nycu_intro_np.Dnsd.Server.{
  After, set_rcode, set_authoritative, add_answers, answer_from, search_zone, query_header, reply,
  query, replies, quits, undefined, forward_query,
}
use nycu_intro_np.Dnsd.Server.Choice.{IsForeign, search_zone_lem}
use nycu_intro_np.Dnsd.Zone.{Zone, Records, Config, get, get_type, get_ip}

-- The addresses of the names that some records refer to, in order.
abbrev pub addresses : Zone → Records → Records
addresses z [] = []
addresses z (rr ∷ rrs) = get_ip rr.datadn z ++ addresses z rrs

-- The header with the records found, and the addresses that go with them.
abbrev pub with_answers : Zone → Records → Header → Header
with_answers z rrs h = record h {
  answer = h.answer ++ rrs;
  additional = h.additional ++ addresses z rrs;
}

add_answers_lem :
    (z : Zone) (rrs : Records) (h : Header) → add_answers z rrs h ≡ with_answers z rrs h
unfolding add_answers
add_answers_lem z [] h = simp append-nil
add_answers_lem z (rr ∷ rrs) h =
    add_answers_lem z rrs
      (record h { answer = h.answer ++ rr ∷ []; additional = h.additional ++ get_ip rr.datadn z })
    ∙ simp append_assoc

abbrev sent_as : Header → After
sent_as h = (h, ok (dump h))

module _ (pton : Family → Bytes → Option Bytes) (z : Zone) (q : Question) (h : Header) where
  -- A zone that has the records asked for: they are the answer, authoritative and without an error
  -- code, with the addresses of the names that they refer to. Unless NS records were asked for, the
  -- zone's NS records come with them; and where it has none, the reply is a name error with its SOA
  -- records, although it holds the answer.
  pub answer_from-found :
      (rrs : Records)
      → get pton q z ≡ ok rrs
      → let found = with_answers z rrs (set_authoritative h) in
        ((q.type == type_ns) ≡ true → answer_from pton z q h ≡ sent_as found)
        × ((ns : Records)
            → (q.type == type_ns) ≡ false
            → get_type type_ns z ≡ ok ns
            → answer_from pton z q h ≡ sent_as (record found { authority = found.authority ++ ns }))
        × ((soa : Records)
            → (q.type == type_ns) ≡ false
            → get_type type_ns z ≡ err name_error
            → get_type type_soa z ≡ ok soa
            → answer_from pton z q h ≡ sent_as (record (set_rcode 3 found) { authority = soa }))
  unfolding answer_from
  answer_from-found rrs e = (
    λ t. ground (arith, add_answers_lem z rrs (set_authoritative h)),
    λ ns t n. ground (arith, add_answers_lem z rrs (set_authoritative h)),
    λ soa t n s. ground (arith, add_answers_lem z rrs (set_authoritative h)),
  )

search_zone-none :
    (config : Config) (dn : Dn) → IsForeign config dn → search_zone dn config dn ≡ none
search_zone-none config dn foreign = elim (Option-cases (search_zone dn config dn)) [
  | inl e ↦ e
  | inr (d, e) ↦
      let near = (search_zone_lem config dn).0 d e in
      absurd (cc (foreign d near.above.0 near.above.1 near.ne_root, near.configured))
]

take-short : (n : ℕ) (bytes : Bytes) → length bytes ≤ n → take n bytes ≡ bytes
take-short zero [] h = refl
take-short zero (b ∷ bytes) h = absurd (omega arith)
take-short (suc n) [] h = refl
take-short (suc n) (b ∷ bytes) h = ap (◌∷◌ b) (take-short n bytes (omega arith))

parse_short : (qs : Bytes) → length qs < 12 → parse qs ≡ none
unfolding parse
parse_short (a ∷ b ∷ c ∷ d ∷ e ∷ f ∷ g ∷ h ∷ i ∷ j ∷ k ∷ l ∷ qs) short = absurd (omega arith)
parse_short _ short = refl

module _ (pton : Family → Bytes → Option Bytes) (upstream : Bytes → Option Bytes)
    (config : Config) where
  -- A query with one question about a name that lies in no configured zone is passed on as it came. The
  -- first 2048 bytes of the answer from upstream are passed back as they came, so all of an answer that is
  -- no longer; where no answer can be received the program ends.
  pub query_foreign :
      (qs : Bytes) (h : Header) (q : Question) (more : List Question)
      → parse qs ≡ some h
      → h.qdcount ≡ 1
      → h.question ≡ q ∷ more
      → IsForeign config q.domain
      → ((answer : Bytes)
          → upstream qs ≡ some answer
          → (query pton upstream config qs ≡ replies (take 2048 answer))
            × (length answer ≤ 2048 → query pton upstream config qs ≡ replies answer))
        × (upstream qs ≡ none → query pton upstream config qs ≡ quits)
  unfolding query query_header reply forward_query
  query_foreign qs h q more p n e foreign = (
    λ answer received. (
      ground (arith, search_zone-none config q.domain foreign),
      λ short.
          ground (arith, search_zone-none config q.domain foreign, take-short 2048 answer short),
    ),
    λ lost. ground (arith, search_zone-none config q.domain foreign),
  )

  -- A message that does not carry exactly one question is sent back with the code for what is not
  -- implemented, and nothing is looked up or passed on.
  query_not_one :
      (qs : Bytes) (h : Header)
      → parse qs ≡ some h
      → h.qdcount ≢ 1
      → query pton upstream config qs ≡ replies (dump (set_rcode 4 h))
  unfolding query query_header reply
  query_not_one qs h p n = ground arith

  -- A message shorter than the fixed part of a header makes the server read past its end.
  query_short : (qs : Bytes) → length qs < 12 → query pton upstream config qs ≡ undefined
  unfolding query
  query_short qs short = rw (parse_short qs short, query)
