-- ===== src/Dnsd/Header/RoundTrip.antt =====
-- Messages written by `dump` and read by `parse`.
use nycu_intro_np.Prelude.{
  ℕ, ◌+◌, ◌*◌, ◌/◌, ◌%◌, ◌^◌, ◌<◌, ◌≡◌, refl, List, [], ◌∷◌, ◌++◌, reverse, some, Bytes, length,
  All, arith, append_assoc,
}
use nycu_intro_np.Dnsd.Dn.Labels.{FitsByte, data2dn-dn2data}
use nycu_intro_np.Dnsd.Header.{
  Flags, Header, get_flags, get_question, get_questions, parse, dump, dump_questions, dump_records,
}
use nycu_intro_np.Dnsd.Record.{Question, dump_question}
use nycu_intro_np.Dnsd.Word.{put16, data2uint16-put16}

-- The bit fields fit their widths.
pub record FlagsFit (f : Flags) : Type 0 where
  pub qr : f.qr < 2
  pub opcode : f.opcode < 16
  pub aa : f.aa < 2
  pub tc : f.tc < 2
  pub rd : f.rd < 2
  pub ra : f.ra < 2
  pub z : f.z < 8
  pub rcode : f.rcode < 16

flag_fields :
    (rd tc aa opcode qr : ℕ)
    → rd < 2
    → tc < 2
    → aa < 2
    → opcode < 16
    → qr < 2
    → let a = rd + tc * 2 + aa * 4 + opcode * 8 + qr * 128 in
      (a / 128 % 2 ≡ qr)
      × (a / 8 % 16 ≡ opcode)
      × (a / 4 % 2 ≡ aa)
      × (a / 2 % 2 ≡ tc)
      × (a % 2 ≡ rd)
flag_fields rd tc aa opcode qr h₁ h₂ h₃ h₄ h₅ = omega arith

reply_fields :
    (rcode z ra : ℕ)
    → rcode < 16
    → z < 8
    → ra < 2
    → let b = rcode + z * 16 + ra * 128 in (b / 128 % 2 ≡ ra) × (b / 16 % 8 ≡ z) × (b % 16 ≡ rcode)
reply_fields rcode z ra h₁ h₂ h₃ = omega arith

-- The bytes of the flags give the flags back.
pub get_flags-lem :
    (f : Flags)
    → FlagsFit f
    → get_flags
        (f.rd + f.tc * 2 + f.aa * 4 + f.opcode * 8 + f.qr * 128)
        (f.rcode + f.z * 16 + f.ra * 128)
      ≡ f
unfolding get_flags
get_flags-lem f h = ground (
  arith,
  flag_fields f.rd f.tc f.aa f.opcode f.qr h.rd h.tc h.aa h.opcode h.qr,
  reply_fields f.rcode f.z f.ra h.rcode h.z h.ra,
)

-- A question that a message can hold.
abbrev pub Writable : Question → Type 0
Writable q = All FitsByte (reverse q.domain) × (q.type < 2 ^ 16) × (q.clas < 2 ^ 16)

pub get_question-dump_question :
    (q : Question) (rest : Bytes)
    → Writable q
    → get_question (dump_question q ++ rest) ≡ some (q, rest)
unfolding get_question dump_question
get_question-dump_question q rest h =
    rw (append_assoc, append_assoc, data2dn-dn2data q.domain _ h.0)
      (rw (data2uint16-put16 q.type _ h.1, data2uint16-put16 q.clas rest h.2))

get_questions-dump_questions :
    (qs : List Question) (rest : Bytes)
    → All Writable qs
    → get_questions (length qs) (dump_questions qs ++ rest) ≡ some (qs, rest)
unfolding get_questions dump_questions
get_questions-dump_questions [] rest h = refl
get_questions-dump_questions (q ∷ qs) rest h = rw (append_assoc) (
    ground (
      arith,
      get_question-dump_question q (dump_questions qs ++ rest) h.0,
      get_questions-dump_questions qs rest h.1,
    ))

-- The two bytes of a count.
count_bytes : (n : ℕ) → n < 2 ^ 16 → n % 2 ^ 16 / 256 % 256 * 256 + n % 2 ^ 16 % 256 ≡ n
count_bytes n h = omega arith

id_bytes : (n : ℕ) → n < 2 ^ 16 → n / 256 % 256 * 256 + n % 256 ≡ n
id_bytes n h = omega arith

-- A header that a message can hold.
pub record HeaderFits (h : Header) : Type 0 where
  pub id : h.id < 2 ^ 16
  pub flags : FlagsFit h.flags
  pub questions : All Writable h.question
  pub question : length h.question < 2 ^ 16
  pub answer : length h.answer < 2 ^ 16
  pub authority : length h.authority < 2 ^ 16
  pub additional : length h.additional < 2 ^ 16

-- The header that a reader of `dump h` gets.
abbrev pub as_read : Header → Header
as_read h = record {
  id = h.id;
  flags = record (h.flags) { qr = 1; z = 0 };
  qdcount = length h.question;
  ancount = length h.answer;
  nscount = length h.authority;
  arcount = length h.additional;
  question = h.question;
  answer = [];
  authority = [];
  additional = [];
}

set_flags-FlagsFit : (f : Flags) → FlagsFit f → FlagsFit (record f { qr = 1; z = 0 })
set_flags-FlagsFit f h = omega arith

-- A message that was dumped is parsed as the same header: the identifier, the flags (as an answer,
-- with Z cleared), the four counts and the questions, whatever records stand behind them. The
-- records themselves are not read.
pub parse-dump : (h : Header) → HeaderFits h → parse (dump h) ≡ some (as_read h)
unfolding parse dump put16
parse-dump h fits =
    let records =
      dump_records h.answer ++ (dump_records h.authority ++ dump_records h.additional) in
    rw
      (
        id_bytes h.id fits.id,
        count_bytes (length h.question) fits.question,
        get_questions-dump_questions h.question records fits.questions,
      )
      (ground (
        arith,
        count_bytes (length h.answer) fits.answer,
        count_bytes (length h.authority) fits.authority,
        count_bytes (length h.additional) fits.additional,
        get_flags-lem (record (h.flags) { qr = 1; z = 0 }) (set_flags-FlagsFit h.flags fits.flags),
      ))
