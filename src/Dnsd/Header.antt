-- ===== src/Dnsd/Header.antt =====
-- Homework/2/dnsd/src/header.cpp and include/header.hpp: the header of a message with its sections.
pub mod RoundTrip
use nycu_intro_np.Prelude.{
  ℕ, ◌+◌, ◌*◌, ◌/◌, ◌%◌, ◌^◌, zero, suc, List, [], ◌∷◌, ◌++◌, Option, none, some, Bytes, length,
}
use nycu_intro_np.Dnsd.Dn.{data2dn}
use nycu_intro_np.Dnsd.Record.{Question, Record, dump_question, dump_record}
use nycu_intro_np.Dnsd.Word.{put16, data2uint16}

-- The bit fields of `MSG_FLAG`.
pub record Flags : Type 0 where
  pub qr : ℕ
  pub opcode : ℕ
  pub aa : ℕ
  pub tc : ℕ
  pub rd : ℕ
  pub ra : ℕ
  pub z : ℕ
  pub rcode : ℕ

-- `Header`, the buffer of the union seen as its fields.
pub record Header : Type 0 where
  pub id : ℕ
  pub flags : Flags
  pub qdcount : ℕ
  pub ancount : ℕ
  pub nscount : ℕ
  pub arcount : ℕ
  pub question : List Question
  pub answer : List Record
  pub authority : List Record
  pub additional : List Record

-- The two bytes that hold the bit fields: RD, TC, AA, Opcode, QR and RCODE, Z, RA, each from the
-- lowest bit up.
unfoldable pub put_flags : Flags → Bytes
put_flags f =
    (f.rd + f.tc * 2 + f.aa * 4 + f.opcode * 8 + f.qr * 128)
    ∷ (f.rcode + f.z * 16 + f.ra * 128)
    ∷ []

unfoldable pub get_flags : ℕ → ℕ → Flags
get_flags a b = record {
  qr = a / 128 % 2;
  opcode = a / 8 % 16;
  aa = a / 4 % 2;
  tc = a / 2 % 2;
  rd = a % 2;
  ra = b / 128 % 2;
  z = b / 16 % 8;
  rcode = b % 16;
}

infixl 5 ◌>>=◌
abbrev ◌>>=◌ {ℓ κ} : {A : Type ℓ} {B : Type κ} → Option A → (A → Option B) → Option B
none >>= f = none
some a >>= f = f a

-- One round of the loop over the questions.
unfoldable pub get_question : Bytes → Option (Question × Bytes)
get_question bytes = do
  (domain, b1) ← data2dn bytes
  (t, b2) ← data2uint16 b1
  (c, b3) ← data2uint16 b2
  some (record { domain = domain; type = t; clas = c }, b3)

-- The loop, `n` rounds of it.
unfoldable pub get_questions : ℕ → Bytes → Option (List Question × Bytes)
unfolding get_question
get_questions zero bytes = some ([], bytes)
get_questions (suc n) bytes =
    get_question bytes >>= λ p. get_questions n p.1 >>= λ r. some (p.0 ∷ r.0, r.1)

-- `Header::parse`; `none` where it reads past the end of the message. The other three sections are
-- emptied and not read.
unfoldable pub parse : Bytes → Option Header
unfolding get_questions get_flags
parse (i1 ∷ i2 ∷ f1 ∷ f2 ∷ q1 ∷ q2 ∷ a1 ∷ a2 ∷ n1 ∷ n2 ∷ r1 ∷ r2 ∷ buf) =
    get_questions (q1 * 256 + q2) buf >>= λ r. some (record {
      id = i1 * 256 + i2;
      flags = get_flags f1 f2;
      qdcount = q1 * 256 + q2;
      ancount = a1 * 256 + a2;
      nscount = n1 * 256 + n2;
      arcount = r1 * 256 + r2;
      question = r.0;
      answer = [];
      authority = [];
      additional = [];
    })
parse _ = none

unfoldable pub dump_questions : List Question → Bytes
dump_questions [] = []
dump_questions (q ∷ qs) = dump_question q ++ dump_questions qs

unfoldable pub dump_records : List Record → Bytes
dump_records [] = []
dump_records (r ∷ rs) = dump_record r ++ dump_records rs

-- `Header::dump`. It also sets QR, Z and the counts of the header itself, which nothing reads later.
unfoldable pub dump : Header → Bytes
unfolding put_flags dump_questions dump_records
dump h =
    put16 h.id
    ++ (put_flags (record (h.flags) { qr = 1; z = 0 })
        ++ (put16 (length h.question % 2 ^ 16)
            ++ (put16 (length h.answer % 2 ^ 16)
                ++ (put16 (length h.authority % 2 ^ 16)
                    ++ (put16 (length h.additional % 2 ^ 16)
                        ++ (dump_questions h.question
                            ++ (dump_records h.answer
                                ++ (dump_records h.authority ++ dump_records h.additional))))))))
