-- ===== src/Dnsd/Record.antt =====
-- Homework/2/dnsd/src/record.cpp and include/{enum,record}.hpp. `TYPE` and `CLAS` are enumerations
-- over `uint16_t` whose values need not be enumerators: plain numbers here. `inet_pton` of the C
-- library is the parameter `pton`: the bytes of the address that a text of the family stands for.
pub mod Nip
use nycu_intro_np.Prelude.{
  ℕ, ◌+◌, ◌-◌, ◌*◌, ◌%◌, ◌^◌, zero, suc, Bool, true, false, not, ◌&&◌, ◌||◌, List, [], ◌∷◌, ◌++◌,
  reverse, Option, none, some, Bytes, is_empty, is_digit, ltb, leb, ◌==◌, if◌then◌else◌, length,
  all,
}
use nycu_intro_np.Dnsd.Dn.{Dn, minus, pop_back, s2dn, dn2s, dn2data}
use nycu_intro_np.Dnsd.Result.{Result, ok, ◌>>=◌, format_error, from_option, or_throw}
use nycu_intro_np.Dnsd.Word.{put16, put32}

-- `enum class TYPE`.
abbrev pub type_a : ℕ
type_a = 1

abbrev pub type_ns : ℕ
type_ns = 2

abbrev pub type_cname : ℕ
type_cname = 5

abbrev pub type_soa : ℕ
type_soa = 6

abbrev pub type_mx : ℕ
type_mx = 15

abbrev pub type_txt : ℕ
type_txt = 16

abbrev pub type_aaaa : ℕ
type_aaaa = 28

-- `enum_contains` of a `TYPE`.
abbrev pub enum_contains : ℕ → Bool
enum_contains t =
    t == type_a
    || t == type_aaaa
    || t == type_ns
    || t == type_cname
    || t == type_soa
    || t == type_mx
    || t == type_txt

-- `enum class CLAS`.
abbrev pub clas_in : ℕ
clas_in = 1

pub record Question : Type 0 where
  pub domain : Dn
  pub type : ℕ
  pub clas : ℕ

abbrev pub Key : Type 0
Key = Dn × ℕ × ℕ

-- `Question::key`.
abbrev pub key : Question → Key
key q = (q.domain, q.type, q.clas)

-- `Question::dump`.
unfoldable pub dump_question : Question → Bytes
dump_question q = dn2data q.domain ++ (put16 q.type ++ put16 q.clas)

pub record Record : Type 0 where
  pub question : Question
  pub open question use *
  pub ttl : ℕ
  pub text : Bytes
  pub rdata : Bytes
  pub datadn : Dn

-- `Record::dump`.
unfoldable pub dump_record : Record → Bytes
unfolding dump_question
dump_record r =
    dump_question r.question ++ (put32 r.ttl ++ (put16 (length r.rdata % 2 ^ 16) ++ r.rdata))

-- The family of an address, `AF_INET` or `AF_INET6`.
pub data Family : Type 0 where
  inet inet6 : Family

-- `data.substr(data.find(' ')+1)`: the text behind the first space, or all of it.
behind_space_or : Bytes → Bytes → Bytes
behind_space_or whole [] = whole
behind_space_or whole (c ∷ cs) = if c == b' ' then cs else behind_space_or whole cs

unfoldable pub behind_space : Bytes → Bytes
unfolding behind_space_or
behind_space text = behind_space_or text text

-- `parse`: the name that a record's data refers to.
unfoldable pub parse_datadn : ℕ → Bytes → Dn
parse_datadn t text =
    if t == type_ns || t == type_cname
    then s2dn text
    else if t == type_mx
    then s2dn (behind_space text)
    else []

abbrev pub is_space : ℕ → Bool
is_space c = c == b' ' || leb 9 c && leb c 13

unfoldable pub skip_spaces : Bytes → Bytes
skip_spaces [] = []
skip_spaces (c ∷ cs) = if is_space c then skip_spaces cs else c ∷ cs

-- The characters of a word, `room` at most, and what is left.
unfoldable pub take_word : ℕ → Bytes → Bytes × Bytes
take_word zero text = ([], text)
take_word (suc room) [] = ([], [])
take_word (suc room) (c ∷ cs) =
    let (w, rest) = take_word room cs in if is_space c then ([], c ∷ cs) else (c ∷ w, rest)

-- `ss >> w` for a `char w[256]`; `none` where no word is left, and `w` stays uninitialised.
unfoldable pub read_word : Bytes → Option (Bytes × Bytes)
unfolding skip_spaces take_word
read_word text =
    let (w, rest) = take_word 255 (skip_spaces text) in if is_empty w then none else some (w, rest)

-- The digits in front, behind those that made up `n`.
unfoldable pub take_digits : ℕ → Bytes → ℕ × Bytes
take_digits n [] = (n, [])
take_digits n (c ∷ cs) =
    let more = take_digits (n * 10 + (c - b'0')) cs in if is_digit c then more else (n, c ∷ cs)

abbrev pub starts_digit : Bytes → Bool
starts_digit [] = false
starts_digit (c ∷ cs) = is_digit c

-- Whether a number is negative, and its digits behind the sign that it may have.
abbrev pub sign_of : Bytes → Bool × Bytes
sign_of [] = (false, [])
sign_of (c ∷ cs) =
    if c == b'-' then (true, cs) else if c == b'+' then (false, cs) else (false, c ∷ cs)

-- A negative number counts down from `limit`.
abbrev pub signed_value : ℕ → Bool → ℕ → ℕ
signed_value limit minus n = if minus then (limit - n) % limit else n

-- `ss >> n` for an unsigned number below `limit`; `none` where no digit stands there or the number
-- is too large, and the stream fails.
unfoldable pub read_number : ℕ → Bytes → Option (ℕ × Bytes)
unfolding skip_spaces take_digits
read_number limit text =
    let (negative, digits) = sign_of (skip_spaces text) in
    let (n, rest) = take_digits 0 digits in
    if starts_digit digits && ltb n limit then some (signed_value limit negative n, rest) else none

-- The last `ss >> n` of a text: a stream that fails at it leaves zero, or the largest number where the
-- number is too large; at the end of the text it leaves `n` uninitialised, which is `none`.
unfoldable pub read_last : ℕ → Bytes → Option ℕ
unfolding skip_spaces take_digits
read_last limit text =
    let start = skip_spaces text in
    let (negative, digits) = sign_of start in
    let (n, rest) = take_digits 0 digits in
    if is_empty start
    then none
    else if not (starts_digit digits)
    then some 0
    else if ltb n limit
    then some (signed_value limit negative n)
    else some (limit - 1)

-- `dumpSOA`. A stream that fails before its last number leaves the variables behind it uninitialised.
unfoldable pub dump_soa : Bytes → Result Bytes
dump_soa text = do
  (mname, s1) ← from_option (read_word text)
  (rname, s2) ← from_option (read_word s1)
  (serial, s3) ← from_option (read_number (2 ^ 32) s2)
  (refresh, s4) ← from_option (read_number (2 ^ 32) s3)
  (retry, s5) ← from_option (read_number (2 ^ 32) s4)
  (expire, s6) ← from_option (read_number (2 ^ 32) s5)
  minimum ← from_option (read_last (2 ^ 32) s6)
  ok (
      dn2data (s2dn mname)
      ++ (dn2data (s2dn rname)
          ++ (put32 serial ++ (put32 refresh ++ (put32 retry ++ (put32 expire ++ put32 minimum))))))

-- `dumpMX`.
unfoldable pub dump_mx : Bytes → Result Bytes
dump_mx text = do
  (preference, s1) ← from_option (read_number (2 ^ 16) text)
  (exchange, s2) ← from_option (read_word s1)
  ok (put16 preference ++ dn2data (s2dn exchange))

-- `niplike`'s test of one label.
unfoldable pub is_octet_label : Bytes → Bool
is_octet_label l = not (ltb 3 (length l)) && all is_digit l

-- `niplike`'s test: five labels below the base, the lowest four of up to three digits each, and the fifth
-- shorter than 62. The argument has the lowest label first.
unfoldable pub is_nip : List Bytes → Bool
unfolding is_octet_label
is_nip (a ∷ b ∷ c ∷ d ∷ e ∷ []) =
    ltb (length e) 62
    && (is_octet_label a && (is_octet_label b && (is_octet_label c && is_octet_label d)))
is_nip _ = false

module _ (pton : Family → Bytes → Option Bytes) where
  -- `Rdata`.
  unfoldable pub rdata_of : ℕ → Bytes → Result Bytes
  rdata_of t text =
      if t == type_a
      then or_throw (pton inet text) format_error
      else if t == type_aaaa
      then or_throw (pton inet6 text) format_error
      else if t == type_ns || t == type_cname
      then ok (dn2data (s2dn text))
      else if t == type_soa
      then dump_soa text
      else if t == type_mx
      then dump_mx text
      else if t == type_txt
      then ok (length text % 256 ∷ text)
      else ok []

  -- `Record::Record`.
  unfoldable pub new_record : Dn → ℕ → ℕ → ℕ → Bytes → Result Record
  new_record domain t clas ttl text = do
    rdata ← rdata_of t text
    ok (record {
      question = record { domain = domain; type = t; clas = clas };
      ttl = ttl;
      text = text;
      rdata = rdata;
      datadn = parse_datadn t text;
    })

  -- `niplike`: the address that the name itself spells, if it does.
  unfoldable pub niplike : Dn → Dn → Result (List Record)
  unfolding is_nip
  niplike domain base =
      let sub = reverse (minus domain base) in
      if is_nip sub
      then (new_record domain type_a clas_in 1 (pop_back (dn2s (reverse (pop_back sub)))) >>= λ rr.
          ok (rr ∷ []))
      else ok []
