-- ===== src/Chat/Overflow.antt =====
-- Input that makes the server itself run into undefined behaviour.
use nycu_intro_np.Prelude.{
  ℕ, suc, ◌+◌, ◌≤◌, ◌<◌, ◌≡◌, ◌≢◌, refl, ap, ◌∙◌, [], ◌∷◌, ◌++◌, Bytes, codes, c_str, equal, none,
  some, find, nat_eq, length, length-append, true, false, ltb, leb, All, arith, drop, replicate,
  length-replicate, zero,
}
use nycu_intro_np.Chat.Log.{max_line, msg2log, until, skip, strtok, is_newline, is_blank}
use nycu_intro_np.Chat.State.{Client, Server, fault, say}
use nycu_intro_np.Chat.Input.{
  command, rename, name_behind, slash, said, handle_client_input, starts_slash,
}

-- A byte that ends no token: neither NUL nor blank.
abbrev pub InWord : ℕ → Type 0
InWord c = (c ≢ 0) × (c ≢ b'\n') × (c ≢ b' ')

c_str-word : (word : Bytes) → All InWord word → c_str word ≡ word
unfolding c_str
c_str-word [] h = refl
c_str-word (c ∷ word) h = ground (arith, c_str-word word h.1)

until-word : (word : Bytes) → All InWord word → until is_blank word ≡ word
unfolding until
until-word [] h = refl
until-word (c ∷ word) h = ground (arith, until-word word h.1)

say_long :
    (time : Bytes) (fd : ℕ) (msg : Bytes) (s : Server)
    → max_line ≤ length msg
    → say time fd msg s ≡ fault
unfolding say msg2log
say_long time fd msg s h =
    let long : ltb (length msg) max_line ≡ false = ground arith in rw (long, say) refl

long_unequal : (word text : Bytes) → length text < length word → equal word text ≡ false
unfolding equal
long_unequal [] text h = absurd (omega arith)
long_unequal (c ∷ word) [] h = refl
long_unequal (c ∷ word) (d ∷ text) h = ground (arith, long_unequal word text (omega arith))

-- A word of 992 to 1023 bytes that begins with a slash, from a client that is there, is written past
-- the end of the buffer in which the answer to an unknown command is formatted.
pub unknown_overflows :
    (time : Bytes) (fd : ℕ) (word : Bytes) (c : Client) (s : Server)
    → find fd s.cliinfo ≡ some c
    → All InWord word
    → 991 ≤ length word
    → length word ≤ 1022
    → handle_client_input time fd (some (b'/' ∷ word)) s ≡ fault
unfolding handle_client_input said starts_slash slash strtok skip command
unknown_overflows time fd word c s known clean long short =
    let clean' : All InWord (b'/' ∷ word) = ((omega arith, omega arith, omega arith), clean) in
    let text = c_str-word (b'/' ∷ word) clean' in
    let token = until-word (b'/' ∷ word) clean' in
    let fits : leb max_line (length (b'/' ∷ word)) ≡ false = ground arith in
    let a = long_unequal (b'/' ∷ word) (codes "/exit") (omega arith) in
    let b = long_unequal (b'/' ∷ word) (codes "/name") (omega arith) in
    let d = long_unequal (b'/' ∷ word) (codes "/who") (omega arith) in
    let answer =
      say_long time fd (codes "Unknown or incomplete command <" ++ (b'/' ∷ word) ++ codes ">") s
        (simp (length-append) (omega arith)) in
    rw (known, text, fits, token, a, b, d) answer

c_str-newlines : (n : ℕ) → c_str (replicate n b'\n') ≡ replicate n b'\n'
unfolding c_str
c_str-newlines zero = refl
c_str-newlines (suc n) = ap (◌∷◌ b'\n') (c_str-newlines n)

strtok-newlines : (n : ℕ) → strtok is_newline (replicate n b'\n') ≡ none
unfolding strtok skip until
strtok-newlines zero = refl
strtok-newlines (suc n) = strtok-newlines n

c_str-slash_name : (text : Bytes) → c_str (codes "/name " ++ text) ≡ codes "/name " ++ c_str text
unfolding c_str
c_str-slash_name text = refl

-- "/name " with nothing but two or more newlines behind it makes the server duplicate a null pointer.
name_null :
    (time : Bytes) (fd n : ℕ) (c : Client) (s : Server)
    → find fd s.cliinfo ≡ some c
    → n ≤ 1015
    → handle_client_input time fd (some (codes "/name " ++ b'\n' ∷ b'\n' ∷ replicate n b'\n')) s
      ≡ fault
unfolding handle_client_input said starts_slash slash skip command name_behind rename until equal
name_null time fd n c s known short =
    let text = c_str-newlines (suc (suc n)) in
    let len = length-replicate {A = ℕ} n b'\n' in
    let token = strtok-newlines (suc (suc n)) in
    let tail : Bytes = replicate n b'\n' in
    let word : strtok is_blank (codes "/name " ++ b'\n' ∷ b'\n' ∷ replicate n b'\n')
        ≡ some (codes "/name") =
      unfold strtok in refl in
    let buf : Bytes = codes "/name " ++ b'\n' ∷ b'\n' ∷ tail in
    let same : c_str buf ≡ buf =
      c_str-slash_name (b'\n' ∷ b'\n' ∷ tail) ∙ ap (λ t. codes "/name " ++ t) text in
    let fits : leb max_line (length buf) ≡ false = ground arith in
    let room : leb max_line (6 + length (c_str (drop 6 buf))) ≡ false = rw text (ground arith) in
    let long : ltb 7 (length buf) ≡ true = ground arith in
    let behind : strtok is_newline (c_str (drop 6 buf)) ≡ none = rw text token in
    rw (known, same, fits, word, long, room, behind) refl
