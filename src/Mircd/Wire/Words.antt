-- ===== src/Mircd/Wire/Words.antt =====
-- The words of a line, and the numeric replies read back by `parse`.
use mathlib.Core.List.{reverse-append, reverse-reverse, reverse-cons}
use nycu_intro_np.Prelude.{
  c_str, ℕ, ◌≡◌, ◌≢◌, refl, ap, ◌∙◌, List, [], ◌∷◌, ◌++◌, reverse, append_assoc, append-nil, Bytes,
  All, All-append, arith, decimal, decimal-IsDigit, IsDigit, replicate, length, ◌-◌, zero, suc,
  length-append, length-replicate, ◌<◌, ◌≤◌, ◌+◌, ◌/◌, ◌%◌, digits_onto,
}
use nycu_intro_np.Mircd.Wire.{
  push_word, parse_loop, strip_eol, parse, render_args, render_msg, pad3, number, render_cmd,
  nick_part,
}

-- A byte that neither ends a word nor a line.
abbrev pub Plain : ℕ → Type 0
Plain c = (c ≢ b' ') × (c ≢ b':') × (c ≢ 0)

-- A byte that may stand in the last argument.
abbrev pub Clean : ℕ → Type 0
Clean c = (c ≢ b'\r') × (c ≢ b'\n') × (c ≢ 0)

abbrev pub IsWord : Bytes → Type 0
IsWord w = (w ≢ []) × All Plain w

parse_loop-Plain :
    (w cur rest : Bytes) → All Plain w → parse_loop cur (w ++ rest) ≡ parse_loop (cur ++ w) rest
unfolding parse_loop
parse_loop-Plain [] cur rest h = rw append-nil
parse_loop-Plain (c ∷ w) cur rest h =
    ground (arith, parse_loop-Plain w (cur ++ c ∷ []) rest h.1, append_assoc cur (c ∷ []) w)

pub c_str-Clean : (t : Bytes) → All Clean t → c_str t ≡ t
unfolding c_str
c_str-Clean [] h = refl
c_str-Clean (c ∷ t) h = ground (arith, c_str-Clean t h.1)

push_word-ne : (w : Bytes) (rest : List Bytes) → w ≢ [] → push_word w rest ≡ w ∷ rest
push_word-ne [] rest h = absurd (h refl)
push_word-ne (c ∷ w) rest h = refl

render_args-cons :
    (w t : Bytes) (ws : List Bytes)
    → render_args (w ∷ (ws ++ t ∷ [])) ≡ b' ' ∷ (w ++ render_args (ws ++ t ∷ []))
unfolding render_args
render_args-cons w t [] = refl
render_args-cons w t (v ∷ ws) = refl

parse_loop_space :
    (cur rest : Bytes) → parse_loop cur (b' ' ∷ rest) ≡ push_word cur (parse_loop [] rest)
unfolding parse_loop
parse_loop_space cur rest = refl

parse_loop_colon : (cur t : Bytes) → parse_loop cur (b':' ∷ t) ≡ push_word cur (c_str t ∷ [])
unfolding parse_loop
parse_loop_colon cur t = refl

parse_loop-render_args :
    (ws : List Bytes) (t cur : Bytes)
    → All IsWord ws
    → All Clean t
    → parse_loop cur (render_args (ws ++ t ∷ [])) ≡ push_word cur (ws ++ t ∷ [])
parse_loop-render_args [] t cur h k =
    unfold render_args in parse_loop_space cur (b':' ∷ t) ∙ rw (parse_loop_colon, c_str-Clean t k)
parse_loop-render_args (w ∷ ws) t cur h k =
    rw (render_args-cons w t ws, parse_loop_space, parse_loop-Plain w [] _ h.0.1)
      (rw (parse_loop-render_args ws t w h.1 k, push_word-ne w _ h.0.0))

All-reverse {ℓ κ} : {A : Type ℓ} (P : A → Type κ) (xs : List A) → All P xs → All P (reverse xs)
All-reverse P [] h = h
All-reverse P (x ∷ xs) h =
    rw reverse-cons (All-append P (reverse xs) (x ∷ []) (All-reverse P xs h.1) (h.0, tt))

strip_eol-Clean : (xs ys : Bytes) → All Clean xs → strip_eol (xs ++ b':' ∷ ys) ≡ xs ++ b':' ∷ ys
unfolding strip_eol
strip_eol-Clean [] ys h = refl
strip_eol-Clean (x ∷ xs) ys h = ground arith

strip_eol-reverse :
    (body t : Bytes)
    → All Clean t
    → strip_eol (reverse (body ++ b':' ∷ t)) ≡ reverse (body ++ b':' ∷ t)
strip_eol-reverse body t h =
    rw (reverse-append body (b':' ∷ t), reverse-cons b':' t, append_assoc)
      (strip_eol-Clean (reverse t) (reverse body) (All-reverse Clean t h))

strip_eol_newline : (xs : Bytes) → strip_eol (b'\n' ∷ xs) ≡ strip_eol xs
unfolding strip_eol
strip_eol_newline xs = refl

-- A line end behind the last argument is dropped, and nothing else.
parse_line :
    (body t : Bytes)
    → All Clean t
    → parse ((body ++ b':' ∷ t) ++ b'\n' ∷ []) ≡ parse_loop [] (body ++ b':' ∷ t)
unfolding parse
parse_line body t h = rw (
  reverse-append (body ++ b':' ∷ t) (b'\n' ∷ []),
  strip_eol_newline,
  strip_eol-reverse body t h,
  reverse-reverse,
)

Plain-digit : (c : ℕ) → IsDigit c → Plain c
Plain-digit c h = (omega arith, omega arith, omega arith)

All-Plain : (ds : Bytes) → All IsDigit ds → All Plain ds
All-Plain [] h = tt
All-Plain (d ∷ ds) h = (Plain-digit d h.0, All-Plain ds h.1)

All-replicate : (n : ℕ) → All IsDigit (replicate n b'0')
All-replicate zero = tt
All-replicate (suc n) = ((omega arith, omega arith), All-replicate n)

pad3-IsDigit : (n : ℕ) → All IsDigit (pad3 n)
unfolding pad3
pad3-IsDigit n =
    All-append IsDigit (replicate (3 - length (decimal n)) b'0') (decimal n) (All-replicate _)
      (decimal-IsDigit n)

pad3-ne : (n : ℕ) → pad3 n ≢ []
unfolding pad3
pad3-ne n e = omega (
  arith,
  ap length e,
  length-append (replicate (3 - length (decimal n)) b'0') (decimal n),
  length-replicate {A = ℕ} (3 - length (decimal n)) b'0',
)

-- The arguments end with a colon and the last one.
render_args-split :
    (ws : List Bytes) (t : Bytes) → (b : Bytes) × (render_args (ws ++ t ∷ []) ≡ b ++ b':' ∷ t)
render_args-split [] t = (b' ' ∷ [], unfold render_args in refl)
render_args-split (w ∷ ws) t =
    let (b, e) = render_args-split ws t in
    (b' ' ∷ (w ++ b), rw (render_args-cons w t ws, e, append_assoc))

parse_head :
    (d nick rest : Bytes)
    → IsWord d
    → IsWord nick
    → parse_loop [] (d ++ (b' ' ∷ (nick ++ rest))) ≡ d ∷ parse_loop nick rest
parse_head d nick rest h k = rw (
  parse_loop-Plain d [] (b' ' ∷ (nick ++ rest)) h.1,
  parse_loop_space,
  parse_loop-Plain nick [] rest k.1,
  push_word-ne d _ h.0,
)

nick_part-ne : (nick : Bytes) → nick ≢ [] → nick_part nick ≡ b' ' ∷ nick
nick_part-ne [] h = absurd (h refl)
nick_part-ne (c ∷ nick) h = refl

regroup :
    (d k b c e : Bytes) → (d ++ b' ' ∷ k) ++ ((b ++ c) ++ e) ≡ ((d ++ (b' ' ∷ (k ++ b))) ++ c) ++ e
regroup d k b c e = simp append_assoc

digits_one : (fuel n : ℕ) (acc : Bytes) → n < 10 → length (digits_onto fuel n acc) ≤ 1 + length acc
unfolding digits_onto
digits_one zero n acc h = omega arith
digits_one (suc fuel) n acc h = ground arith

digits_two : (fuel n : ℕ) (acc : Bytes) → n < 100 → length (digits_onto fuel n acc) ≤ 2 + length acc
unfolding digits_onto
digits_two zero n acc h = omega arith
digits_two (suc fuel) n acc h = ground (arith, digits_one fuel (n / 10) ((b'0' + n % 10) ∷ acc))

digits_three :
    (fuel n : ℕ) (acc : Bytes) → n < 1000 → length (digits_onto fuel n acc) ≤ 3 + length acc
unfolding digits_onto
digits_three zero n acc h = omega arith
digits_three (suc fuel) n acc h = ground (arith, digits_two fuel (n / 10) ((b'0' + n % 10) ∷ acc))

length-pad3 : (n : ℕ) → n < 1000 → length (pad3 n) ≡ 3
unfolding pad3 decimal
length-pad3 n small = omega (
  arith,
  length-append (replicate (3 - length (decimal n)) b'0') (decimal n),
  length-replicate {A = ℕ} (3 - length (decimal n)) b'0',
  digits_three (suc n) n [] small,
)

reads_back :
    (n : ℕ) (nick : Bytes) (ws : List Bytes) (t : Bytes)
    → IsWord nick
    → All IsWord ws
    → All Clean t
    → parse (render_msg nick (record { cmd = number n; argv = ws ++ t ∷ [] }))
      ≡ pad3 n ∷ nick ∷ (ws ++ t ∷ [])
unfolding render_msg render_cmd
reads_back n nick ws t hn hw ht =
    let (b, e) = render_args-split ws t in
    let line = pad3 n ++ (b' ' ∷ (nick ++ b)) in
    rw
      (
        nick_part-ne nick hn.0,
        e,
        regroup (pad3 n) nick b (b':' ∷ t) (b'\n' ∷ []),
        parse_line line t ht,
      )
      (rw (
        append_assoc (pad3 n) (b' ' ∷ (nick ++ b)) (b':' ∷ t),
        append_assoc nick b (b':' ∷ t),
        ← e,
        parse_head (pad3 n) nick (render_args (ws ++ t ∷ []))
            (pad3-ne n, All-Plain _ (pad3-IsDigit n)) hn,
        parse_loop-render_args ws t nick hw ht,
        push_word-ne nick _ hn.0,
      ))

-- A numeric reply to a nick, with a number of up to three digits (the room that `sprintf` has), is sent
-- without a prefix, and reads back as its number in three digits, the nick and the arguments, whatever
-- spaces and colons the last argument holds; the other arguments are words.
pub parse-render_msg :
    (n : ℕ) (nick : Bytes) (ws : List Bytes) (t : Bytes)
    → IsWord nick
    → All IsWord ws
    → All Clean t
    → n < 1000
    → (parse (render_msg nick (record { cmd = number n; argv = ws ++ t ∷ [] }))
        ≡ pad3 n ∷ nick ∷ (ws ++ t ∷ []))
      × (length (pad3 n) ≡ 3)
parse-render_msg n nick ws t hn hw ht small = (reads_back n nick ws t hn hw ht, length-pad3 n small)
