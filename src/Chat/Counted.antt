-- ===== src/Chat/Counted.antt =====
-- `clicnt` against the table of clients.
use nycu_intro_np.Prelude.{
  ℕ, suc, ◌+◌, ◌≡◌, refl, sym, ◌∙◌, subst, [], ◌∷◌, ◌++◌, Bytes, codes, Option, none, some, Map,
  find, contains, nat_eq, length, Distinct, Distinct-erase, length-erase, contains-erase,
  contains-find-some, Bool, true, false, arith, ◌⊎◌, inl, inr, Option-cases, if◌then◌else◌, equal,
  ◌&&◌, ltb, leb, drop, c_str, beq_refl,
}
use nycu_intro_np.Chat.Log.{max_line, system, msg2log, strtok, is_newline, is_blank}
use nycu_intro_np.Chat.State.{
  Client, Server, Outcome, returns, exits, fault, assign, sendexp, say, handle_new_client,
}
use nycu_intro_np.Chat.Input.{
  leave, tell_rename, rename, name_behind, command, chat, slash, said, handle_client_input, Event,
  arrives, readable, step, starts_slash,
}

-- The count is that of the clients, each under a descriptor of its own.
abbrev pub IsCounted : Server → Type 0
IsCounted s = (s.clicnt ≡ length s.cliinfo) × Distinct s.cliinfo

-- A handler that returns, returns such a state.
abbrev pub Keeps : Outcome → Type 0
Keeps (returns t) = IsCounted t
Keeps exits = Unit
Keeps fault = Unit

-- A new connection has a descriptor that no client has.
abbrev pub IsFresh : Event → Server → Type 0
IsFresh (arrives connfd name info) s = contains connfd s.cliinfo ≡ false
IsFresh (readable connfd input) s = Unit

assign_known :
    (fd : ℕ) (c : Client) (m : Map ℕ Client)
    → Distinct m
    → contains fd m ≡ true
    → (length (assign fd c m) ≡ length m) × Distinct (assign fd c m)
unfolding assign
assign_known fd c m d h = (
  ground (arith, length-erase fd m d),
  (ground (arith, contains-erase fd fd m, beq_refl fd), Distinct-erase fd m d),
)

assign_new :
    (fd : ℕ) (c : Client) (m : Map ℕ Client)
    → Distinct m
    → contains fd m ≡ false
    → (length (assign fd c m) ≡ suc (length m)) × Distinct (assign fd c m)
unfolding assign
assign_new fd c m d h = (
  ground (arith, length-erase fd m d),
  (ground (arith, contains-erase fd fd m, beq_refl fd), Distinct-erase fd m d),
)

say-cases :
    (time : Bytes) (fd : ℕ) (msg : Bytes) (s : Server)
    → (say time fd msg s ≡ fault)
      ⊎ ((log : Bytes) × (say time fd msg s
            ≡ returns (record s { sent = s.sent ++ (fd, log) ∷ [] })))
unfolding say
say-cases time fd msg s = elim (Option-cases (msg2log time system msg)) [
  | inl e ↦ inl (rw (e, say) refl)
  | inr (log, e) ↦ inr (log, rw (e, say) refl)
]

say-Keeps :
    (time : Bytes) (fd : ℕ) (msg : Bytes) (s : Server) → IsCounted s → Keeps (say time fd msg s)
say-Keeps time fd msg s h = elim (say-cases time fd msg s) [
  | inl e ↦ subst Keeps (sym e) tt
  | inr (log, e) ↦ subst Keeps (sym e) h
]

rename-Keeps :
    (time : Bytes) (fd : ℕ) (c : Client) (name : Option Bytes) (s : Server)
    → IsCounted s
    → contains fd s.cliinfo ≡ true
    → Keeps (rename time fd c name s)
unfolding rename tell_rename sendexp
rename-Keeps time fd c none s h known = tt
rename-Keeps time fd c (some name) s h known =
    let (same, distinct) = assign_known fd (record c { name = name }) s.cliinfo h.1 known in
    elim (say-cases time fd (codes "Nickname changed to <" ++ name ++ codes ">") s) [
      | inl e ↦ subst (λ o. Keeps (tell_rename time fd c name o)) (sym e) tt
      | inr (log, e) ↦
          subst (λ o. Keeps (tell_rename time fd c name o)) (sym e) (h.0 ∙ sym same, distinct)
    ]

-- Both branches of a test keep the count.
Keeps-if : (b : Bool) (x y : Outcome) → Keeps x → Keeps y → Keeps (if b then x else y)
Keeps-if true x y hx hy = hx
Keeps-if false x y hx hy = hy

said-Keeps :
    (time : Bytes) (fd : ℕ) (c : Client) (buf : Bytes) (s : Server)
    → IsCounted s
    → contains fd s.cliinfo ≡ true
    → Keeps (said time fd (some c) buf s)
unfolding said
said-Keeps time fd c buf s h known = Keeps-if (leb max_line (length (c_str buf))) fault _ tt (
    Keeps-if (starts_slash buf) _ _ (slashed (strtok is_blank (c_str buf)))
      (chatted (strtok is_newline (c_str buf))))
  where
    commanded : (token : Bytes) → Keeps (command time fd c buf token s)
    commanded token =
        unfold command name_behind in
        Keeps-if (equal token (codes "/exit")) exits _ tt (
          Keeps-if (equal token (codes "/name") && ltb 7 (length buf)) _ _
            (Keeps-if (leb max_line (6 + length (c_str (drop 6 buf)))) fault _ tt
              (rename-Keeps time fd c (strtok is_newline (c_str (drop 6 buf))) s h known))
            (Keeps-if (equal token (codes "/who")) _ _ h (
              say-Keeps time fd (codes "Unknown or incomplete command <" ++ token ++ codes ">") s
                h)))

    slashed : (token : Option Bytes) → Keeps (slash time fd c buf token s)
    slashed none = unfold slash in tt
    slashed (some token) = unfold slash in commanded token

    chatted : (token : Option Bytes) → Keeps (chat time fd c token s)
    chatted none = unfold chat in h
    chatted (some token) = unfold chat sendexp in h

leave-Keeps :
    (time : Bytes) (fd : ℕ) (c : Client) (s : Server)
    → IsCounted s
    → contains fd s.cliinfo ≡ true
    → Keeps (leave time fd (some c) s)
unfolding leave sendexp
leave-Keeps time fd c s (count, distinct) known =
    (ground (arith, length-erase fd s.cliinfo distinct), Distinct-erase fd s.cliinfo distinct)

readable-Keeps :
    (time : Bytes) (fd : ℕ) (input : Option Bytes) (c : Option Client) (s : Server)
    → IsCounted s
    → find fd s.cliinfo ≡ c
    → Keeps (handle_client_input time fd input s)
unfolding handle_client_input leave said
readable-Keeps time fd none none s h e = rw e tt
readable-Keeps time fd (some buf) none s h e = rw e tt
readable-Keeps time fd none (some c) s h e =
    rw e (leave-Keeps time fd c s h (contains-find-some fd s.cliinfo e))
readable-Keeps time fd (some buf) (some c) s h e =
    rw e (said-Keeps time fd c buf s h (contains-find-some fd s.cliinfo e))

arrives-Keeps :
    (time : Bytes) (fd : ℕ) (name info : Bytes) (s : Server)
    → IsCounted s
    → contains fd s.cliinfo ≡ false
    → Keeps (handle_new_client time fd name info s)
unfolding handle_new_client sendexp
arrives-Keeps time fd name info s (count, distinct) new =
    let c : Client = record { name = name; info = info } in
    let (more, distinct') = assign_new fd c s.cliinfo distinct new in
    say-Keeps time fd _ _ (omega (arith, count, more), distinct')

-- From a state in which the count is that of the clients, and each has a descriptor of its own, an
-- event whose handler returns leads to such a state again; a new connection has a descriptor that no
-- client has.
pub step-IsCounted :
    (time : Bytes) (e : Event) (s t : Server)
    → IsFresh e s
    → IsCounted s
    → step time e s ≡ returns t
    → IsCounted t
unfolding step
step-IsCounted time (arrives fd name info) s t new h e =
    subst Keeps e (arrives-Keeps time fd name info s h new)
step-IsCounted time (readable fd input) s t new h e =
    subst Keeps e (readable-Keeps time fd input (find fd s.cliinfo) s h refl)
