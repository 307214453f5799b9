-- ===== src/Mircd/Live/Calls.antt =====
-- `Controller::call` keeps the tables of mircd in step, and does not run into undefined behaviour.
use nycu_intro_np.Prelude.{
  ℕ, ◌≤◌, ◌≡◌, refl, sym, ◌∙◌, Bool, true, false, not, ◌||◌, List, [], ◌∷◌, ◌++◌, none, some, Bytes,
  codes, find, length, contains, modify, nat_eq, bytes_eq, equal, All, All-find, arith, Bool-cases,
  inl, inr, find-modify_self, contains-modify, contains-find-some, find-some, Option-cases,
}
use nycu_intro_np.Mircd.Wire.{welcome_cmds, render_msgs}
use nycu_intro_np.Mircd.State.{Client, World, has_regist, can_regist, add_flag, flag_welcome}
use nycu_intro_np.Mircd.Monad.{
  Outcome, ok, thrown, disconnect, fault, ◌>>◌, getuser, set_user, sendcmds, sendstr,
}
use nycu_intro_np.Mircd.Client.{regist}
use nycu_intro_np.Mircd.Dispatch.{
  Handler, nick_h, user_h, quit_h, join_h, part_h, topic_h, names_h, list_h, privmsg_h, ping_h,
  users_h, CmdItem, cmds, run_handler, welcome, call,
}
use nycu_intro_np.Mircd.Dispatch.Gate.{refusal, refusal_item, call-refusal}
use nycu_intro_np.Mircd.Live.{IsLiveWorld, modify-IsLive}
use nycu_intro_np.Mircd.Live.Names.{IsAfter, Stays}
use nycu_intro_np.Mircd.Live.Handlers.{ends, nick-IsAfter, user-IsAfter, names-IsAfter}
use nycu_intro_np.Mircd.Live.Joins.{join-IsAfter}
use nycu_intro_np.Mircd.Live.Parts.{
  part-IsAfter, topic-IsAfter, list-IsAfter, privmsg-IsAfter, ping-IsAfter,
}

-- The arguments that a handler reads.
abbrev min_args : Handler → ℕ
min_args user_h = 4
min_args join_h = 1
min_args part_h = 1
min_args topic_h = 1
min_args _ = 0

-- QUIT and USERS, the commands that do not leave the daemon running as before.
abbrev is_special : Handler → Bool
is_special quit_h = true
is_special users_h = true
is_special _ = false

abbrev pub special_name : Bytes → Bool
special_name cmd = equal (codes "QUIT") cmd || equal (codes "USERS") cmd

abbrev IsRow : Bytes × CmdItem → Type 0
IsRow e = (e.1.parm_min ≡ min_args e.1.fp) × (is_special e.1.fp ≡ special_name e.0)

rows : All IsRow cmds
unfolding equal
rows = (
  (refl, refl),
  (
    (refl, refl),
    (
      (refl, refl),
      (
        (refl, refl),
        (
          (refl, refl),
          (
            (refl, refl),
            ((refl, refl), ((refl, refl), ((refl, refl), ((refl, refl), ((refl, refl), tt))))),
          ),
        ),
      ),
    ),
  ),
)

Stays-map :
    (P Q : World → Type 0) (o : Outcome (Unit {0}))
    → ((w : World) → P w → Q w)
    → Stays P o
    → Stays Q o
Stays-map P Q (ok a w) f h = f w h
Stays-map P Q (thrown e w) f h = f w h
Stays-map P Q (disconnect w) f h = h
Stays-map P Q fault f h = h

abbrev welcomed : Client → Client
welcomed c = record c { status = add_flag flag_welcome c.status }

module _ (fd : ℕ) (w : World) (c : Client) (here : find fd w.clients ≡ some c)
    (live : IsLiveWorld w) where
  handler-IsAfter :
      (h : Handler) (argv : List Bytes)
      → is_special h ≡ false
      → min_args h ≤ length argv
      → Stays (IsAfter w) (run_handler h fd argv w)
  unfolding run_handler
  handler-IsAfter nick_h argv plain enough = nick-IsAfter fd w c here live argv
  handler-IsAfter user_h argv plain enough = user-IsAfter fd w c here live argv enough
  handler-IsAfter quit_h argv plain enough = absurd (cc)
  handler-IsAfter join_h argv plain enough = join-IsAfter fd w c here live argv enough
  handler-IsAfter part_h argv plain enough = part-IsAfter fd w c here live argv enough
  handler-IsAfter topic_h argv plain enough = topic-IsAfter fd w c here live argv enough
  handler-IsAfter names_h argv plain enough = names-IsAfter fd w c here live argv
  handler-IsAfter list_h argv plain enough = list-IsAfter fd w c here live argv
  handler-IsAfter privmsg_h argv plain enough = privmsg-IsAfter fd w c here live argv
  handler-IsAfter ping_h argv plain enough = ping-IsAfter fd w c here live argv
  handler-IsAfter users_h argv plain enough = absurd (cc)

  welcome-IsAfter : (before : Bool) → Stays (IsAfter w) (welcome fd before w)
  unfolding welcome regist getuser set_user sendcmds sendstr
  welcome-IsAfter true = (live, λ g. refl)
  welcome-IsAfter false = elim (Bool-cases (has_regist c || not (can_regist c))) [
    | inl early ↦ ends w _ (ok tt w) (ground arith) (live, λ g. refl)
    | inr now ↦
        let me = find-modify_self fd welcomed w.clients c here in
        ends w _
          (ok tt (record w {
            clients = modify fd welcomed w.clients;
            sent = w.sent ++ (fd, render_msgs c.nickname welcome_cmds) ∷ [];
          }))
          (ground arith)
          (
            modify-IsLive fd welcomed (record { ref = λ d. refl; connfd = λ d. refl }) w.clients
                (λ d. refl) w.channels live,
            λ g. contains-modify fd g welcomed w.clients,
          )
  ]

-- The welcome behind a handler that returned.
handled-IsAfter :
    (fd : ℕ) (w : World) (before : Bool) (o : Outcome (Unit {0}))
    → contains fd w.clients ≡ true
    → Stays (IsAfter w) o
    → Stays (IsAfter w) (((λ (v : World). o) >> welcome fd before) w)
handled-IsAfter fd w before (ok a w') there (live, same) =
    let (c, here) = find-some fd w'.clients (same fd ∙ there) in
    Stays-map (IsAfter w') (IsAfter w) (welcome fd before w')
      (λ v (live', again). (live', λ g. again g ∙ same g))
      (welcome-IsAfter fd w' c here live before)
handled-IsAfter fd w before (thrown e w') there h = h
handled-IsAfter fd w before (disconnect w') there h = h
handled-IsAfter fd w before fault there h = h

enough_args :
    (c : Client) (cmd : Bytes) (argv : List Bytes) (item : CmdItem)
    → refusal_item c cmd argv item ≡ none
    → item.parm_min ≤ length argv
enough_args c cmd argv item h = ground arith

refusal_found :
    (c : Client) (cmd : Bytes) (argv : List Bytes) (item : CmdItem)
    → find cmd cmds ≡ some item
    → refusal c cmd argv ≡ refusal_item c cmd argv item
refusal_found c cmd argv item h = ground arith

-- From a world in which the tables are in step, any command of a connected client but QUIT and USERS
-- returns or throws a reply, never runs into undefined behaviour, and leaves a world in which the
-- tables are in step and the same clients are connected.
pub call-IsAfter :
    (fd : ℕ) (cmd : Bytes) (argv : List Bytes) (w : World) (c : Client)
    → find fd w.clients ≡ some c
    → IsLiveWorld w
    → special_name cmd ≡ false
    → Stays (IsAfter w) (call fd (cmd ∷ argv) w)
call-IsAfter fd cmd argv w c here live plain =
    let (refused, runs) = call-refusal fd cmd argv w c here in
    elim (Option-cases (refusal c cmd argv)) [
      | inr (e, why) ↦ ends w _ _ (refused e why) (live, λ g. refl)
      | inl passed ↦
          let (item, found, ran) = runs passed in
          let (needs, special) = All-find IsRow cmd cmds item rows found in
          let enough =
            enough_args c cmd argv item (sym (refusal_found c cmd argv item found) ∙ passed) in
          let there = contains-find-some fd w.clients {v = c} here in
          ends w _ _ ran (
            handled-IsAfter fd w (has_regist c) (run_handler item.fp fd argv w) there
              (handler-IsAfter fd w c here live item.fp argv (special ∙ plain) (omega arith)))
    ]
