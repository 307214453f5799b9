-- ===== src/Mircd/Controller/Nicks.antt =====
-- NICK and the table of nicks in use.
use nycu_intro_np.Prelude.{
  ℕ, ◌≡◌, refl, sym, ap, ◌∙◌, true, false, List, [], ◌∷◌, ◌++◌, some, Bytes, codes, if◌then◌else◌,
  Map, find, contains, emplace, erase, modify, nat_eq, bytes_eq, find-emplace, find-erase,
  find-modify_self, find-modify_ne, contains-find-none, contains-find-some, find-contains-false,
  equal, equal_iff, ◌==◌, arith, Bool-cases, inl, inr,
}
use nycu_intro_np.Mircd.Wire.{Err, error, CmdMsg, say, render_msgs}
use nycu_intro_np.Mircd.State.{Client, World, has_nick}
use nycu_intro_np.Mircd.Monad.{
  Outcome, ok, thrown, disconnect, fault, getuser, set_user, sendcmd, sendcmds, sendstr,
}
use nycu_intro_np.Mircd.Client.{starts_alpha, set_nick, change_nick}
use nycu_intro_np.Mircd.Controller.{take_nick, nick_in_use}

-- `P` holds of the world that a member function leaves, however it ends; it does not run into
-- undefined behaviour.
abbrev pub Leaves {ℓ} : {A : Type ℓ} → (World → Type 0) → Outcome A → Type 0
Leaves P (ok a w) = P w
Leaves P (thrown e w) = P w
Leaves P (disconnect w) = P w
Leaves P fault = ⊥

-- The table of nicks without the nick that the client has.
abbrev pub without_nick : Client → Map Bytes ℕ → Map Bytes ℕ
without_nick c m = if has_nick c then erase c.nickname m else m

abbrev pub erroneous : Bytes → CmdMsg
erroneous nick = error Err.erroneusnickname (nick ∷ codes "Erroneous nickname" ∷ [])

-- What was sent, with the notice of a change of nick.
abbrev pub with_notice : Client → Bytes → World → List (ℕ × Bytes)
with_notice c nick w =
    if has_nick c
    then w.sent ++ (c.connfd, render_msgs c.nickname (say (codes "NICK") (nick ∷ []) ∷ [])) ∷ []
    else w.sent

module _ (fd : ℕ) (c : Client) (nick : Bytes) (w : World) (here : find fd w.clients ≡ some c) where
  pub take_nick-collides :
      nick_in_use nick w ≡ true
      → take_nick fd nick w
        ≡ thrown (error Err.nickcollision (nick ∷ codes "Nickname collision KILL" ∷ [])) w
  unfolding take_nick
  take_nick-collides used = ground arith

  -- What a nick that is refused leaves behind.
  pub take_nick-erroneous :
      nick_in_use nick w ≡ false
      → starts_alpha nick ≡ false
      → take_nick fd nick w
        ≡ thrown
            (erroneous nick)
            (record w { nick_mp = emplace nick c.ref (without_nick c w.nick_mp) })
  unfolding take_nick getuser change_nick
  take_nick-erroneous free bad = ground arith

  -- What a nick that is taken leaves behind.
  pub take_nick-taken :
      nick_in_use nick w ≡ false
      → starts_alpha nick ≡ true
      → take_nick fd nick w
        ≡ ok tt (record w {
          clients = modify fd (set_nick nick) w.clients;
          nick_mp = emplace nick c.ref (without_nick c w.nick_mp);
          sent = with_notice c nick w;
        })
  unfolding take_nick getuser set_user change_nick sendcmd sendcmds sendstr
  take_nick-taken free good = ground arith

-- Two addresses of clients in the table differ.
abbrev pub RefsDiffer : World → Type 0
RefsDiffer w =
    (fd gd : ℕ) (c d : Client)
    → find fd w.clients ≡ some c
    → find gd w.clients ≡ some d
    → c.ref ≡ d.ref
    → fd ≡ gd

-- Each client that has a nick is the one that the table of nicks gives for it.
abbrev pub HoldsNicks : World → Type 0
HoldsNicks w =
    (fd : ℕ) (c : Client)
    → find fd w.clients ≡ some c
    → has_nick c ≡ true
    → find c.nickname w.nick_mp ≡ some c.ref

module _ (fd : ℕ) (c : Client) (nick : Bytes) (w : World) (here : find fd w.clients ≡ some c) where
  find-without_nick :
      (k : Bytes)
      → (has_nick c ≡ true → equal c.nickname k ≡ false)
      → find k (without_nick c w.nick_mp) ≡ find k w.nick_mp
  find-without_nick k differ = elim (Bool-cases (has_nick c)) [
    | inl e ↦ rw (e, find-erase c.nickname k w.nick_mp, differ e)
    | inr e ↦ rw e
  ]

  pub without_nick_free :
      nick_in_use nick w ≡ false → contains nick (without_nick c w.nick_mp) ≡ false
  unfolding nick_in_use
  without_nick_free free =
      contains-find-none nick (without_nick c w.nick_mp) (elim (Bool-cases (has_nick c)) [
        | inl e ↦
            rw (e, find-erase c.nickname nick w.nick_mp)
              (ground (arith, find-contains-false nick w.nick_mp free))
        | inr e ↦ rw e (find-contains-false nick w.nick_mp free)
      ])

  -- Two clients with one nick would have one address.
  nicks_differ :
      RefsDiffer w
      → HoldsNicks w
      → (gd : ℕ) (d : Client) → fd == gd ≡ false
      → find gd w.clients ≡ some d
      → has_nick d ≡ true
      → has_nick c ≡ true
      → equal c.nickname d.nickname ≡ false
  nicks_differ refs holds gd d apart found named mine =
      elim (Bool-cases (equal c.nickname d.nickname)) [
        | inl e ↦
            let same = (equal_iff c.nickname d.nickname).0 e in
            let one : c.ref ≡ d.ref = cc (same, holds fd c here mine, holds gd d found named) in
            let met : fd ≡ gd = refs fd gd c d here found one in absurd (ground arith)
        | inr e ↦ e
      ]

  pub HoldsNicks-taken :
      RefsDiffer w
      → HoldsNicks w
      → nick_in_use nick w ≡ false
      → (s : List (ℕ × Bytes))
      → HoldsNicks (record w {
        clients = modify fd (set_nick nick) w.clients;
        nick_mp = emplace nick c.ref (without_nick c w.nick_mp);
        sent = s;
      })
  unfolding nick_in_use
  HoldsNicks-taken refs holds free s gd d found named = elim (Bool-cases (fd == gd)) [
    | inl e ↦ ground (
      arith,
      find-modify_self fd (set_nick nick) w.clients c here,
      find-emplace nick d.nickname c.ref (without_nick c w.nick_mp),
      without_nick_free free,
      equal_iff nick d.nickname,
    )
    | inr e ↦
        let there : find gd w.clients ≡ some d =
          sym (find-modify_ne fd gd (set_nick nick) w.clients e) ∙ found in
        let kept = holds gd d there named in
        ground (
          arith,
          find-emplace nick d.nickname c.ref (without_nick c w.nick_mp),
          without_nick_free free,
          find-without_nick d.nickname (nicks_differ refs holds gd d e there named),
          contains-find-some d.nickname w.nick_mp kept,
          equal_iff nick d.nickname,
        )
  ]

  -- A client that has a nick asks for one that is free and does not begin with a letter. The nick is
  -- refused, yet the table gives it to the client from then on, and the client's own nick, which
  -- the client keeps, is free.
  pub take_nick-refused :
      has_nick c ≡ true
      → starts_alpha c.nickname ≡ true
      → nick_in_use nick w ≡ false
      → starts_alpha nick ≡ false
      → (w' : World) × (take_nick fd nick w ≡ thrown (erroneous nick) w')
        × (w'.clients ≡ w.clients)
        × (find nick w'.nick_mp ≡ some c.ref)
        × (nick_in_use c.nickname w' ≡ false)
  unfolding nick_in_use
  take_nick-refused named old free bad = (
    record w { nick_mp = emplace nick c.ref (without_nick c w.nick_mp) },
    take_nick-erroneous fd c nick w here free bad,
    refl,
    ground (
      arith,
      find-emplace nick nick c.ref (without_nick c w.nick_mp),
      without_nick_free free,
      equal_iff nick nick,
    ),
    contains-find-none c.nickname (emplace nick c.ref (without_nick c w.nick_mp)) (
        ground (
          arith,
          find-emplace nick c.nickname c.ref (without_nick c w.nick_mp),
          without_nick_free free,
          find-erase c.nickname c.nickname w.nick_mp,
          equal_iff nick c.nickname,
          equal_iff c.nickname c.nickname,
        )),
  )

-- So another client can then take that nick, and two clients have it: whatever client `gd` asks for
-- the nick of a client whose own request was refused this way gets it.
pub nick_stolen :
    (fd gd : ℕ) (c d : Client) (nick : Bytes) (w : World)
    → fd == gd ≡ false
    → find fd w.clients ≡ some c
    → find gd w.clients ≡ some d
    → has_nick c ≡ true
    → has_nick d ≡ false
    → starts_alpha c.nickname ≡ true
    → nick_in_use nick w ≡ false
    → starts_alpha nick ≡ false
    → (u : World) × (v : World) × (c' : Client) × (d' : Client) × (take_nick fd nick w
        ≡ thrown (erroneous nick) u)
      × (take_nick gd c.nickname u ≡ ok tt v)
      × (find fd v.clients ≡ some c')
      × (find gd v.clients ≡ some d')
      × (c'.nickname ≡ c.nickname)
      × (d'.nickname ≡ c.nickname)
nick_stolen fd gd c d nick w apart hc hd named fresh old free bad =
    let (u, refused, same, _, opened) = take_nick-refused fd c nick w hc named old free bad in
    let there : find gd u.clients ≡ some d = ap (find gd) same ∙ hd in
    (
      u,
      record u {
        clients = modify gd (set_nick c.nickname) u.clients;
        nick_mp = emplace c.nickname d.ref (without_nick d u.nick_mp);
        sent = with_notice d c.nickname u;
      },
      c,
      set_nick c.nickname d,
      refused,
      take_nick-taken gd d c.nickname u there opened old,
      find-modify_ne gd fd (set_nick c.nickname) u.clients (ground arith) ∙ ap (find fd) same ∙ hc,
      find-modify_self gd (set_nick c.nickname) u.clients d there,
      refl,
      refl,
    )
