-- ===== src/Mircd/Controller/InStep.antt =====
-- The table of nicks against the clients, in both directions.
use nycu_intro_np.Prelude.{
  ℕ, ◌≡◌, ◌∙◌, true, false, List, some, Bytes, find, emplace, modify, nat_eq, bytes_eq,
  find-emplace, find-erase, find-modify_self, find-modify_ne, equal, equal_iff, ◌==◌, ==_iff, arith,
  Bool-cases, inl, inr,
}
use nycu_intro_np.Mircd.State.{Client, World, has_nick}
use nycu_intro_np.Mircd.Client.{starts_alpha, set_nick}
use nycu_intro_np.Mircd.Controller.Flags.{has_flag-add_flag}
use nycu_intro_np.Mircd.Controller.{take_nick, nick_in_use}
use nycu_intro_np.Mircd.Controller.Nicks.{
  Leaves, RefsDiffer, HoldsNicks, HoldsNicks-taken, without_nick, without_nick_free, with_notice,
  take_nick-collides, take_nick-taken,
}

-- Each entry of the table of nicks is the nick of the client that it refers to.
abbrev pub OwnsNicks : World → Type 0
OwnsNicks w =
    (k : Bytes) (r : ℕ)
    → find k w.nick_mp ≡ some r
    → (fd : ℕ) × (c : Client) × (find fd w.clients ≡ some c)
      × (has_nick c ≡ true)
      × (c.nickname ≡ k)
      × (c.ref ≡ r)

-- The table of nicks has the clients' nicks, and nothing else.
abbrev pub IsInStep : World → Type 0
IsInStep w = HoldsNicks w × OwnsNicks w

module _ (fd : ℕ) (c : Client) (nick : Bytes) (w : World) (here : find fd w.clients ≡ some c) where
  -- An entry that is left is not the nick that the client had.
  left_nick :
      (k : Bytes) (r : ℕ)
      → find k (without_nick c w.nick_mp) ≡ some r
      → (find k w.nick_mp ≡ some r) × (has_nick c ≡ true → equal c.nickname k ≡ false)
  left_nick k r found = elim (Bool-cases (has_nick c)) [
    | inl named ↦ (
      ground (arith, find-erase c.nickname k w.nick_mp),
      λ same. ground (arith, find-erase c.nickname k w.nick_mp),
    )
    | inr unnamed ↦ (ground arith, λ named. absurd (ground arith))
  ]

  other_client : (gd : ℕ) (d : Client) → fd == gd ≡ true → find gd w.clients ≡ some d → d ≡ c
  other_client gd d met there = ground (arith, ==_iff fd gd)

  OwnsNicks-taken :
      OwnsNicks w
      → nick_in_use nick w ≡ false
      → (s : List (ℕ × Bytes))
      → OwnsNicks (record w {
        clients = modify fd (set_nick nick) w.clients;
        nick_mp = emplace nick c.ref (without_nick c w.nick_mp);
        sent = s;
      })
  OwnsNicks-taken owns free s k r found = elim (Bool-cases (equal nick k)) [
    | inl e ↦ (
      fd,
      set_nick nick c,
      find-modify_self fd (set_nick nick) w.clients c here,
      has_flag-add_flag c.status,
      (equal_iff nick k).0 e,
      ground (
        arith,
        find-emplace nick k c.ref (without_nick c w.nick_mp),
        without_nick_free fd c nick w here free,
        equal_iff nick k,
      ),
    )
    | inr e ↦
        let before : find k (without_nick c w.nick_mp) ≡ some r = ground (
          arith,
          find-emplace nick k c.ref (without_nick c w.nick_mp),
          without_nick_free fd c nick w here free,
        ) in
        let (old, other) = left_nick k r before in
        let (gd, d, there, named, nicked, refers) = owns k r old in
        let apart : fd == gd ≡ false = elim (Bool-cases (fd == gd)) [
          | inl met ↦ absurd (ground (arith, equal_iff c.nickname k, other_client gd d met there))
          | inr away ↦ away
        ] in
        (gd, d, find-modify_ne fd gd (set_nick nick) w.clients apart ∙ there, named, nicked, refers)
  ]

  -- NICK with a nick that begins with a letter keeps the table of nicks in step with the clients, whether the
  -- nick is free or in use: each client's nick refers to it, and each entry is the nick of the
  -- client that it refers to, so that a nick given up is free. It does not run into undefined behaviour.
  pub take_nick-IsInStep :
      starts_alpha nick ≡ true → RefsDiffer w → IsInStep w → Leaves IsInStep (take_nick fd nick w)
  take_nick-IsInStep good refs (holds, owns) = elim (Bool-cases (nick_in_use nick w)) [
    | inl used ↦ rw (take_nick-collides fd c nick w here used) (holds, owns)
    | inr free ↦ rw (take_nick-taken fd c nick w here free good) (
      HoldsNicks-taken fd c nick w here refs holds free (with_notice c nick w),
      OwnsNicks-taken owns free (with_notice c nick w),
    )
  ]
