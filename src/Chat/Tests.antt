-- ===== src/Chat/Tests.antt =====
-- The chat server on concrete inputs.
use nycu_intro_np.Prelude.{
  ◌≡◌, refl, [], ◌∷◌, ◌++◌, Bytes, codes, some, none, find, nat_eq, arith, All, ℕ, replicate,
  length-replicate, contains, erase, ◌+◌, zero, suc,
}
use nycu_intro_np.Chat.Log.{log_text, from_text, msg2log}
use nycu_intro_np.Chat.State.{Client, Server, returns, fault, to_others, broadcast, sendexp}
use nycu_intro_np.Chat.Who.{who, max_name, dash_line}
use nycu_intro_np.Chat.Table.{rows, who_lem}
use nycu_intro_np.Chat.Input.{handle_client_input, step, readable, leave}
use nycu_intro_np.Chat.Counted.{IsCounted, step-IsCounted}
use nycu_intro_np.Chat.Overflow.{InWord, unknown_overflows}

abbrev now : Bytes
now = codes "2022-10-20 15:45:00"

abbrev ann : Client
ann = record { name = codes "ann"; info = codes "10.0.0.1:4000" }

abbrev bob : Client
bob = record { name = codes "bob"; info = codes "10.0.0.2:4001" }

abbrev two : Server
two = record { clicnt = 2; cliinfo = (5, ann) ∷ (6, bob) ∷ []; sent = []; jobs = [] }

two-IsCounted : IsCounted two
unfolding contains
two-IsCounted = (refl, (refl, (refl, tt)))

two_known : find 5 two.cliinfo ≡ some ann
unfolding find
two_known = refl

abbrev without_bob : Server
without_bob = record {
  clicnt = 1;
  cliinfo = (5, ann) ∷ [];
  sent = [];
  jobs = some ((5, codes "2022-10-20 15:45:00 *** User <bob> has left the server\n") ∷ []) ∷ [];
}

bob_leaves : step now (readable 6 none) two ≡ returns without_bob
unfolding step handle_client_input leave sendexp broadcast to_others msg2log from_text log_text find
    erase
bob_leaves = refl

step-IsCounted_example : IsCounted without_bob
step-IsCounted_example =
    step-IsCounted now (readable 6 none) two without_bob tt two-IsCounted bob_leaves

who_lem_example :
    who 5 two.clicnt two.cliinfo
    ≡ some (
        (
          5,
          dash_line (max_name 0 two.cliinfo + 25)
              ++ (rows 5 (max_name 0 two.cliinfo) two.cliinfo
                  ++ dash_line (max_name 0 two.cliinfo + 25)),
        )
        ∷ [])
who_lem_example = who_lem 5 two two-IsCounted (omega arith, (omega arith, tt))

-- A word of letters.
letters-InWord : (n : ℕ) → All InWord (replicate n b'a')
letters-InWord zero = tt
letters-InWord (suc n) =
    (((λ e. omega arith), (λ e. omega arith), (λ e. omega arith)), letters-InWord n)

unknown_overflows_example :
    handle_client_input now 5 (some (b'/' ∷ replicate 1000 b'a')) two ≡ fault
unknown_overflows_example =
    unknown_overflows now 5 (replicate 1000 b'a') ann two two_known (letters-InWord 1000)
      (omega (arith, length-replicate {A = ℕ} 1000 b'a'))
      (omega (arith, length-replicate {A = ℕ} 1000 b'a'))
