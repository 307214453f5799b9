-- ===== src/Mircd/Dispatch/Gate.antt =====
-- What `Controller::call` lets through.
use nycu_intro_np.Prelude.{
  ℕ, ◌≡◌, not, ◌&&◌, ltb, List, [], ◌∷◌, Option, none, some, Bytes, codes, if◌then◌else◌, find,
  length, bytes_eq, nat_eq, arith, Option-cases, inl, inr,
}
use nycu_intro_np.Mircd.Wire.{CmdMsg, Err, error}
use nycu_intro_np.Mircd.State.{Client, World, has_regist}
use nycu_intro_np.Mircd.Monad.{thrown, ◌>>◌, getuser}
use nycu_intro_np.Mircd.Dispatch.{
  CmdItem, cmds, unreg_allow, count, call, call_item, run_handler, welcome,
}

-- The reply with which a command is refused before its handler runs, in the order of the checks:
-- an unknown command, a client that is not registered, too few parameters.
abbrev pub refusal_item : Client → Bytes → List Bytes → CmdItem → Option CmdMsg
refusal_item c cmd argv item =
    if not (has_regist c) && not (count cmd unreg_allow)
    then some (error Err.notregistered (codes "You have not registered" ∷ []))
    else if ltb (length argv) item.parm_min
    then some (error Err.needmoreparams (cmd ∷ codes "Not enough parameters" ∷ []))
    else none

abbrev pub refusal : Client → Bytes → List Bytes → Option CmdMsg
refusal c cmd argv = elim (find cmd cmds) [
  | none ↦ some (error Err.unknowncommand (cmd ∷ codes "Unknown command" ∷ []))
  | some item ↦ refusal_item c cmd argv item
]

call_item-refused :
    (fd : ℕ) (cmd : Bytes) (argv : List Bytes) (item : CmdItem) (w : World) (c : Client)
    (e : CmdMsg)
    → find fd w.clients ≡ some c
    → refusal_item c cmd argv item ≡ some e
    → call_item fd cmd argv item w ≡ thrown e w
unfolding call_item getuser
call_item-refused fd cmd argv item w c e h r = ground arith

call_item-runs :
    (fd : ℕ) (cmd : Bytes) (argv : List Bytes) (item : CmdItem) (w : World) (c : Client)
    → find fd w.clients ≡ some c
    → refusal_item c cmd argv item ≡ none
    → call_item fd cmd argv item w ≡ (run_handler item.fp fd argv >> welcome fd (has_regist c)) w
unfolding call_item getuser
call_item-runs fd cmd argv item w c h r = ground arith

-- For a connected client: a command that is refused changes nothing and sends nothing, and the
-- refusal is thrown; one that is not refused is in the table, and its handler runs, then the
-- welcome that depends on whether the client was registered before.
pub call-refusal :
    (fd : ℕ) (cmd : Bytes) (argv : List Bytes) (w : World) (c : Client)
    → find fd w.clients ≡ some c
    → ((e : CmdMsg) → refusal c cmd argv ≡ some e → call fd (cmd ∷ argv) w ≡ thrown e w)
      × (refusal c cmd argv ≡ none
          → (item : CmdItem) × (find cmd cmds ≡ some item)
            × (call fd (cmd ∷ argv) w
                ≡ (run_handler item.fp fd argv >> welcome fd (has_regist c)) w))
unfolding call
call-refusal fd cmd argv w c h = elim (Option-cases (find cmd cmds)) [
  | inl e ↦ (λ m r. ground arith, λ r. absurd (ground arith))
  | inr (item, e) ↦ (
    λ m r. ground (arith, call_item-refused fd cmd argv item w c m h),
    λ r. (item, e, ground (arith, call_item-runs fd cmd argv item w c h)),
  )
]
