-- ===== src/Throughput/Tests.antt =====
-- The server that measures throughput on concrete inputs.
use nycu_intro_np.Prelude.{
  ℕ, ◌+◌, ◌-◌, ◌≡◌, refl, List, [], ◌∷◌, ◌++◌, Bytes, codes, decimal, find, contains, emplace,
  modify, nat_eq, replicate, arith, equal, c_str,
}
use nycu_intro_np.Throughput.{
  Server, started, returns, exits, has_nul, line_buffer, cut_lines, at, change, handle_new_client,
  cut_lines, line_buffer, has_nul, sendstr, command, commands, handle_server, accepts, readable,
  serve, step, steps,
}
use nycu_intro_np.Throughput.Tables.{count_of}
use nycu_intro_np.Throughput.Holds.{Holds}
use nycu_intro_np.Throughput.Counted.{Reach, start, handle, clients_lem}
use nycu_intro_np.Throughput.Measured.{payload}

abbrev stamp : ℕ → Bytes
stamp = decimal

abbrev elapsed : ℕ → ℕ → Bytes
elapsed t0 t1 = decimal (t1 - t0)

abbrev rate : ℕ → ℕ → ℕ → Bytes
rate n t0 t1 = codes "0"

-- Descriptors 3 and 4 listen; 5 is a connection of the first, 6 of the second.
abbrev server : Server
server = record (started 3 4 0) {
  mapping = (6, 4) ∷ (5, 3) ∷ [];
  cnt = (4, 1) ∷ (3, 1) ∷ [];
  mss = (6, 100) ∷ (5, 1460) ∷ [];
}

two_accepted :
    steps stamp elapsed rate (accepts 3 5 1460 ∷ accepts 4 6 100 ∷ []) (started 3 4 0)
    ≡ returns server
unfolding steps step handle_new_client change emplace modify contains started
two_accepted = refl

-- A line of commands, of which the last ends the server.
exit_command : step stamp elapsed rate (readable 5 (codes "/ping\n/x\n/exit")) server ≡ exits
unfolding step serve find handle_server line_buffer has_nul c_str cut_lines commands command equal
    started
exit_command = refl

abbrev one : Server
one = handle_new_client 4 6 100 (handle_new_client 3 5 1460 (started 3 4 0))

one-Reach : Reach stamp elapsed rate one
unfolding step handle_new_client emplace contains started
one-Reach = handle (accepts 4 6 100) (handle (accepts 3 5 1460) (start 3 4 0) refl refl) refl refl

clients_lem_example :
    step stamp elapsed rate (readable 5 (codes "/clients\n")) one
    ≡ returns (
        sendstr stamp elapsed rate 5
          (codes "CLIENTS " ++ (decimal (count_of 4 one.mapping) ++ codes "\n"))
          (record one { cnt = emplace 4 0 one.cnt }))
unfolding handle_new_client emplace contains started find count_of
clients_lem_example = clients_lem stamp elapsed rate one 5 one-Reach refl (omega arith)

abbrev reads : List (ℕ × Bytes)
reads = (6, replicate 40 0) ∷ (6, replicate 9 0) ∷ []

reads-payload : payload server.mss reads ≡ 34 + 9
unfolding payload at find started
reads-payload = refl
