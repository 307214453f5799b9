-- ===== src/Throughput/Counted.antt =====
-- The count of clients at each listening socket, against the table of connections.
use nycu_intro_np.Prelude.{
  ℕ, ◌+◌, ◌^◌, ◌≤◌, ◌<◌, ◌≡◌, refl, sym, ◌∙◌, ap, subst, Bool, true, false, not, ◌&&◌, ◌||◌, ◌==◌,
  ltb, leb, List, [], ◌∷◌, ◌++◌, some, Bytes, codes, decimal, find, contains, emplace, nat_eq,
  ==_iff, length, c_str, find-some, Bool-cases, arith, is_empty, equal, inl, inr,
}
use nycu_intro_np.Throughput.{
  Server, started, returns, at, cut_lines, line_buffer, has_nul, sink_size, at_most, received,
  handle_sink, header_size, max_line, max_data_line, sendstr, command, commands, handle_server,
  Event, accepts, readable, close_failed, serve, step, int_text,
}
use nycu_intro_np.Throughput.Tables.{
  count_of, IsCounted, KeepsSizes, IsSame, new-IsCounted, del-IsCounted, same-IsCounted,
  IsSame-refl, IsSame-trans, at-emplace, emplace-Keeps, new_keeps,
}
use nycu_intro_np.Throughput.Holds.{Holds, Holds-bind, Holds-implies, Holds-if}

received-IsSame :
    (n : ℕ) (s : Server)
    → n ≤ max_data_line
    → s.recv_size + (header_size + n) < 2 ^ 63
    → Holds (λ r. IsSame s r.1) (received n s)
unfolding received
received-IsSame n s fits small =
    let unfaulty : (ltb max_data_line n || leb (2 ^ 63) (s.recv_size + (header_size + n))) ≡ false =
      ground arith in
    rw unfaulty (Holds-if (λ r. IsSame s r.1) (n == 0) _ _ (IsSame-refl s) (IsSame-refl s))

handle_sink-IsSame :
    (fd : ℕ) (got : Bytes) (s : Server)
    → length got ≤ max_data_line
    → s.recv_size + (header_size + length got) < 2 ^ 63
    → Holds (λ r. IsSame s r.1) (handle_sink fd got s)
unfolding handle_sink
handle_sink-IsSame fd got s fits small =
    let size = sink_size (at fd s.mss) in
    let read = record s { mss = emplace fd 0 s.mss } in
    Holds-implies (λ r. IsSame read r.1) (λ r. IsSame s r.1)
      (received (at_most size (length got)) read)
      (received-IsSame (at_most size (length got)) read (ground arith) (ground arith))
      λ r. IsSame-trans s read r.1 (refl, λ l. refl, λ k m. emplace-Keeps fd 0 k m s.mss)

-- The events that are handled without undefined behaviour: a new connection has a descriptor that no
-- connection has; what can be read belongs to a connection, is shorter than a line's buffer where it
-- is commands and no longer than the other buffer where it is not, and leaves the count of what was
-- received below 2 ^ 63.
abbrev pub IsFine : Event → Server → Type 0
IsFine (accepts listenfd connfd mss_size) s = contains connfd s.mapping ≡ false
IsFine (readable connfd got) s =
    (contains connfd s.mapping ≡ true)
    × (find connfd s.mapping ≡ some s.serverfd → length got < max_line)
    × (length got ≤ max_data_line)
    × (s.recv_size + (header_size + length got) < 2 ^ 63)

close_failed-IsCounted :
    (fd l : ℕ) (s : Server) (r : Bool × Server)
    → find fd s.mapping ≡ some l
    → IsCounted s
    → IsSame s r.1
    → Holds (λ t. IsCounted t × KeepsSizes s t) (close_failed fd r)
unfolding close_failed
close_failed-IsCounted fd l s (good, t) there h same =
    let counted = same-IsCounted s t same h in
    let (u, e, left, kept) = del-IsCounted fd l t (rw (same.0) there) counted in
    let done : IsCounted u × KeepsSizes s u = (left, λ k m f. kept k m (same.2 k m f)) in
    Holds-if (λ v. IsCounted v × KeepsSizes s v) good _ _ (counted, same.2)
      (subst (λ m. Holds (λ v. IsCounted v × KeepsSizes s v) m) (sym e) done)

module _ (stamp : ℕ → Bytes) (elapsed : ℕ → ℕ → Bytes) (rate : ℕ → ℕ → ℕ → Bytes) where
  command-IsSame :
      (fd : ℕ) (token : Bytes) (s : Server)
      → Holds (IsSame s) (command stamp elapsed rate fd token s)
  unfolding command sendstr
  command-IsSame fd token s =
      let same = IsSame-refl s in
      Holds-if (IsSame s) (equal token (codes "/reset")) _ _ same (
        Holds-if (IsSame s) (equal token (codes "/ping")) _ _ same (
          Holds-if (IsSame s) (equal token (codes "/report")) _ _ same (
            Holds-if (IsSame s) (equal token (codes "/clients")) _ _
              (refl, λ l. at-emplace s.sinkfd l s.cnt, λ k m e. e)
              (Holds-if (IsSame s) (equal token (codes "/exit")) _ _ tt same))))

  commands-IsSame :
      (fd : ℕ) (tokens : List Bytes) (s : Server)
      → Holds (IsSame s) (commands stamp elapsed rate fd tokens s)
  unfolding commands
  commands-IsSame fd [] s = IsSame-refl s
  commands-IsSame fd (token ∷ tokens) s =
      Holds-bind (IsSame s) (IsSame s) (command stamp elapsed rate fd token s)
        (commands stamp elapsed rate fd tokens) (command-IsSame fd token s)
        λ t h.
          Holds-implies (IsSame t) (IsSame s) (commands stamp elapsed rate fd tokens t)
            (commands-IsSame fd tokens t) λ u. IsSame-trans s t u h

  handle_server-IsSame :
      (fd : ℕ) (got : Bytes) (s : Server)
      → length got < max_line
      → Holds (λ r. IsSame s r.1) (handle_server stamp elapsed rate fd got s)
  unfolding handle_server
  handle_server-IsSame fd got s short =
      let runs = commands stamp elapsed rate fd (cut_lines true [] (c_str (line_buffer got))) s in
      let whole : (leb max_line (length got) && not (has_nul (line_buffer got))) ≡ false =
        ground arith in
      rw whole (
        Holds-if (λ r. IsSame s r.1) (is_empty got) _ _ (IsSame-refl s)
          (Holds-bind (IsSame s) (λ r. IsSame s r.1) runs _ (commands-IsSame fd _ s) λ t h. h))

  pub step_known :
      (fd l : ℕ) (got : Bytes) (s : Server)
      → find fd s.mapping ≡ some l
      → step stamp elapsed rate (readable fd got) s ≡ serve stamp elapsed rate l fd got s
  unfolding step
  step_known fd l got s there = simp (step, there)

  serve_fine :
      (P : Server → Type 0) (fd l : ℕ) (got : Bytes) (s : Server)
      → find fd s.mapping ≡ some l
      → IsFine (readable fd got) s
      → ((r : Bool × Server) → IsSame s r.1 → Holds P (close_failed fd r))
      → Holds P (serve stamp elapsed rate l fd got s)
  unfolding serve
  serve_fine P fd l got s there (known, short, fits, small) closes =
      elim (Bool-cases (l == s.serverfd)) [
        | inl commanding ↦
            let socket = (==_iff l s.serverfd).0 commanding in
            rw commanding (
              Holds-bind (λ r. IsSame s r.1) P (handle_server stamp elapsed rate fd got s)
                (close_failed fd) (handle_server-IsSame fd got s (short (there ∙ ap some socket)))
                closes)
        | inr sinking ↦ rw sinking (
            Holds-bind (λ r. IsSame s r.1) P (handle_sink fd got s) (close_failed fd)
              (handle_sink-IsSame fd got s fits small) closes)
      ]

  pub step-Holds :
      (e : Event) (s : Server)
      → IsFine e s
      → IsCounted s
      → Holds (λ t. IsCounted t × KeepsSizes s t) (step stamp elapsed rate e s)
  unfolding step
  step-Holds (accepts l fd mss) s fine h = (new-IsCounted l fd mss s fine h, new_keeps l fd mss s)
  step-Holds (readable fd got) s fine h =
      let (l, there) = find-some fd s.mapping fine.0 in
      rw (step_known fd l got s there) (
        serve_fine (λ t. IsCounted t × KeepsSizes s t) fd l got s there fine
          λ r. close_failed-IsCounted fd l s r there h)

  -- The states of a run, from empty tables on; time passes between the calls of `epoll_wait`.
  pub data Reach : Server → Type 0 where
    start : (serverfd sinkfd time : ℕ) → Reach (started serverfd sinkfd time)
    wait : {s : Server} (time : ℕ) → Reach s → Reach (record s { current_time = time })
    handle :
        {s t : Server} (e : Event)
        → Reach s
        → IsFine e s
        → step stamp elapsed rate e s ≡ returns t
        → Reach t

  reach-IsCounted : (s : Server) → Reach s → IsCounted s
  unfolding count_of at find started
  reach-IsCounted s (start serverfd sinkfd time) = (tt, λ l. refl)
  reach-IsCounted s (wait time r) = reach-IsCounted _ r
  reach-IsCounted s (handle {s = before} e r fine returned) =
      (subst (λ m. Holds (λ t. IsCounted t × KeepsSizes before t) m) returned
        (step-Holds e before fine (reach-IsCounted before r))).0

  serve_clients :
      (s : Server) (fd : ℕ)
      → serve stamp elapsed rate s.serverfd fd (codes "/clients\n") s
        ≡ returns (
            sendstr stamp elapsed rate fd
              (codes "CLIENTS " ++ (int_text (at s.sinkfd s.cnt) ++ codes "\n"))
              (record s { cnt = emplace s.sinkfd 0 s.cnt }))
  unfolding serve handle_server commands command cut_lines line_buffer has_nul c_str equal
      close_failed
  serve_clients s fd = rw ((==_iff s.serverfd s.serverfd).1 refl) refl

  -- In every state of a run, `/clients` on a line from a connection of the first socket is answered with the
  -- number of connections that the second one has, if there are fewer than 2 ^ 31, and changes no count.
  pub clients_lem :
      (s : Server) (fd : ℕ)
      → Reach s
      → find fd s.mapping ≡ some s.serverfd
      → count_of s.sinkfd s.mapping < 2 ^ 31
      → step stamp elapsed rate (readable fd (codes "/clients\n")) s
        ≡ returns (
            sendstr stamp elapsed rate fd
              (codes "CLIENTS " ++ (decimal (count_of s.sinkfd s.mapping) ++ codes "\n"))
              (record s { cnt = emplace s.sinkfd 0 s.cnt }))
  unfolding int_text
  clients_lem s fd r there few =
      let (_, counts) = reach-IsCounted s r in
      let counted : at s.sinkfd s.cnt ≡ count_of s.sinkfd s.mapping =
        omega (arith, counts s.sinkfd) in
      let small : ltb (count_of s.sinkfd s.mapping) (2 ^ 31) ≡ true = ground arith in
      step_known fd s.serverfd (codes "/clients\n") s there
      ∙ serve_clients s fd
      ∙ rw counted (rw small refl)
