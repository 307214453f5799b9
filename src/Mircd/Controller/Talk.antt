-- ===== src/Mircd/Controller/Talk.antt =====
-- What PRIVMSG and TOPIC send, and to whom.
use nycu_intro_np.Prelude.{
  ℕ, ◌≡◌, ◌∙◌, true, false, not, List, [], ◌∷◌, ◌++◌, map, keep, none, some, Bytes, codes, is_empty,
  find, modify, nat_eq, bytes_eq, ◌==◌, arith, append-nil, append_assoc, find-modify_self,
  contains-find-some, contains-find-none, contains, Distinct, Map, refl, ap, ◌+◌, ==_iff,
  if◌then◌else◌,
}
use nycu_intro_np.Mircd.Wire.{CmdMsg, Rpl, Err, error, say, reply, render_msgs}
use nycu_intro_np.Mircd.State.{Client, Channel, World}
use nycu_intro_np.Mircd.Monad.{
  ok, thrown, broadcast, sendcmd, sendcmds, sendstr, getuser, arg, ◌>>◌, bind-ok,
}
use nycu_intro_np.Mircd.Client.{in_channel}
use nycu_intro_np.Mircd.Channel.{fds, has_channel, getchannel, gettopic, change_topic}
use nycu_intro_np.Mircd.Controller.{deliver, topic, member_check}

-- One message for each of these descriptors.
abbrev pub copies : Bytes → List ℕ → List (ℕ × Bytes)
copies line = map (λ g. (g, line))

pub broadcast_lem :
    (l : List ℕ) (m : CmdMsg) (nick : Bytes) (w : World)
    → broadcast l m nick w
      ≡ ok tt (record w { sent = w.sent ++ copies (render_msgs nick (m ∷ [])) l })
unfolding broadcast sendcmd sendcmds sendstr
broadcast_lem [] m nick w = rw append-nil
broadcast_lem (g ∷ l) m nick w =
    broadcast_lem l m nick (record w { sent = w.sent ++ (g, render_msgs nick (m ∷ [])) ∷ [] })
    ∙ rw append_assoc

-- The descriptors that PRIVMSG writes to: the members but the sender.
abbrev pub audience : ℕ → Channel → List ℕ
audience fd ch = keep (λ g. not (g == fd)) (fds ch.users)

-- PRIVMSG to a channel and to another name.
pub deliver_lem :
    (fd : ℕ) (name text : Bytes) (w : World) (c : Client)
    → find fd w.clients ≡ some c
    → ((ch : Channel)
        → find name w.channels ≡ some ch
        → deliver fd name text w
          ≡ ok tt (record w {
            sent =
                w.sent
                ++ copies
                    (render_msgs c.nickname (say (codes "PRIVMSG") (name ∷ text ∷ []) ∷ []))
                    (audience c.connfd ch);
          }))
      × (find name w.channels ≡ none
          → deliver fd name text w
            ≡ thrown (error Err.nosuchnick (name ∷ codes "No such nick/channel" ∷ [])) w)
unfolding deliver has_channel getchannel getuser
deliver_lem fd name text w c h = (
  λ ch e. ground (
    arith,
    contains-find-some name w.channels {v = ch} e,
    broadcast_lem (audience c.connfd ch) (say (codes "PRIVMSG") (name ∷ text ∷ [])) c.nickname w,
  ),
  λ e. ground (arith, contains-find-none name w.channels e),
)

-- How many messages a descriptor gets.
unfoldable pub occurs : ℕ → List ℕ → ℕ
occurs g [] = 0
occurs g (h ∷ l) = (if h == g then 1 else 0) + occurs g l

occurs-audience :
    (fd g : ℕ) (l : List ℕ)
    → occurs g (keep (λ h. not (h == fd)) l) ≡ (if g == fd then 0 else occurs g l)
unfolding occurs
occurs-audience fd g [] = ground arith
occurs-audience fd g (h ∷ l) = ground (arith, occurs-audience fd g l)

occurs-fds :
    (g : ℕ) (users : Map ℕ ℕ)
    → Distinct users
    → occurs g (fds users) ≡ (if contains g users then 1 else 0)
unfolding occurs contains
occurs-fds g [] d = refl
occurs-fds g ((h, r) ∷ users) (new, d) = ground (arith, occurs-fds g users d, ==_iff h g)

-- PRIVMSG to a channel whose members are under descriptors of their own: every member but the sender
-- gets the text once, with the sender's nick, nobody else gets anything, and nothing else changes; the
-- sender need not be a member. To any other name, a refusal and no change.
pub deliver_once :
    (fd : ℕ) (name text : Bytes) (w : World) (c : Client)
    → find fd w.clients ≡ some c
    → ((ch : Channel)
        → find name w.channels ≡ some ch
        → Distinct ch.users
        → (l : List ℕ) × (deliver fd name text w
            ≡ ok tt (record w {
              sent =
                  w.sent
                  ++ copies
                      (render_msgs c.nickname (say (codes "PRIVMSG") (name ∷ text ∷ []) ∷ []))
                      l;
            }))
          × ((g : ℕ)
              → occurs g l ≡ (if g == c.connfd then 0 else if contains g ch.users then 1 else 0)))
      × (find name w.channels ≡ none
          → deliver fd name text w
            ≡ thrown (error Err.nosuchnick (name ∷ codes "No such nick/channel" ∷ [])) w)
deliver_once fd name text w c h =
    let (known, unknown) = deliver_lem fd name text w c h in
    (
      λ ch e d. (
        audience c.connfd ch,
        known ch e,
        λ g.
            occurs-audience c.connfd g (fds ch.users)
            ∙ ap (λ n. if g == c.connfd then 0 else n) (occurs-fds g ch.users d),
      ),
      unknown,
    )

-- The checks of PART and TOPIC, passed.
pub member_check-passes :
    (fd : ℕ) (name : Bytes) (w : World) (c : Client) (ch : Channel)
    → find fd w.clients ≡ some c
    → find name w.channels ≡ some ch
    → in_channel c ch.name ≡ true
    → member_check fd name w ≡ ok tt w
unfolding member_check has_channel getchannel getuser
member_check-passes fd name w c ch h e m =
    ground (arith, contains-find-some name w.channels {v = ch} e)

abbrev pub retitled : Bytes → Channel → Channel
retitled t ch = record ch { topic = t }

-- The world after a member has set the topic.
abbrev pub with_topic : Client → Channel → Bytes → Bytes → World → World
with_topic c ch name t w = record w {
  channels = modify name (retitled t) w.channels;
  sent =
      w.sent
      ++ copies (render_msgs c.nickname (say (codes "TOPIC") (ch.name ∷ t ∷ []) ∷ []))
          (fds ch.users);
}

pub topic_set :
    (fd : ℕ) (name t : Bytes) (argv : List Bytes) (w : World) (c : Client) (ch : Channel)
    → find fd w.clients ≡ some c
    → find name w.channels ≡ some ch
    → in_channel c ch.name ≡ true
    → topic fd (name ∷ t ∷ argv) w ≡ ok tt (with_topic c ch name t w)
unfolding topic getchannel getuser arg change_topic
topic_set fd name t argv w c ch h e m = ground (
  arith,
  member_check-passes fd name w c ch h e m,
  find-modify_self name (retitled t) w.channels ch e,
  broadcast_lem (fds ch.users) (say (codes "TOPIC") (ch.name ∷ t ∷ [])) c.nickname
      (record w { channels = modify name (retitled t) w.channels }),
)

pub topic_get :
    (fd : ℕ) (name : Bytes) (w : World) (c : Client) (ch : Channel)
    → find fd w.clients ≡ some c
    → find name w.channels ≡ some ch
    → in_channel c ch.name ≡ true
    → topic fd (name ∷ []) w ≡ sendcmd c.connfd (gettopic ch) c.nickname w
unfolding topic getchannel getuser arg
topic_get fd name w c ch h e m = ground (arith, member_check-passes fd name w c ch h e m)

-- A member that sets a topic which is not empty, and then asks for it, is sent that topic; all members are
-- told of the new topic first.
pub topic_round_trip :
    (fd : ℕ) (name t : Bytes) (w : World) (c : Client) (ch : Channel)
    → find fd w.clients ≡ some c
    → find name w.channels ≡ some ch
    → in_channel c ch.name ≡ true
    → is_empty t ≡ false
    → (topic fd (name ∷ t ∷ []) >> topic fd (name ∷ [])) w
      ≡ sendcmd c.connfd (reply Rpl.topic (ch.name ∷ t ∷ [])) c.nickname (with_topic c ch name t w)
unfolding gettopic
topic_round_trip fd name t w c ch h e m full =
    bind-ok (topic fd (name ∷ t ∷ [])) (λ _. topic fd (name ∷ [])) w (with_topic c ch name t w) tt
      (topic_set fd name t [] w c ch h e m)
    ∙ topic_get fd name (with_topic c ch name t w) c (retitled t ch) h
        (find-modify_self name (retitled t) w.channels ch e) m
    ∙ rw full
