-- ===== src/PlayerBot/Conversation.antt =====
-- A bot and a session of the server at the two ends of one connection.
use multi_player_game.Common.{
  ℕ, zero, suc, ◌≡◌, refl, sym, ap, subst, ◌∙◌, List, [], ◌∷◌, ◌++◌, append_assoc, append-nil,
  Option, some, String, length, drop, drop-append,
}
use multi_player_game.Json.{JsonApi}
use multi_player_game.Socket.{SocketApi, IsReliable}
use multi_player_game.Network.{NetworkApi}
use multi_player_game.MessageFramer.{encode}
use multi_player_game.MetricsCollector.{RequestMetric}
use multi_player_game.Server.{State, after_round, session_loop}
use multi_player_game.Server.Exchange.{
  IsSmall, frames, exchanged, replies, world_after, done_one, round-Answers, round_ends,
}
use multi_player_game.Server.Output.{Extends, session_loop-Extends}
use multi_player_game.PlayerBot.{Bot, exchange, measure, send_and_receive, after_exchange}
use multi_player_game.PlayerBot.Plan.{Request, send_all}
use multi_player_game.PlayerBot.Exchange.{exchange_sends, exchange_gets, send_all-Extends}

append_cancel : (xs ys zs : List ℕ) → xs ++ ys ≡ xs ++ zs → ys ≡ zs
append_cancel xs ys zs e = sym (drop-append xs ys) ∙ ap (drop (length xs)) e ∙ drop-append xs zs

abbrev pub payloads : List Request → List (List ℕ)
payloads [] = []
payloads (((action, p), latency) ∷ rs) = p ∷ payloads rs

module _ (json : JsonApi) {W : Type 0} (handle : List ℕ → ℕ → W → List ℕ × W) where
  -- What a bot measures, if the handler answers its requests one by one.
  unfoldable pub results : ℕ → List Request → W → List RequestMetric
  unfolding measure
  results c [] w = []
  results c (((action, p), latency) ∷ rs) w =
      measure json action latency (some (handle p c w).0) ∷ results c rs (handle p c w).1

module _ (json : JsonApi) (api : SocketApi) (rel : IsReliable api) (network : NetworkApi api)
    {W : Type 0} (handle : List ℕ → ℕ → W → List ℕ × W) where
  open api use {Socket, incoming, outgoing}
  open network use {Net}

  -- What both ends come to.
  abbrev pub Agrees :
      ℕ → List Request → Bot Socket Net → State Socket W → Bot Socket Net → State Socket W → Type 0
  Agrees c rs b st b' end =
      (b'.local_metrics ≡ b.local_metrics ++ results json handle c rs st.world)
      × (end.world ≡ world_after handle c (payloads rs) st.world)
      × (end.connections ≡ exchanged c (length rs) st.connections)

  no_more :
      (fuel c : ℕ) (b : Bot Socket Net) (st end : State Socket W)
      → incoming st.socket ≡ []
      → session_loop api handle (suc fuel) c st ≡ some end
      → Agrees c [] b st b end
  unfolding session_loop after_round results world_after exchanged
  no_more fuel c b st end i e =
      let (t, over, o) = round_ends api rel handle c st i in
      let last : record st { socket = t } ≡ end = cc (rw over at e) in
      (
        sym (append-nil b.local_metrics),
        ap (λ s. s.world) (sym last),
        ap (λ s. s.connections) (sym last),
      )

  -- Whatever is on both wires is what the other end has sent.
  abbrev pub Wired : Socket → Socket → Socket → Socket → Type 0
  Wired near near_end far far_end =
      (outgoing near_end ≡ outgoing near ++ incoming far)
      × (outgoing far_end ≡ outgoing far ++ incoming near)

  -- The rest of what an end sends, after it has sent `part`.
  sent_rest :
      (s s' s'' : Socket) (part rest : List ℕ)
      → outgoing s'' ≡ outgoing s ++ rest
      → outgoing s' ≡ outgoing s ++ part
      → Extends api (outgoing s') s''
      → (more : List ℕ) × (rest ≡ part ++ more) × (outgoing s'' ≡ outgoing s' ++ more)
  sent_rest s s' s'' part rest e o (more, o') = (
    more,
    append_cancel (outgoing s) rest (part ++ more)
        (sym e ∙ o' ∙ ap (λ x. x ++ more) o ∙ append_assoc (outgoing s) part more),
    o',
  )

  step_lem :
      (action : String) (p : List ℕ) (latency : ℕ) (rs : List Request) (b : Bot Socket Net)
      (s : Socket) (r : Option (List ℕ) × Socket)
      → b.socket_fd ≡ some s
      → exchange api s p ≡ r
      → send_all json api network (((action, p), latency) ∷ rs) b
        ≡ send_all json api network rs (after_exchange json api network action latency b r)
  unfolding send_all send_and_receive
  step_lem action p latency rs b s r fd e = rw (fd, send_and_receive, e)

  -- The bot is connected with socket s, and ends with s'; the session ends in `end`.
  abbrev pub Talks :
      ℕ → ℕ → List Request → Bot Socket Net → State Socket W → State Socket W → Type 0
  Talks fuel c rs b st end =
      (s s' : Socket)
      → b.socket_fd ≡ some s
      → (send_all json api network rs b).socket_fd ≡ some s'
      → session_loop api handle fuel c st ≡ some end
      → Wired s s' st.socket end.socket
      → Agrees c rs b st (send_all json api network rs b) end

  pub talk :
      (fuel c : ℕ) (rs : List Request) (b : Bot Socket Net) (st end : State Socket W)
      → IsSmall (payloads rs)
      → IsSmall (replies handle c (payloads rs) st.world)
      → Talks fuel c rs b st end
  unfolding session_loop after_round results world_after exchanged replies send_all after_exchange
  talk zero c rs b st end small small' s s' fd fd' e w = cc
  talk (suc fuel) c [] b st end small small' s s' fd fd' e (near, far) =
      let same : s ≡ s' = cc in
      let empty =
        append_cancel (outgoing s) (incoming st.socket) []
          (sym near ∙ ap outgoing (sym same) ∙ sym (append-nil (outgoing s))) in
      no_more fuel c b st end empty e
  talk (suc fuel) c (((action, p), latency) ∷ rs) b st end small small' s s' fd fd' e (near, far) =
      let one = exchange api s p in
      let b1 = after_exchange json api network action latency b one in
      let (u, fdu, more) = send_all-Extends json api rel network rs b1 one.1 refl in
      let first = step_lem action p latency rs b s one fd refl in
      let end_socket : u ≡ s' = cc in
      let (after, x, near') =
        sent_rest s one.1 s' (encode p) (incoming st.socket) near (exchange_sends api rel s p)
          (subst (Extends api (outgoing one.1)) end_socket more) in
      let (t, er, it, ot) = round-Answers api rel handle c p after st small.0 x in
      let reply = (handle p c st.world).0 in
      let st' = done_one api rel handle c p st t in
      let go : session_loop api handle fuel c st' ≡ some end = rw er at e in
      let (after', y, far') =
        sent_rest st.socket t end.socket (encode reply) (incoming s) far ot
          (session_loop-Extends api handle fuel c st' end go) in
      let (v, ev, iv, ov) = exchange_gets api rel s p reply after' small'.0 y in
      let b2 = after_exchange json api network action latency b (some reply, v) in
      let whole = step_lem action p latency rs b s (some reply, v) fd ev in
      let ends = sym (ap (λ x. x.socket_fd) whole) ∙ fd' in
      let same_out : outgoing v ≡ outgoing one.1 = ov ∙ sym (exchange_sends api rel s p) in
      let wires : Wired v s' t end.socket = (
        near' ∙ ap (λ x. x ++ after) (sym same_out) ∙ ap (λ x. outgoing v ++ x) (sym it),
        far' ∙ ap (λ x. outgoing t ++ x) (sym iv),
      ) in
      let (ms, world, registry) =
        talk fuel c rs b2 st' end small.1 small'.1 v s' refl ends go wires in
      (
        ap (λ x. x.local_metrics) whole
            ∙ ms
            ∙ append_assoc b.local_metrics _ (results json handle c rs (handle p c st.world).1),
        world,
        registry,
      )

  -- Over wires that hold what the other end would say, the bot says all of its part.
  pub talk_happens :
      (c : ℕ) (rs : List Request) (b : Bot Socket Net) (s : Socket) (w : W)
      → b.socket_fd ≡ some s
      → IsSmall (replies handle c (payloads rs) w)
      → incoming s ≡ frames (replies handle c (payloads rs) w)
      → (s' : Socket) × ((send_all json api network rs b).socket_fd ≡ some s')
        × (outgoing s' ≡ outgoing s ++ frames (payloads rs))
  unfolding send_all send_and_receive frames replies
  talk_happens c [] b s w fd small i = (s, fd, sym (append-nil (outgoing s)))
  talk_happens c (((action, p), latency) ∷ rs) b s w fd small i =
      let reply = (handle p c w).0 in
      let (v, ev, iv, ov) = exchange_gets api rel s p reply _ small.0 i in
      let b' = after_exchange json api network action latency b (some reply, v) in
      let (s', fd', o) =
        talk_happens c rs b' v (handle p c w).1 (unfold after_exchange in refl) small.1 iv in
      (
        s',
        rw (step_lem action p latency rs b s (some reply, v) fd ev) fd',
        o
            ∙ ap (λ x. x ++ frames (payloads rs)) ov
            ∙ append_assoc (outgoing s) (encode p) (frames (payloads rs)),
      )
