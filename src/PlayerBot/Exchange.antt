-- ===== src/PlayerBot/Exchange.antt =====
-- One exchange of a bot, over a connection that does not break.
use multi_player_game.Common.{
  ℕ, ◌^◌, ◌≤◌, ◌<◌, ◌≡◌, refl, ap, subst, ◌∙◌, inl, inr, List, [], ◌∷◌, ◌++◌, append_assoc, some,
  arith, length, ltb, false, Bool-cases,
}
use multi_player_game.Json.{JsonApi}
use multi_player_game.Socket.{SocketApi, IsReliable}
use multi_player_game.Network.{NetworkApi}
use multi_player_game.MessageFramer.{max_message_size, header_size, write_u32_le, encode}
use multi_player_game.MessageFramer.RoundTrip.{encode_lem, write_u32_le_lem, read-write_u32_le}
use multi_player_game.MessageFramer.Stream.{
  Outcome, done, failed, out_of_fuel, read_exact, Reads, read_exact-Reads,
}
use multi_player_game.MessageFramer.Stream.Delivery.{read_front, write_reliable}
use multi_player_game.Server.Output.{Extends, same-Extends, Extends-trans}
use multi_player_game.PlayerBot.{
  Bot, response_len, response_read, read_response, after_header, after_write, exchange,
  send_and_receive, after_exchange,
}
use multi_player_game.PlayerBot.Plan.{Request, send_all}

response_len-write : (v : ℕ) → v < 2 ^ 32 → response_len (write_u32_le v) ≡ v
unfolding response_len
response_len-write v h = rw (write_u32_le_lem v) (read-write_u32_le v h)

length-write_u32_le : (v : ℕ) → length (write_u32_le v) ≡ 4
length-write_u32_le v = rw (write_u32_le_lem v)

module _ (api : SocketApi) (rel : IsReliable api) where
  open api use {Socket, incoming, outgoing}

  response_read-same :
      (n : ℕ) (s : Socket) (r : Outcome (List ℕ) × Socket)
      → Reads api s n r
      → outgoing (response_read api r).1 ≡ outgoing s
  unfolding response_read
  response_read-same n s (done p, t) (size, i, o) = o
  response_read-same n s (failed, t) o = o
  response_read-same n s (out_of_fuel, t) h = absurd h

  read_response-same : (n : ℕ) (s : Socket) → outgoing (read_response api n s).1 ≡ outgoing s
  unfolding read_response
  read_response-same n s = elim (Bool-cases (ltb max_message_size n)) [
    | inl big ↦ rw big
    | inr small ↦ rw small (response_read-same n s _ (read_exact-Reads api s n))
  ]

  after_header-same :
      (s : Socket) (r : Outcome (List ℕ) × Socket)
      → Reads api s header_size r
      → outgoing (after_header api r).1 ≡ outgoing s
  unfolding after_header
  after_header-same s (done h, t) (size, i, o) = read_response-same _ t ∙ o
  after_header-same s (failed, t) o = o
  after_header-same s (out_of_fuel, t) h = absurd h

  -- Whatever comes back, the request is sent whole, and nothing else.
  pub exchange_sends :
      (s : Socket) (p : List ℕ) → outgoing (exchange api s p).1 ≡ outgoing s ++ encode p
  unfolding exchange after_write
  exchange_sends s p =
      let (t, e, o, i) = write_reliable api rel s (encode p) in
      rw (e, after_write) (after_header-same t _ (read_exact-Reads api t header_size) ∙ o)

  abbrev HeaderRead : Socket → List ℕ → List ℕ → Outcome (List ℕ) × Socket → Type 0
  HeaderRead s bytes rest r =
      (s' : Socket) × (r ≡ (done bytes, s')) × (incoming s' ≡ rest) × (outgoing s' ≡ outgoing s)

  -- A response that is on the stream is taken, and nothing else.
  pub exchange_gets :
      (s : Socket) (p r rest : List ℕ)
      → length r ≤ max_message_size
      → incoming s ≡ encode r ++ rest
      → (s' : Socket) × (exchange api s p ≡ (some r, s'))
        × (incoming s' ≡ rest)
        × (outgoing s' ≡ outgoing s ++ encode p)
  unfolding exchange after_write after_header read_response response_read
  exchange_gets s p r rest small i =
      let v = length r in
      let (t, e, o, i') = write_reliable api rel s (encode p) in
      let whole : incoming t ≡ write_u32_le v ++ (r ++ rest) =
        i'
        ∙ i
        ∙ ap (λ x. x ++ rest) (encode_lem r (omega arith))
        ∙ append_assoc (write_u32_le v) r rest in
      let (u, eu, iu, ou) =
        subst (λ n. HeaderRead t (write_u32_le v) (r ++ rest) (read_exact api t n))
          (length-write_u32_le v) (read_front api rel t (write_u32_le v) (r ++ rest) whole) in
      let (x, ex, ix, ox) = read_front api rel u r rest iu in
      let fits : ltb max_message_size v ≡ false = ground arith in
      (
        x,
        rw (
          e,
          after_write,
          eu,
          after_header,
          response_len-write v (omega arith),
          read_response,
          fits,
          ex,
          response_read,
        ),
        ix,
        ox ∙ ou ∙ o,
      )

module _ (json : JsonApi) (api : SocketApi) (rel : IsReliable api) (network : NetworkApi api) where
  open api use {Socket, incoming, outgoing}
  open network use {Net}

  -- A connected bot only adds to what it has sent.
  pub send_all-Extends :
      (rs : List Request) (b : Bot Socket Net) (s : Socket)
      → b.socket_fd ≡ some s
      → (t : Socket) × ((send_all json api network rs b).socket_fd ≡ some t)
        × Extends api (outgoing s) t
  unfolding send_all send_and_receive after_exchange
  send_all-Extends [] b s e = (s, e, same-Extends api (outgoing s) s refl)
  send_all-Extends (((action, p), latency) ∷ rs) b s e =
      let r = exchange api s p in
      let (t, fd, more) =
        send_all-Extends rs (after_exchange json api network action latency b r) r.1 refl in
      rw (e, send_and_receive)
        (t, fd, Extends-trans api (outgoing s) r.1 t (encode p, exchange_sends api rel s p) more)
