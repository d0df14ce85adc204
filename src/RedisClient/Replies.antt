-- ===== src/RedisClient/Replies.antt =====
-- What `get` and `hget` make of a reply.
use multi_player_game.Common.{
  ℕ, ◌≤◌, ◌<◌, ◌≡◌, ap, ◌∙◌, List, [], ◌∷◌, ◌++◌, Option, none, some, arith, length, take_all,
}
use multi_player_game.Common.Text.{codes}
use multi_player_game.RedisClient.Reading.{
  Reply, encode_reply, IsReply, meaning, bind_yes, read_value-Gives,
}
use multi_player_game.Socket.{SocketApi}
use multi_player_game.Network.{NetworkApi, IsRoomy}
use multi_player_game.RedisClient.{
  RedisConnection, Ending, yes_with, ◌>>=◌, ◌>>◌, connect, on_socket, after_send, send_command,
  encode_command,
}
use multi_player_game.RedisClient.Commands.{read_value, get, hget}

some_bytes : (args : List (List ℕ)) → 0 < length (encode_command args)
unfolding encode_command
some_bytes args = omega arith

module _ (api : SocketApi) (network : NetworkApi api) (roomy : IsRoomy network)
    (c : RedisConnection api.Socket network.Net) where
  open api use {Socket, incoming, outgoing, recv, send}

  abbrev on : Socket → RedisConnection Socket network.Net
  on s = record c { socket_fd = some s }

  sent_all :
      (wire : List ℕ) (p : Option ℕ × Socket)
      → p.0 ≡ some (length wire)
      → (s : Socket) → after_send api network wire (on s) p ≡ (yes_with tt, on p.1)
  unfolding after_send
  sent_all wire (none, t) e s = cc
  sent_all wire (some n, t) e s = ground arith

  -- The whole command is sent on the connection that is there.
  send_command-yes :
      (s : Socket) (args : List (List ℕ))
      → (t : Socket) × (send_command api network args (on s) ≡ (yes_with tt, on t))
        × (incoming t ≡ incoming s)
        × (outgoing t ≡ outgoing s ++ encode_command args)
  unfolding send_command connect on_socket ◌>>=◌ after_send
  send_command-yes s args =
      let wire = encode_command args in
      let all = roomy.sends_all s wire (some_bytes args) in
      let (lo, hi, o, i) = api.send_some s wire (length wire) all in
      let (_, t) = send s wire in
      (
        t,
        sent_all wire (send s wire) all s,
        i,
        o ∙ ap (◌++◌ (outgoing s)) (take_all (length wire) wire (omega arith)),
      )

  -- The reply is taken, and the command is what was sent.
  abbrev pub Answered :
      List (List ℕ)
      → Reply
      → Socket
      → List ℕ
      → Ending (List ℕ) × RedisConnection Socket network.Net
      → Type 0
  Answered args reply s rest result =
      (s' : Socket) × (result ≡ (meaning reply, on s'))
      × (incoming s' ≡ rest)
      × (outgoing s' ≡ outgoing s ++ encode_command args)

  exchange :
      (fuel : ℕ) (s : Socket) (args : List (List ℕ)) (reply : Reply) (rest : List ℕ)
      → IsReply reply
      → length (encode_reply reply) ≤ fuel
      → incoming s ≡ encode_reply reply ++ rest
      → Answered args reply s rest
          ((send_command api network args >> read_value api network fuel) (on s))
  exchange fuel s args reply rest h few e =
      let (t, r, i, o) = send_command-yes s args in
      let (u, r', i', o') = read_value-Gives api network roomy c fuel t reply rest h few (i ∙ e) in
      (
        u,
        bind_yes api network roomy c (send_command api network args) _ tt (on s) (on t) r ∙ r',
        i',
        o' ∙ o,
      )

  -- Connected to a peer with room for the command, over a connection that does not break, and with
  -- the peer's reply to come: `get` and `hget` send exactly their command, take exactly the reply,
  -- and return true with the value of a bulk string, whatever bytes it holds, and false for a null
  -- or for any other reply, such as an error. A line's bound is the length of the reply.
  pub get_reply :
      (fuel : ℕ) (s : Socket) (key field : List ℕ) (reply : Reply) (rest : List ℕ)
      → IsReply reply
      → length (encode_reply reply) ≤ fuel
      → incoming s ≡ encode_reply reply ++ rest
      → Answered (codes "GET" ∷ key ∷ []) reply s rest (get api network fuel key (on s))
        × Answered
            (codes "HGET" ∷ key ∷ field ∷ [])
            reply
            s
            rest
            (hget api network fuel key field (on s))
  unfolding get hget
  get_reply fuel s key field reply rest h few e = (
    exchange fuel s (codes "GET" ∷ key ∷ []) reply rest h few e,
    exchange fuel s (codes "HGET" ∷ key ∷ field ∷ []) reply rest h few e,
  )
