-- ===== src/CacheManager/Wire.antt =====
-- The cache over a connection to Redis: CacheManager.cpp's calls of RedisConnection. A line of a
-- reply is given a bound on its rounds.
use multi_player_game.Common.{
  arith, length-append, ℕ, ◌≤◌, ◌≡◌, refl, ap, ◌∙◌, Bool, true, false, List, [], ◌∷◌, ◌++◌, Option,
  none, some, length,
}
use multi_player_game.Common.Int.{ℤ, IsInt}
use multi_player_game.Common.Decimal.{decimal_int, length-decimal_int}
use multi_player_game.Common.Text.{codes}
use multi_player_game.Json.{JsonApi}
use multi_player_game.Socket.{SocketApi}
use multi_player_game.Network.{NetworkApi, IsRoomy}
use multi_player_game.Backends.{Count, cache_hit, cache_miss}
use multi_player_game.RedisClient.{
  RedisConnection, Ending, yes_with, no_value, throwing, no_fuel, encode_command,
}
use multi_player_game.RedisClient.Commands
use multi_player_game.RedisClient.Reading.{
  Reply, bulk, missing, other, encode_reply, IsReply, meaning,
}
use multi_player_game.RedisClient.Replies.{get_reply}
use multi_player_game.CacheManager.{
  Fetched, found, absent, broken, RedisApi, CacheManager, session_key, position_key, position_text,
  on_pool, read_session, get_player_session, get_player_position,
}
use multi_player_game.CacheManager.Positions.{read_position-text}

-- What a call returns, as the cache sees it.
unfoldable pub returns_true : {A : Type 0} → Ending A → Bool
returns_true (yes_with _) = true
returns_true no_value = false
returns_true throwing = false
returns_true no_fuel = false

unfoldable pub fetched : Ending (List ℕ) → Fetched
fetched (yes_with value) = found value
fetched no_value = absent
fetched throwing = broken
fetched no_fuel = absent

position_text-IsReply : (x y : ℤ) → IsInt x → IsInt y → IsReply (bulk (position_text x y))
unfolding position_text
position_text-IsReply x y hx hy = omega (
  arith,
  length-append (decimal_int x) (b',' ∷ decimal_int y),
  length-decimal_int x hx,
  length-decimal_int y hy,
)

module _ (api : SocketApi) (network : NetworkApi api) where
  open api use {Socket, incoming, outgoing}

  -- The calls, all on one connection of the pool.
  abbrev pub redis_api : ℕ → RedisApi
  redis_api fuel = record {
    Redis = RedisConnection Socket network.Net;
    ping = λ c. let (r, c') = Commands.ping api network fuel c in (returns_true r, c');
    set = λ key value ttl c.
        let (r, c') = Commands.set api network fuel (codes key) value ttl c in (returns_true r, c');
    get = λ key c. let (r, c') = Commands.get api network fuel (codes key) c in (fetched r, c');
    del =
        λ key c. let (r, c') = Commands.del api network fuel (codes key) c in (returns_true r, c');
  }

  module _ (json : JsonApi) (roomy : IsRoomy network) (c : RedisConnection Socket network.Net) where
    open json use {Json}

    abbrev cache_on : Socket → CacheManager (RedisConnection Socket network.Net)
    cache_on s = record { enabled = true; pool = some (record c { socket_fd = some s }) }

    -- What a reply of Redis says of a session.
    unfoldable pub session_of : Reply → Option Json × List Count × Bool
    session_of (bulk value) = elim (json.parse value) [
      | some session ↦ (some session, cache_hit ∷ [], false)
      | none ↦ (none, cache_miss ∷ [], false)
    ]
    session_of missing = (none, cache_miss ∷ [], false)
    session_of (other b line) = (none, cache_miss ∷ [], false)

    -- One GET goes out, the reply is taken, and what comes after it is left.
    abbrev pub InStep :
        {A : Type 0}
        → A
        → List ℕ
        → Socket
        → List ℕ
        → A × CacheManager (RedisConnection Socket network.Net)
        → Type 0
    InStep a key s rest result =
        (s' : Socket) × (result ≡ (a, cache_on s'))
        × (incoming s' ≡ rest)
        × (outgoing s' ≡ outgoing s ++ encode_command (codes "GET" ∷ key ∷ []))

    session-of_reply :
        (reply : Reply)
        → read_session json (redis_api 0) (fetched (meaning reply)) ≡ session_of reply
    unfolding read_session fetched session_of
    session-of_reply (bulk value) = refl
    session-of_reply missing = refl
    session-of_reply (other b line) = refl

    session_over_wire :
        (fuel : ℕ) (s : Socket) (player_id : ℤ) (reply : Reply) (rest : List ℕ)
        → IsReply reply
        → length (encode_reply reply) ≤ fuel
        → incoming s ≡ encode_reply reply ++ rest
        → InStep
            (session_of reply)
            (codes (session_key player_id))
            s
            rest
            (get_player_session json (redis_api fuel) player_id (cache_on s))
    unfolding get_player_session on_pool
    session_over_wire fuel s i reply rest h few e =
        let key = codes (session_key i) in
        let ((s', r, left, sent), _) =
          get_reply api network roomy c fuel s key key reply rest h few e in
        (s', rw r (ap (λ x. (x, cache_on s')) (session-of_reply reply)), left, sent)

    position_over_wire :
        (fuel : ℕ) (s : Socket) (player_id x y : ℤ) (rest : List ℕ)
        → IsInt x
        → IsInt y
        → IsReply (bulk (position_text x y))
        → length (encode_reply (bulk (position_text x y))) ≤ fuel
        → incoming s ≡ encode_reply (bulk (position_text x y)) ++ rest
        → InStep
            (some (x, y), cache_hit ∷ [], false)
            (codes (position_key player_id))
            s
            rest
            (get_player_position json (redis_api fuel) player_id (cache_on s))
    unfolding get_player_position on_pool fetched
    position_over_wire fuel s i x y rest hx hy h few e =
        let key = codes (position_key i) in
        let ((s', r, left, sent), _) =
          get_reply api network roomy c fuel s key key (bulk (position_text x y)) rest h few e in
        (s', rw r (ap (λ l. (l, cache_on s')) (read_position-text x y hx hy)), left, sent)

    -- With the cache enabled, on a connection to Redis that does not break and has room for the
    -- commands, where the replies to two GET are to come: a reply of any kind, then the text of a
    -- position of two `int`s. getPlayerSession sends GET with the session's key: a value that
    -- parses is the session and counts a hit, and any other reply counts a miss; it never throws.
    -- getPlayerPosition after it sends GET with the position's key, returns the position and counts
    -- a hit. The two replies are taken, and no more. A line's bound is the length of a reply.
    pub lookups_over_wire :
        (fuel : ℕ) (s : Socket) (player_id x y : ℤ) (reply : Reply) (rest : List ℕ)
        → IsReply reply
        → length (encode_reply reply) ≤ fuel
        → IsInt x
        → IsInt y
        → length (encode_reply (bulk (position_text x y))) ≤ fuel
        → incoming s ≡ encode_reply reply ++ (encode_reply (bulk (position_text x y)) ++ rest)
        → let (session, m) = get_player_session json (redis_api fuel) player_id (cache_on s) in
          let (position, m') = get_player_position json (redis_api fuel) player_id m in
          (session ≡ session_of reply)
          × (position ≡ (some (x, y), cache_hit ∷ [], false))
          × ((t : Socket) × (m' ≡ cache_on t)
              × (incoming t ≡ rest)
              × (outgoing t
                  ≡ (outgoing s
                      ++ encode_command (codes "GET" ∷ codes (session_key player_id) ∷ []))
                    ++ encode_command (codes "GET" ∷ codes (position_key player_id) ∷ [])))
    lookups_over_wire fuel s i x y reply rest h few hx hy few' e =
        let place = encode_reply (bulk (position_text x y)) in
        let (u, r, left, sent) = session_over_wire fuel s i reply (place ++ rest) h few e in
        let (t, r', left', sent') =
          position_over_wire fuel u i x y rest hx hy (position_text-IsReply x y hx hy) few' left in
        (
          ap (λ p. p.0) r,
          rw r (ap (λ p. p.0) r'),
          (
            t,
            rw r (ap (λ p. p.1) r'),
            left',
            sent' ∙ ap (λ o. o ++ encode_command (codes "GET" ∷ codes (position_key i) ∷ [])) sent,
          ),
        )
