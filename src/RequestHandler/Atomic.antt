-- ===== src/RequestHandler/Atomic.antt =====
-- What a handler may do to the counts of requests and to the game: reply and change it by calls of
-- its methods, or fail and leave it as it was.
pub mod Rules
use multi_player_game.Common.{
  ℕ, ◌≡◌, refl, sym, ap, ◌∙◌, inl, inr, String, Bool, true, false, List, [], ◌∷◌, none, some,
  Option-cases, Bool-cases, Method, Result, ok, err, succeeded,
}
use multi_player_game.Common.Int.{ℤ}
use multi_player_game.Json.{JsonApi}
use multi_player_game.Backends.{
  Count, cache_hit, cache_miss, database_operation, count_one, count_all, CacheApi, DatabaseApi,
}
use multi_player_game.Metrics.{Metrics, record_database_operation}
use multi_player_game.GameState.{GameState, Call, records, record_event, step, run}
use multi_player_game.RequestHandler.Monad.{
  Reply, reply, refuse, throws, Handler, pure, lift, gets, refuse_if, ◌>>=◌, ◌>>◌,
}
use multi_player_game.RequestHandler.World.{Clock, World}
use multi_player_game.RequestHandler.Actions.{
  on_game, log_event, publish_active_players, with_cache, with_database,
}
use multi_player_game.RequestHandler.Dispatch.{is_ok}

-- The counts that `handle` itself keeps.
abbrev pub tally : Metrics → ℕ × ℕ × ℕ × ℕ
tally m = (m.requests_total, m.successful_requests, m.failed_requests, m.latency_count)

pub tally-count_all : (cs : List Count) (m : Metrics) → tally (count_all cs m) ≡ tally m
unfolding count_all count_one record_database_operation
tally-count_all [] m = refl
tally-count_all (cache_hit ∷ cs) m = tally-count_all cs _
tally-count_all (cache_miss ∷ cs) m = tally-count_all cs _
tally-count_all (database_operation t b ∷ cs) m = tally-count_all cs _

-- The game comes about by calls of the methods of GameState.
abbrev pub Reaches : GameState → GameState → Type 0
Reaches g g' = (cs : List Call) × (run cs g ≡ g')

pub Reaches-refl : (g : GameState) → Reaches g g
unfolding run
Reaches-refl g = ([], refl)

Reaches-step : (c : Call) (g g' : GameState) → Reaches (step c g) g' → Reaches g g'
unfolding run
Reaches-step c g g' (cs, e) = (c ∷ cs, e)

module _ (json : JsonApi) (caches : CacheApi json.Json) (databases : DatabaseApi) where
  open json use {Json}
  open caches use {Cache}
  open databases use {Database}

  abbrev Shared : Type 0
  Shared = World Cache Database

  -- A reply has the status "ok"; else the game is as before. The counts are as before.
  abbrev pub Sound : Shared → Reply Json × Shared → Type 0
  Sound w (reply j, w') =
      (is_ok json caches databases j ≡ true)
      × (tally w'.metrics ≡ tally w.metrics)
      × Reaches w.game w'.game
  Sound w (refuse _, w') = (tally w'.metrics ≡ tally w.metrics) × (w'.game ≡ w.game)
  Sound w (throws, w') = (tally w'.metrics ≡ tally w.metrics) × (w'.game ≡ w.game)

  -- The same of a handler that replies.
  abbrev Done : Shared → Reply Json × Shared → Type 0
  Done w (reply j, w') = Sound w (reply j, w')
  Done w (refuse _, w') = ⊥
  Done w (throws, w') = ⊥

  pub record Acts (k : Handler Shared Json) : Type 0 where
    pub done : (w : Shared) → Done w (k w)

  pub record IsAtomic (k : Handler Shared Json) : Type 0 where
    pub sound : (w : Shared) → Sound w (k w)

  -- What was done to an earlier state, if a step keeps the counts and calls a method.
  Done-back :
      (w v : Shared) (r : Reply Json × Shared)
      → tally v.metrics ≡ tally w.metrics
      → ((g : GameState) → Reaches v.game g → Reaches w.game g)
      → Done v r
      → Done w r
  Done-back w v (reply j, w') t back (o, t', go) = (o, t' ∙ t, back _ go)
  Done-back w v (refuse e, w') t back d = absurd d
  Done-back w v (throws, w') t back d = absurd d

  Done-Sound :
      (w v : Shared) (r : Reply Json × Shared)
      → tally v.metrics ≡ tally w.metrics
      → ((g : GameState) → Reaches v.game g → Reaches w.game g)
      → Done v r
      → Sound w r
  Done-Sound w v (reply j, w') t back (o, t', go) = (o, t' ∙ t, back _ go)
  Done-Sound w v (refuse e, w') t back d = absurd d
  Done-Sound w v (throws, w') t back d = absurd d

  Sound-back :
      (w v : Shared) (r : Reply Json × Shared)
      → tally v.metrics ≡ tally w.metrics
      → v.game ≡ w.game
      → Sound v r
      → Sound w r
  Sound-back w v (reply j, w') t e (o, t', (cs, go)) = (o, t' ∙ t, (cs, ap (run cs) (sym e) ∙ go))
  Sound-back w v (refuse x, w') t e (t', go) = (t' ∙ t, go ∙ e)
  Sound-back w v (throws, w') t e (t', go) = (t' ∙ t, go ∙ e)

  -- A step that leaves the game and the counts as they are.
  pub record Peeks (m : Handler Shared (Unit {0})) : Type 0 where
    pub same_tally : (w : Shared) → tally (m w).1.metrics ≡ tally w.metrics
    pub same_game : (w : Shared) → (m w).1.game ≡ w.game

  abbrev published : Shared → Shared
  published w = (publish_active_players w).1
