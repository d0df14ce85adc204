-- ===== src/RequestHandler/Atomic/Rules.antt =====
-- The rules, one for each kind of step of a handler.
use multi_player_game.Common.{
  ◌≡◌, refl, sym, ◌∙◌, inl, inr, String, Bool, true, false, List, none, some, Option-cases,
  Bool-cases, Method, Result, ok, err, succeeded,
}
use multi_player_game.Common.Int.{ℤ}
use multi_player_game.Json.{JsonApi}
use multi_player_game.Backends.{Count, count_all, CacheApi, DatabaseApi}
use multi_player_game.GameState.{GameState, Call, records, record_event, step}
use multi_player_game.RequestHandler.Monad.{
  Reply, reply, refuse, throws, Handler, pure, lift, gets, refuse_if, ◌>>=◌, ◌>>◌,
}
use multi_player_game.RequestHandler.World.{Clock}
use multi_player_game.RequestHandler.Actions.{
  on_game, log_event, publish_active_players, with_cache, with_database,
}
use multi_player_game.RequestHandler.Dispatch.{is_ok}
use multi_player_game.RequestHandler.Atomic.{
  tally, tally-count_all, Reaches-refl, Reaches-step, Shared, Sound, Done, Acts, IsAtomic,
  Done-back, Done-Sound, Sound-back, Peeks, published,
}

module _ {json : JsonApi} {caches : CacheApi json.Json} {databases : DatabaseApi} where
  open json use {Json}
  open caches use {Cache}
  open databases use {Database}

  pub pure-Acts :
      (j : Json) → is_ok json caches databases j ≡ true → Acts json caches databases (pure j)
  pure-Acts j o = record { done = λ w. (o, refl, Reaches-refl w.game) }

  pub log-Acts :
      (clock : Clock) (i : ℤ) (t d : String) (k : Handler (Shared json caches databases) Json)
      → Acts json caches databases k
      → Acts json caches databases (log_event clock i t d >> k)
  unfolding step
  log-Acts clock i t d k h = record {
    done = λ w.
        let v = record w { game = record_event i t d clock.recorded w.game } in
        Done-back json caches databases w v _ refl
          (Reaches-step (records i t d clock.recorded) w.game) (h.done v);
  }

  pub publish-Acts :
      (k : Handler (Shared json caches databases) Json)
      → Acts json caches databases k
      → Acts json caches databases (publish_active_players >> k)
  publish-Acts k h = record {
    done = λ w.
        Done-back json caches databases w (published json caches databases w) _ refl (λ g r. r)
          (h.done (published json caches databases w));
  }

  cache-Done :
      (f : Cache → Cache) (k : Handler (Shared json caches databases) Json)
      (w : Shared json caches databases)
      → Acts json caches databases k
      → Done json caches databases w ((with_cache json caches databases f >> k) w)
  unfolding with_cache
  cache-Done f k w h = elim (Option-cases w.cache) [
    | inl e ↦ rw e (h.done (record w { cache = none }))
    | inr (c, e) ↦ elim (Bool-cases (caches.is_enabled c)) [
      | inl on ↦
          rw (e, on)
            (Done-back json caches databases w (record w { cache = some (f c) }) _ refl (λ g r. r)
              (h.done _))
      | inr off ↦ rw (e, off) (h.done (record w { cache = some c }))
    ]
  ]

  pub cache-Acts :
      (f : Cache → Cache) (k : Handler (Shared json caches databases) Json)
      → Acts json caches databases k
      → Acts json caches databases (with_cache json caches databases f >> k)
  cache-Acts f k h = record { done = λ w. cache-Done f k w h }

  database-Done :
      (f : Database → List Count × Database) (k : Handler (Shared json caches databases) Json)
      (w : Shared json caches databases)
      → Acts json caches databases k
      → Done json caches databases w ((with_database json caches databases f >> k) w)
  unfolding with_database
  database-Done f k w h = elim (Option-cases w.database) [
    | inl e ↦ rw e (h.done (record w { database = none }))
    | inr (d, e) ↦
        let v = record w { metrics = count_all (f d).0 w.metrics; database = some (f d).1 } in
        rw e (
          Done-back json caches databases w v _ (tally-count_all (f d).0 w.metrics) (λ g r. r)
            (h.done v))
  ]

  pub database-Acts :
      (f : Database → List Count × Database) (k : Handler (Shared json caches databases) Json)
      → Acts json caches databases k
      → Acts json caches databases (with_database json caches databases f >> k)
  database-Acts f k h = record { done = λ w. database-Done f k w h }

  lift-Sound :
      {A : Type 0} (r : Reply A) (f : A → Handler (Shared json caches databases) Json)
      (w : Shared json caches databases)
      → ((a : A) → IsAtomic json caches databases (f a))
      → Sound json caches databases w ((lift r >>= f) w)
  lift-Sound (reply a) f w h = (h a).sound w
  lift-Sound (refuse e) f w h = (refl, refl)
  lift-Sound throws f w h = (refl, refl)

  pub lift-IsAtomic :
      {A : Type 0} (r : Reply A) (f : A → Handler (Shared json caches databases) Json)
      → ((a : A) → IsAtomic json caches databases (f a))
      → IsAtomic json caches databases (lift r >>= f)
  lift-IsAtomic r f h = record { sound = λ w. lift-Sound r f w h }

  refuse_if-Sound :
      (b : Bool) (e : String) (k : Handler (Shared json caches databases) Json)
      (w : Shared json caches databases)
      → IsAtomic json caches databases k
      → Sound json caches databases w ((refuse_if b e >> k) w)
  refuse_if-Sound true e k w h = (refl, refl)
  refuse_if-Sound false e k w h = h.sound w

  pub refuse_if-IsAtomic :
      (b : Bool) (e : String) (k : Handler (Shared json caches databases) Json)
      → IsAtomic json caches databases k
      → IsAtomic json caches databases (refuse_if b e >> k)
  refuse_if-IsAtomic b e k h = record { sound = λ w. refuse_if-Sound b e k w h }

  pub gets-IsAtomic :
      {A : Type 0} (m : Shared json caches databases → A)
      (f : A → Handler (Shared json caches databases) Json)
      → ((a : A) → IsAtomic json caches databases (f a))
      → IsAtomic json caches databases (gets m >>= f)
  gets-IsAtomic m f h = record { sound = λ w. (h (m w)).sound w }

  pub Acts-IsAtomic :
      (k : Handler (Shared json caches databases) Json)
      → Acts json caches databases k
      → IsAtomic json caches databases k
  Acts-IsAtomic k h = record {
    sound = λ w. Done-Sound json caches databases w w (k w) refl (λ g r. r) (h.done w);
  }

  game-Sound :
      {A : Type 0} (c : Call) (r : Result A × GameState)
      (f : A → Handler (Shared json caches databases) Json) (w : Shared json caches databases)
      → r.1 ≡ step c w.game
      → (succeeded r.0 ≡ false → step c w.game ≡ w.game)
      → ((a : A) → Acts json caches databases (f a))
      → Sound json caches databases w ((on_game (λ g. r) >>= f) w)
  game-Sound c (ok a, g) f w e keeps h =
      Done-Sound json caches databases w (record w { game = g }) _ refl
        (λ g' r. Reaches-step c w.game g' (rw (sym e) r)) ((h a).done (record w { game = g }))
  game-Sound c (err x, g) f w e keeps h = (refl, e ∙ keeps refl)

  -- A call of a method that changes nothing where it fails, and after which nothing fails.
  pub on_game-IsAtomic :
      {A : Type 0} (c : Call) (m : Method GameState A)
      (f : A → Handler (Shared json caches databases) Json)
      → ((g : GameState) → (m g).1 ≡ step c g)
      → ((g : GameState) → succeeded (m g).0 ≡ false → step c g ≡ g)
      → ((a : A) → Acts json caches databases (f a))
      → IsAtomic json caches databases (on_game m >>= f)
  on_game-IsAtomic c m f e keeps h = record {
    sound = λ w. game-Sound c (m w.game) f w (e w.game) (keeps w.game) h;
  }

  peek-Sound :
      (r : Reply (Unit {0}) × Shared json caches databases)
      (k : Handler (Shared json caches databases) Json) (w : Shared json caches databases)
      → tally r.1.metrics ≡ tally w.metrics
      → r.1.game ≡ w.game
      → IsAtomic json caches databases k
      → Sound json caches databases w (((λ _. r) >> k) w)
  peek-Sound (reply _, v) k w t e h = Sound-back json caches databases w v (k v) t e (h.sound v)
  peek-Sound (refuse x, v) k w t e h = (t, e)
  peek-Sound (throws, v) k w t e h = (t, e)

  pub peek-IsAtomic :
      (m : Handler (Shared json caches databases) (Unit {0}))
      (k : Handler (Shared json caches databases) Json)
      → Peeks json caches databases m
      → IsAtomic json caches databases k
      → IsAtomic json caches databases (m >> k)
  peek-IsAtomic m k p h = record {
    sound = λ w. peek-Sound (m w) k w (p.same_tally w) (p.same_game w) h;
  }
