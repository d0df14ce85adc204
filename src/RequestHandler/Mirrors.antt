-- ===== src/RequestHandler/Mirrors.antt =====
-- Two servers that differ in their cache and their database only: steps of a handler that agree.
pub mod Handlers
pub mod Unseen
use multi_player_game.Common.{
  ℕ, ◌≡◌, refl, sym, ap, subst, ◌∙◌, inl, inr, String, Bool, true, false, List, Option, none, some,
  Option-cases, Bool-cases, Method, if◌then◌else◌,
}
use multi_player_game.Common.Int.{ℤ}
use multi_player_game.Backends.{Count, CacheApi, DatabaseApi}
use multi_player_game.Json.{JsonApi}
use multi_player_game.GameState
use multi_player_game.GameState.{GameState}
use multi_player_game.RequestHandler.Monad.{
  Reply, reply, refuse, throws, Handler, pure, lift, gets, refuse_if, ◌>>=◌, ◌>>◌, reply_of,
}
use multi_player_game.RequestHandler.World.{Clock, World}
use multi_player_game.RequestHandler.Actions.{
  on_game, log_event, publish_active_players, with_cache, with_database,
}

-- From worlds with the same game, the same reply and the same game.
pub record Alike {C D C' D' : Type 0} {A : Type 0} (m : Handler (World C D) A)
    (m' : Handler (World C' D') A) : Type 0 where
  pub agree :
      (w : World C D) (w' : World C' D')
      → w.game ≡ w'.game
      → ((m w).0 ≡ (m' w').0) × ((m w).1.game ≡ (m' w').1.game)

module _ {C D C' D' : Type 0} where
  follow :
      {A B : Type 0} (r : Reply A) (f : A → Handler (World C D) B)
      (f' : A → Handler (World C' D') B) (w : World C D) (w' : World C' D')
      → w.game ≡ w'.game
      → ((a : A) → Alike (f a) (f' a))
      → (((lift r >>= f) w).0 ≡ ((lift r >>= f') w').0)
        × (((lift r >>= f) w).1.game ≡ ((lift r >>= f') w').1.game)
  follow (reply a) f f' w w' e h = (h a).agree w w' e
  follow (refuse x) f f' w w' e h = (refl, e)
  follow throws f f' w w' e h = (refl, e)

  pub bind-Alike :
      {A B : Type 0} (m : Handler (World C D) A) (m' : Handler (World C' D') A)
      (f : A → Handler (World C D) B) (f' : A → Handler (World C' D') B)
      → Alike m m'
      → ((a : A) → Alike (f a) (f' a))
      → Alike (m >>= f) (m' >>= f')
  bind-Alike m m' f f' p h = record {
    agree = λ w w' e.
        let (same, e') = p.agree w w' e in
        subst
          (λ r.
            ((m >>= f) w).0 ≡ ((lift r >>= f') (m' w').1).0
            × ((m >>= f) w).1.game ≡ ((lift r >>= f') (m' w').1).1.game)
          same (follow (m w).0 f f' (m w).1 (m' w').1 e' h);
  }

  pub pure-Alike :
      {A : Type 0} (a : A) → Alike {C = C} {D = D} {C' = C'} {D' = D'} (pure a) (pure a)
  pure-Alike a = record { agree = λ w w' e. (refl, e) }

  pub lift-Alike :
      {A B : Type 0} (r : Reply A) (f : A → Handler (World C D) B)
      (f' : A → Handler (World C' D') B)
      → ((a : A) → Alike (f a) (f' a))
      → Alike (lift r >>= f) (lift r >>= f')
  lift-Alike r f f' h = bind-Alike (lift r) (lift r) f f' (record { agree = λ w w' e. (refl, e) }) h

  refusal :
      (b : Bool) (message : String)
      → Alike {C = C} {D = D} {C' = C'} {D' = D'} (refuse_if b message) (refuse_if b message)
  refusal true message = record { agree = λ w w' e. (refl, e) }
  refusal false message = record { agree = λ w w' e. (refl, e) }

  pub refuse_if-Alike :
      {B : Type 0} (b : Bool) (message : String) (k : Handler (World C D) B)
      (k' : Handler (World C' D') B)
      → Alike k k'
      → Alike (refuse_if b message >> k) (refuse_if b message >> k')
  refuse_if-Alike b message k k' h =
      bind-Alike (refuse_if b message) (refuse_if b message) (λ _. k) (λ _. k') (refusal b message)
        (λ _. h)

  pub gets-Alike :
      {A B : Type 0} (g : GameState → A) (f : A → Handler (World C D) B)
      (f' : A → Handler (World C' D') B)
      → ((a : A) → Alike (f a) (f' a))
      → Alike (gets (λ w. g w.game) >>= f) (gets (λ w. g w.game) >>= f')
  gets-Alike g f f' h =
      bind-Alike (gets (λ w. g w.game)) (gets (λ w. g w.game)) f f'
        (record { agree = λ w w' e. (ap (λ x. reply (g x)) e, e) }) h

  pub on_game-Alike :
      {A B : Type 0} (m : Method GameState A) (f : A → Handler (World C D) B)
      (f' : A → Handler (World C' D') B)
      → ((a : A) → Alike (f a) (f' a))
      → Alike (on_game m >>= f) (on_game m >>= f')
  on_game-Alike m f f' h =
      bind-Alike (on_game m) (on_game m) f f'
        (record { agree = λ w w' e. (ap (λ g. reply_of (m g).0) e, ap (λ g. (m g).1) e) }) h

  pub on_game_then-Alike :
      {B : Type 0} (m : Method GameState (Unit {0})) (k : Handler (World C D) B)
      (k' : Handler (World C' D') B)
      → Alike k k'
      → Alike (on_game m >> k) (on_game m >> k')
  on_game_then-Alike m k k' h =
      bind-Alike (on_game m) (on_game m) (λ _. k) (λ _. k')
        (record { agree = λ w w' e. (ap (λ g. reply_of (m g).0) e, ap (λ g. (m g).1) e) }) (λ _. h)

  pub log_event-Alike :
      {B : Type 0} (clock : Clock) (i : ℤ) (t d : String) (k : Handler (World C D) B)
      (k' : Handler (World C' D') B)
      → Alike k k'
      → Alike (log_event clock i t d >> k) (log_event clock i t d >> k')
  log_event-Alike clock i t d k k' h =
      bind-Alike (log_event clock i t d) (log_event clock i t d) (λ _. k) (λ _. k')
        (record { agree = λ w w' e. (refl, ap (GameState.record_event i t d clock.recorded) e) })
        (λ _. h)

  pub publish-Alike :
      {B : Type 0} (k : Handler (World C D) B) (k' : Handler (World C' D') B)
      → Alike k k'
      → Alike (publish_active_players >> k) (publish_active_players >> k')
  publish-Alike k k' h =
      bind-Alike (publish_active_players) (publish_active_players) (λ _. k) (λ _. k')
        (record { agree = λ w w' e. (refl, e) }) (λ _. h)

  pub choice-Alike :
      {A : Type 0} (b : Bool) (h k : Handler (World C D) A) (h' k' : Handler (World C' D') A)
      → Alike h h'
      → Alike k k'
      → Alike (λ w. if b then h w else k w) (λ w. if b then h' w else k' w)
  choice-Alike true h k h' k' p q = p
  choice-Alike false h k h' k' p q = q

module _ (json : JsonApi) (caches : CacheApi json.Json) (databases : DatabaseApi) where
  with_cache-same :
      (f : caches.Cache → caches.Cache) (w : World caches.Cache databases.Database)
      → ((with_cache json caches databases f w).0 ≡ reply tt)
        × ((with_cache json caches databases f w).1.game ≡ w.game)
  unfolding with_cache
  with_cache-same f w = elim (Option-cases w.cache) [
    | inl e ↦ rw e (refl, refl)
    | inr (c, e) ↦ elim (Bool-cases (caches.is_enabled c)) [
      | inl on ↦ rw (e, on) (refl, refl)
      | inr off ↦ rw (e, off) (refl, refl)
    ]
  ]

  with_database-same :
      (f : databases.Database → List Count × databases.Database)
      (w : World caches.Cache databases.Database)
      → ((with_database json caches databases f w).0 ≡ reply tt)
        × ((with_database json caches databases f w).1.game ≡ w.game)
  unfolding with_database
  with_database-same f w = elim (Option-cases w.database) [
    | inl e ↦ rw e (refl, refl)
    | inr (d, e) ↦ rw e (refl, refl)
  ]

module _ (json : JsonApi) (caches caches' : CacheApi json.Json)
    (databases databases' : DatabaseApi) where
  pub with_cache-Alike :
      {B : Type 0} (f : caches.Cache → caches.Cache) (f' : caches'.Cache → caches'.Cache)
      (k : Handler (World caches.Cache databases.Database) B)
      (k' : Handler (World caches'.Cache databases'.Database) B)
      → Alike k k'
      → Alike
          (with_cache json caches databases f >> k)
          (with_cache json caches' databases' f' >> k')
  with_cache-Alike f f' k k' h =
      bind-Alike (with_cache json caches databases f) (with_cache json caches' databases' f')
        (λ _. k) (λ _. k')
        (record {
          agree = λ w w' e.
              let (r, g) = with_cache-same json caches databases f w in
              let (r', g') = with_cache-same json caches' databases' f' w' in
              (r ∙ sym r', g ∙ e ∙ sym g');
        })
        (λ _. h)

  pub with_database-Alike :
      {B : Type 0} (f : databases.Database → List Count × databases.Database)
      (f' : databases'.Database → List Count × databases'.Database)
      (k : Handler (World caches.Cache databases.Database) B)
      (k' : Handler (World caches'.Cache databases'.Database) B)
      → Alike k k'
      → Alike
          (with_database json caches databases f >> k)
          (with_database json caches' databases' f' >> k')
  with_database-Alike f f' k k' h =
      bind-Alike (with_database json caches databases f) (with_database json caches' databases' f')
        (λ _. k) (λ _. k')
        (record {
          agree = λ w w' e.
              let (r, g) = with_database-same json caches databases f w in
              let (r', g') = with_database-same json caches' databases' f' w' in
              (r ∙ sym r', g ∙ e ∙ sym g');
        })
        (λ _. h)
