-- ===== src/DatabaseManager/Accounts.antt =====
-- What a method counts in the metrics registry, and what it returns.
use multi_player_game.Common.{
  ℕ, ◌≡◌, refl, sym, ap, ◌∙◌, String, Bool, true, false, List, [], ◌∷◌, ◌++◌, append-nil, Option,
  none, some, if◌then◌else◌,
}
use multi_player_game.Common.Int.{ℤ}
use multi_player_game.Common.Actions.{Action, pure, gets, ◌>>=◌, ◌>>◌}
use multi_player_game.Backends.{Count, database_operation}
use multi_player_game.MySql.{MySqlApi}
use multi_player_game.DatabaseManager.{
  Link, Db, call, effect, count, get_conn, with_pointer, close_conn, is_alive, link, open_new,
  open_connection, set_conn, set_connected,
}
use multi_player_game.DatabaseManager.Records.{PlayerDbRecord, TestRunDbRecord}
use multi_player_game.DatabaseManager.Statements.{
  upsert_player, get_player, record_event, save_match, save_test_run,
}

-- A write that took the time t: not begun, given up, or done with the outcome that it returns.
pub data Wrote (t : ℕ) : Bool → List Count → Type 0 where
  unsent : Wrote t false []
  refused : Wrote t false (database_operation 0 false ∷ [])
  executed : (ok : Bool) → Wrote t ok (database_operation t ok ∷ [])

-- A read: a player is returned only where a success is counted.
pub data Read (t : ℕ) : Option PlayerDbRecord → List Count → Type 0 where
  unasked : Read t none []
  unanswered : Read t none (database_operation 0 false ∷ [])
  fetched : (p : Option PlayerDbRecord) → Read t p (database_operation t true ∷ [])

module _ {Double : Type 0} (mysql : MySqlApi Double) where
  open mysql use {Handle, Client}

  -- m counts something that goes with its answer; and m counts nothing.
  pub record Logs {A : Type 0} (Q : A → List Count → Type 0) (m : Db mysql A) : Type 0 where
    pub at :
        (s : Link Handle Client)
        → (cs : List Count) × ((m s).1.counted ≡ s.counted ++ cs) × Q (m s).0 cs

  pub record IsQuiet {A : Type 0} (m : Db mysql A) : Type 0 where
    pub same : (s : Link Handle Client) → (m s).1.counted ≡ s.counted

module _ {Double : Type 0} {mysql : MySqlApi Double} where
  open mysql use {Handle, Client}

  call-IsQuiet : {X : Type 0} (f : Action Client X) → IsQuiet mysql (call mysql f)
  unfolding call
  call-IsQuiet f = record { same = λ s. refl }

  effect-IsQuiet : (f : Client → Client) → IsQuiet mysql (effect mysql f)
  unfolding effect
  effect-IsQuiet f = record { same = λ s. refl }

  gets-IsQuiet : {A : Type 0} (f : Link Handle Client → A) → IsQuiet mysql (gets f)
  unfolding gets
  gets-IsQuiet f = record { same = λ s. refl }

  get_conn-IsQuiet : IsQuiet mysql (get_conn mysql)
  unfolding get_conn
  get_conn-IsQuiet = record { same = λ s. refl }

  set_conn-IsQuiet : (h : Option Handle) → IsQuiet mysql (set_conn mysql h)
  unfolding set_conn
  set_conn-IsQuiet h = record { same = λ s. refl }

  set_connected-IsQuiet : (b : Bool) → IsQuiet mysql (set_connected mysql b)
  unfolding set_connected
  set_connected-IsQuiet b = record { same = λ s. refl }

  module _ {A : Type 0} where
    pure-IsQuiet : (a : A) → IsQuiet mysql (pure a)
    unfolding pure
    pure-IsQuiet a = record { same = λ s. refl }

    if-IsQuiet :
        (b : Bool) (m k : Db mysql A)
        → IsQuiet mysql m
        → IsQuiet mysql k
        → IsQuiet mysql (if b then m else k)
    if-IsQuiet true m k hm hk = hm
    if-IsQuiet false m k hm hk = hk

    pointer-IsQuiet :
        {P : Type 0} (p : Option P) (m : Db mysql A) (k : P → Db mysql A)
        → IsQuiet mysql m
        → ((x : P) → IsQuiet mysql (k x))
        → IsQuiet mysql (with_pointer p m k)
    unfolding with_pointer
    pointer-IsQuiet none m k hm hk = hm
    pointer-IsQuiet (some x) m k hm hk = hk x

  bind-IsQuiet :
      {A B : Type 0} (m : Db mysql A) (k : A → Db mysql B)
      → IsQuiet mysql m
      → ((a : A) → IsQuiet mysql (k a))
      → IsQuiet mysql (m >>= k)
  unfolding ◌>>=◌
  bind-IsQuiet m k hm hk = record { same = λ s. (hk (m s).0).same (m s).1 ∙ hm.same s }

  ruleset quiet_rules = (
    call-IsQuiet, effect-IsQuiet, gets-IsQuiet, get_conn-IsQuiet, set_conn-IsQuiet,
    set_connected-IsQuiet, pure-IsQuiet, if-IsQuiet, pointer-IsQuiet, bind-IsQuiet,
  )

  link-IsQuiet : (h : Handle) → IsQuiet mysql (link mysql h)
  unfolding link
  link-IsQuiet h = search quiet_rules depth 20

  open_new-IsQuiet : IsQuiet mysql (open_new mysql)
  unfolding open_new close_conn
  open_new-IsQuiet = search (quiet_rules, link-IsQuiet) depth 20

  open-IsQuiet : IsQuiet mysql (open_connection mysql)
  unfolding open_connection is_alive
  open-IsQuiet = search (quiet_rules, open_new-IsQuiet) depth 20

  module _ {A : Type 0} {Q : A → List Count → Type 0} where
    pure-Logs : (a : A) → Q a [] → Logs mysql Q (pure a)
    unfolding pure
    pure-Logs a q = record { at = λ s. ([], sym (append-nil s.counted), q) }

    count-Logs : (c : Count) (a : A) → Q a (c ∷ []) → Logs mysql Q (count mysql c >> pure a)
    unfolding pure ◌>>=◌ count
    count-Logs c a q = record { at = λ s. (c ∷ [], refl, q) }

    if-Logs :
        (b : Bool) (m k : Db mysql A)
        → Logs mysql Q m
        → Logs mysql Q k
        → Logs mysql Q (if b then m else k)
    if-Logs true m k hm hk = hm
    if-Logs false m k hm hk = hk

    pointer-Logs :
        {P : Type 0} (p : Option P) (m : Db mysql A) (k : P → Db mysql A)
        → Logs mysql Q m
        → ((x : P) → Logs mysql Q (k x))
        → Logs mysql Q (with_pointer p m k)
    unfolding with_pointer
    pointer-Logs none m k hm hk = hm
    pointer-Logs (some x) m k hm hk = hk x

    bind-Logs :
        {X : Type 0} (m : Db mysql X) (k : X → Db mysql A)
        → IsQuiet mysql m
        → ((x : X) → Logs mysql Q (k x))
        → Logs mysql Q (m >>= k)
    unfolding ◌>>=◌
    bind-Logs m k hm hk = record {
      at = λ s.
          let (cs, e, q) = (hk (m s).0).at (m s).1 in (cs, e ∙ ap (λ x. x ++ cs) (hm.same s), q);
    }

  ruleset log_rules = (
    open-IsQuiet, call-IsQuiet, effect-IsQuiet, get_conn-IsQuiet, pure-Logs, count-Logs, if-Logs,
    pointer-Logs, bind-Logs, unsent, refused, executed, unasked, unanswered, fetched,
  )

-- Whatever the library answers: upsertPlayer, recordEvent and saveMatch count at most one operation,
-- a success exactly if one is counted and they return true; a getPlayer that returns a player has
-- counted one success; saveTestRun counts nothing.
pub statements_account :
    {Double : Type 0} (mysql : MySqlApi Double) (t : ℕ) (player_id : ℤ)
    → ((username : String) (score kills : ℤ)
        → Logs mysql (Wrote t) (upsert_player mysql t player_id username score kills))
      × ((match_id event_type event_data : String)
          → Logs mysql (Wrote t) (record_event mysql t match_id player_id event_type event_data))
      × ((match_id status : String) (players kills : ℤ)
          → Logs mysql (Wrote t) (save_match mysql t match_id status players kills player_id))
      × Logs mysql (Read t) (get_player mysql t player_id)
      × ((run : TestRunDbRecord Double) → IsQuiet mysql (save_test_run mysql run))
unfolding upsert_player record_event save_match get_player save_test_run
statements_account mysql t i = (
  (λ u s k. search log_rules depth 40),
  (λ m e d. search log_rules depth 40),
  (λ m s p k. search log_rules depth 40),
  search log_rules depth 40,
  (λ run. search (quiet_rules, open-IsQuiet) depth 40),
)
