-- ===== src/DatabaseManager/Leaks/Opening.antt =====
-- `open` and `close` keep the balance: the handle that is open is the one `conn` points to.
use multi_player_game.Common.{
  ℕ, ◌+◌, ◌≡◌, refl, ◌∙◌, inl, inr, Bool, true, false, Option, none, some, Bool-cases,
  if◌then◌else◌, arith, ◌&&◌,
}
use multi_player_game.Common.Actions.{pure, gets, ◌>>=◌, ◌>>◌}
use multi_player_game.MySql.{MySqlApi, HasLedger, opened_handle, connect_timeout, reconnect}
use multi_player_game.DatabaseManager.{
  Link, Db, is_some, call, effect, set_conn, get_conn, set_connected, with_pointer, close_conn,
  is_alive, link, open_new, open_connection, close,
}
use multi_player_game.DatabaseManager.Leaks.{Balanced, Closes}

module _ {Double : Type 0} (mysql : MySqlApi Double) (kept : HasLedger mysql) where
  open mysql use {Handle, Client}

  -- The balance of a manager with no handle, whatever `connected` says.
  pub record Unlinked (r : ℕ) (s : Link Handle Client) : Type 0 where
    pub no_handle : s.manager.conn ≡ none
    pub handles : (kept.ledger s.client).handles_opened ≡ (kept.ledger s.client).handles_closed
    pub statements_open :
        (kept.ledger s.client).statements_opened ≡ (kept.ledger s.client).statements_closed
    pub results_open :
        (kept.ledger s.client).results_stored ≡ (kept.ledger s.client).results_freed + r

  close_conn-Unlinked :
      (r : ℕ) (s : Link Handle Client) (h : Option Handle)
      → s.manager.conn ≡ h
      → Balanced mysql kept 0 r s
      → Unlinked r (close_conn mysql s).1
  unfolding close_conn ◌>>=◌ pure effect get_conn set_conn with_pointer
  close_conn-Unlinked r s none e b =
      rw (e, with_pointer)
        (record {
          no_handle = refl;
          handles = omega (arith, rw e at b.handles);
          statements_open = omega (arith, b.statements_open);
          results_open = b.results_open;
        })
  close_conn-Unlinked r s (some h) e b =
      let l = kept.close_lem h s.client in
      rw (e, with_pointer)
        (record {
          no_handle = refl;
          handles = rw l (omega (arith, rw e at b.handles));
          statements_open = rw l (omega (arith, b.statements_open));
          results_open = rw l b.results_open;
        })

  -- A connection that was made, and one that failed.
  linked-Balanced :
      (r : ℕ) (s : Link Handle Client) (h : Handle) (c : Client) (linked : Bool)
      → kept.ledger c ≡ opened_handle (some h) (kept.ledger s.client)
      → Unlinked r s
      → Balanced mysql kept 0 r
          ((if linked then (set_connected mysql true >> pure true) else (do
            effect mysql (mysql.close (some h))
            set_conn mysql none
            set_connected mysql false
            pure false))
            (record {
              manager = record s.manager { conn = some h };
              client = c;
              counted = s.counted;
            })).1
  unfolding ◌>>=◌ pure effect set_conn set_connected
  linked-Balanced r s h c true e u = record {
    handles = rw e (omega (arith, u.handles));
    statements_open = rw e (omega (arith, u.statements_open));
    results_open = rw e u.results_open;
    linked = refl;
  }
  linked-Balanced r s h c false e u =
      let l = kept.close_lem h c in
      record {
        handles = rw (l, e) (omega (arith, u.handles));
        statements_open = rw (l, e) (omega (arith, u.statements_open));
        results_open = rw (l, e) u.results_open;
        linked = refl;
      }

  init-Balanced :
      (r : ℕ) (s : Link Handle Client) (x : Option Handle) (c : Client)
      → kept.ledger c ≡ opened_handle x (kept.ledger s.client)
      → Unlinked r s
      → Balanced mysql kept 0 r
          (with_pointer x
            (set_connected mysql false >> pure false)
            (link mysql)
            (record { manager = record s.manager { conn = x }; client = c; counted = s.counted })).1
  unfolding ◌>>=◌ pure gets call effect set_connected with_pointer link
  init-Balanced r s none c e u = record {
    handles = rw e (omega (arith, u.handles));
    statements_open = rw e (omega (arith, u.statements_open));
    results_open = rw e u.results_open;
    linked = refl;
  }
  init-Balanced r s (some h) c e u =
      let m = s.manager in
      let c1 = mysql.options (some h) (connect_timeout 3) c in
      let c2 = mysql.options (some h) (reconnect true) c1 in
      let l1 = kept.options_lem (some h) (connect_timeout 3) c in
      let l2 = kept.options_lem (some h) (reconnect true) c1 in
      let l3 = kept.real_connect_lem (some h) m.host m.user m.password m.database m.port c2 in
      linked-Balanced r s h _ _ (l3 ∙ l2 ∙ l1 ∙ e) u

  open_new-Balanced :
      (r : ℕ) (s : Link Handle Client)
      → Balanced mysql kept 0 r s
      → Balanced mysql kept 0 r (open_new mysql s).1
  unfolding ◌>>=◌ call set_conn open_new
  open_new-Balanced r s b =
      let (_, s') = close_conn mysql s in
      init-Balanced r s' _ _ (kept.init_lem s'.client)
        (close_conn-Unlinked r s s.manager.conn refl b)

  Balanced-ping :
      (r : ℕ) (s : Link Handle Client)
      → Balanced mysql kept 0 r s
      → Balanced mysql kept 0 r (is_alive mysql s).1
  unfolding ◌>>=◌ pure gets call is_alive
  Balanced-ping r s b = elim (Bool-cases (s.manager.connected && is_some s.manager.conn)) [
    | inl on ↦
        let l = kept.ping_lem s.manager.conn s.client in
        rw on (record {
          handles = rw l b.handles;
          statements_open = rw l b.statements_open;
          results_open = rw l b.results_open;
          linked = b.linked;
        })
    | inr off ↦ rw off b
  ]

  open-Balanced :
      (r : ℕ) (s : Link Handle Client) (alive : Bool)
      → Balanced mysql kept 0 r s
      → Balanced mysql kept 0 r ((if alive then pure true else open_new mysql) s).1
  unfolding pure
  open-Balanced r s true b = b
  open-Balanced r s false b = open_new-Balanced r s b

  -- Opening keeps the balance, and what follows is to close.
  pub open-Closes :
      {A : Type 0} {lost : A → ℕ} (k : Bool → Db mysql A)
      → ((x : Bool) → Closes mysql kept lost 0 0 (k x))
      → Closes mysql kept lost 0 0 (open_connection mysql >>= k)
  unfolding ◌>>=◌ open_connection
  open-Closes k h = record {
    at = λ p s b.
        let (alive, s') = is_alive mysql s in
        (h (open_connection mysql s).0).at p _
          (open-Balanced (p + 0) s' alive (Balanced-ping (p + 0) s b));
  }

  -- And so does closing, after which no handle is open.
  pub close-Unlinked :
      (r : ℕ) (s : Link Handle Client) → Balanced mysql kept 0 r s → Unlinked r (close mysql s).1
  unfolding ◌>>=◌ set_connected close
  close-Unlinked r s b =
      let u = close_conn-Unlinked r s s.manager.conn refl b in
      record {
        no_handle = u.no_handle;
        handles = u.handles;
        statements_open = u.statements_open;
        results_open = u.results_open;
      }
