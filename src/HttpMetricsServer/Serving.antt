-- ===== src/HttpMetricsServer/Serving.antt =====
-- The clients of the metrics server's loop.
use multi_player_game.Common.{
  ℕ, ◌+◌, ◌≡◌, refl, inl, inr, List, [], ◌∷◌, none, some, arith, length, if◌then◌else◌, Bool-cases,
  Option-cases,
}
use multi_player_game.Socket.{SocketApi}
use multi_player_game.Network.{NetworkApi, HasDescriptors}
use multi_player_game.HttpMetricsServer.{respond, handle_http_client, Visit, listen_loop}

module _ (api : SocketApi) (network : NetworkApi api) (count : HasDescriptors network) where
  open api use {Socket}
  open network use {Net}

  -- The clients that are accepted before the server stops.
  pub visitors : List (Visit api network) → List (Visit api network)
  visitors [] = []
  visitors (v ∷ vs) =
      let rest = visitors vs in
      if v.running
      then elim v.client [ some _ ↦ v ∷ rest | none ↦ if v.still_running then rest else [] ]
      else []

  handle_http_client-closes :
      (text : List ℕ) (s : Socket) (n : Net)
      → let (s', n') = handle_http_client api network text s n in
        (count.opened n' ≡ count.opened n) × (count.closed n' ≡ count.closed n + 1)
  unfolding handle_http_client
  handle_http_client-closes text s n = elim (Option-cases (api.recv s 2047).0) [
    | inl e ↦ rw (e, handle_http_client) (count.one-close (api.recv s 2047).1 n)
    | inr (req, e) ↦
        rw (e, handle_http_client)
          (count.one-close (api.send (api.recv s 2047).1 (respond req text)).1 n)
  ]

  -- Every client that is accepted is closed once, whatever it sends, and nothing else is.
  pub listen_loop-closes :
      (vs : List (Visit api network)) (n : Net)
      → let (clients, n') = listen_loop api network vs n in
        (length clients ≡ length (visitors vs))
        × (count.opened n' ≡ count.opened n)
        × (count.closed n' ≡ count.closed n + length (visitors vs))
  unfolding listen_loop visitors
  listen_loop-closes [] n = (refl, refl, omega arith)
  listen_loop-closes (v ∷ vs) n = elim (Bool-cases v.running) [
    | inl on ↦ elim (Option-cases v.client) [
      | inl e ↦ elim (Bool-cases v.still_running) [
        | inl still ↦ rw (on, e, still) (listen_loop-closes vs n)
        | inr ended ↦ rw (on, e, ended) (refl, refl, omega arith)
      ]
      | inr (s, e) ↦
          let (_, n') = handle_http_client api network v.metrics_text s n in
          let (same, one) = handle_http_client-closes v.metrics_text s n in
          let (size, opened, closed) = listen_loop-closes vs n' in
          rw (on, e) (omega (arith, size), omega (arith, opened, same), omega (arith, closed, one))
    ]
    | inr off ↦ rw off (refl, refl, omega arith)
  ]
