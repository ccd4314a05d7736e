-- ===== src/Server/TunnelServer/CleanUp.antt =====
-- The `finally` block of `_handle_client` in server/tunnel_server.py: it closes the relays and cancels
-- the tasks of the streams in its table, one by one. It awaits each cancelled task, and the tasks of
-- the streams that are still to come run meanwhile.
use vpnself.Prelude.{ℕ, ◌≡◌, ◌⊎◌, true, false, none, List, [], ◌∷◌, ◌++◌, nat_eq, ◌==◌, any}
use vpnself.Server.Relay.{ForwardRelay}
use vpnself.Server.ForwardProxy.{get_relay}
use vpnself.Server.TunnelServer.{
  Connection, Effect, close_target, connected, flushed, not_connected, on_stream_done,
  cancel_stream, clear,
}

abbrev pub IsListed : ℕ → List ℕ → Type 0
IsListed j sids = any (λ i. i == j) sids ≡ true

-- A step of another task while the loop waits, with the streams that are still to come: a CONNECT
-- succeeds for one of them, which has no relay yet, or its flush ends, and any stream may fail to
-- connect or end. A stream has one task, that of the table: two CONNECTs for the same stream would leave
-- a task that the loop does not reach.
pub data Meanwhile (client_id : ℕ) (sids : List ℕ) (c : Connection)
    : List Effect × Connection → Type 0 where
  connects_late :
      (i : ℕ) (r : ForwardRelay)
      → any (λ j. j == i) sids ≡ true
      → get_relay client_id i c.proxy ≡ none
      → Meanwhile client_id sids c ([], connected client_id i r c)
  flushes :
      (i : ℕ) → any (λ j. j == i) sids ≡ true → Meanwhile client_id sids c (flushed client_id i c)
  fails : (i : ℕ) → Meanwhile client_id sids c ([], not_connected client_id i c)
  is_done : (i : ℕ) → Meanwhile client_id sids c (on_stream_done client_id i c)

-- The `finally` block from a round of its loop on, with the streams that are still to come: what it
-- and the other tasks do, and what is left.
pub data CleansUp (client_id : ℕ) : List ℕ → Connection → List Effect → Connection → Type 0 where
  ends_loop : (c : Connection) → CleansUp client_id [] c [] (clear c)
  round :
      (sid : ℕ) (sids : List ℕ) (c : Connection) (es : List Effect) (c' : Connection)
      → CleansUp client_id sids (cancel_stream client_id sid c).1 es c'
      → CleansUp client_id (sid ∷ sids) c ((cancel_stream client_id sid c).0 ++ es) c'
  waits :
      (sids : List ℕ) (c : Connection) (step : List Effect × Connection) (es : List Effect)
      (c' : Connection)
      → Meanwhile client_id sids c step
      → CleansUp client_id sids step.1 es c'
      → CleansUp client_id sids c (step.0 ++ es) c'

-- The target of a relay has been closed, and the relay marked so.
abbrev pub Closes : ForwardRelay → List Effect → Type 0
Closes r [] = ⊥
Closes r (e ∷ es) = (e ≡ close_target (record r { active = false })) ⊎ Closes r es

module _ (client_id : ℕ) where
  -- The block always comes to its end: the rounds alone do.
  CleansUp-total :
      (sids : List ℕ) (c : Connection)
      → (es : List Effect) × (c' : Connection) × CleansUp client_id sids c es c'
  CleansUp-total [] c = ([], clear c, ends_loop c)
  CleansUp-total (sid ∷ sids) c =
      let (es, c', run) = CleansUp-total sids (cancel_stream client_id sid c).1 in
      ((cancel_stream client_id sid c).0 ++ es, c', round sid sids c es c' run)
