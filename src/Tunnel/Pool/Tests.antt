-- ===== src/Tunnel/Pool/Tests.antt =====
-- The theorems about the pool at concrete tunnels.
use vpnself.Prelude.{ℕ, ◌<◌, ◌≡◌, refl, true, false, [], ◌∷◌, if◌then◌else◌, pos, ◌==◌}
use vpnself.Tunnel.Pool.{
  TunnelPool, PoolTunnel, Created, stream, refused, create_stream, fan_out, lose_tunnels,
  lose_tunnel, on_tunnel_lost, connect, new_pool,
}
use vpnself.Tunnel.Pool.FanOut.{InTurn, IsAsked, create_stream-asks_all}
use vpnself.Tunnel.Pool.Latch.{lose_tunnels-notifies, connect-latches}
use vpnself.Tunnel.Pool.Covered.{IsCovered, loses, wakes, tries}
use vpnself.Tunnel.Pool.Covered.{pool_events}
use vpnself.Tunnel.Pool.Session.{connect-IsCovered}

abbrev tunnel : ℕ → PoolTunnel
tunnel pool_index = record { pool_index = pool_index; connected = true }

abbrev two_tunnels : TunnelPool
two_tunnels = record {
  pool_size = 2;
  tunnels = tunnel 1 ∷ tunnel 2 ∷ [];
  rr_index = 3;
  running = true;
  reconnect_tasks = [];
  pid = 2;
  down_notified = false;
}

abbrev replies : ℕ → Created
replies i = if i == 0 then stream 9 else refused

create_stream-asks_all_example :
    let (asked, result) = (create_stream (λ i. true) replies two_tunnels).0 in
    InTurn (λ i. true) replies 2 result asked
    × (result ≡ refused → (i : ℕ) → i < 2 → true ≡ true → (replies i ≡ refused) × IsAsked i asked)
create_stream-asks_all_example = create_stream-asks_all (λ i. true) replies two_tunnels

-- The round robin begins with the tunnel of index 1, which refuses.
asked_in_turn : (create_stream (λ i. true) replies two_tunnels).0 ≡ (1 ∷ 0 ∷ [], stream 9)
unfolding create_stream fan_out
asked_in_turn = refl

lose_tunnels-notifies_example : (lose_tunnels (1 ∷ 2 ∷ 2 ∷ []) two_tunnels).0 ≡ 1
unfolding lose_tunnel on_tunnel_lost
lose_tunnels-notifies_example = lose_tunnels-notifies 1 (2 ∷ 2 ∷ []) two_tunnels refl refl

connect-latches_example :
    ((connect (true ∷ true ∷ []) two_tunnels).0 ≡ 1)
    × ((lose_tunnels (3 ∷ 4 ∷ []) (connect (true ∷ true ∷ []) two_tunnels).2).0 ≡ 0)
connect-latches_example =
    connect-latches (true ∷ true ∷ []) two_tunnels (tunnel 1) (tunnel 2 ∷ []) (3 ∷ 4 ∷ []) refl

connect-IsCovered_example : IsCovered (
    pool_events
      (loses 2 ∷ wakes 1 ∷ tries 1 10000 true ∷ [])
      (connect (true ∷ false ∷ []) (new_pool (pos 2))).2)
connect-IsCovered_example =
    connect-IsCovered (true ∷ false ∷ []) (new_pool (pos 2))
      (loses 2 ∷ wakes 1 ∷ tries 1 10000 true ∷ []) refl
