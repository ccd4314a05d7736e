-- ===== src/Tunnel/Client/Steps.antt =====
-- The steps of a `TunnelClient` of client/core/tunnel.py in any order: the ids and the memory of its
-- streams.
use vpnself.Prelude.{
  if_both, sym, not, ◌&&◌, ℕ, ◌+◌, ◌-◌, ◌^◌, ◌≤◌, ◌<◌, ◌≡◌, refl, inl, inr, Bool, none, some, List,
  [], ◌∷◌, All, ◌==◌, ==_iff, if◌then◌else◌, arith, Bool-cases, Option-cases, nat_eq, length,
}
use mathlib.Core.Path.{subst}
use vpnself.Prelude.Dict.{
  Dict, get, put, remove, IsUnique, put-IsUnique, remove-IsUnique, All-remove,
}
use vpnself.Protocol.{Cmd, Frame}
use vpnself.Tunnel.Stream.{TunnelStream}
use vpnself.Tunnel.Stream.Runs.{Run, Run-IsValid, close-IsValid, feed_data-IsValid}
use vpnself.Tunnel.Client.{
  is_connected, TunnelClient, Entry, next_id, new_entry, open_stream, on_frame, deliver, receive,
  send_data, close_stream, disconnect,
}
use vpnself.Tunnel.Client.Demux.{deliver_absent, deliver_present}

-- An id that a stream may have: not 0, which names the tunnel itself, and within 32 bits.
abbrev pub IsStreamId : ℕ → Type 0
IsStreamId sid = (1 ≤ sid) × (sid < 2 ^ 32 - 1)

-- The stream counts its bytes and holds at most MAX_BUFFER_BYTES.
abbrev pub IsBounded : TunnelStream → Type 0
IsBounded s = vpnself.Tunnel.Stream.Runs.IsValid s

abbrev pub IsGood : ℕ × Entry → Type 0
IsGood kv = IsStreamId kv.0 × IsBounded kv.1.stream

abbrev pub IsValid : TunnelClient → Type 0
IsValid c = IsStreamId c.next_stream_id × (IsUnique c.streams × All IsGood c.streams)

-- One step of the client, or calls on one of its streams.
pub data Step : TunnelClient → TunnelClient → Type 0 where
  opens : (sid : ℕ) (c c' : TunnelClient) → open_stream c ≡ some (sid, c') → Step c c'
  receives : (now : ℕ) (f : Frame) (c : TunnelClient) → Step c (receive now f c).1
  sends :
      (ok : ℕ → Bool) (sid : ℕ) (bytes : List ℕ) (c : TunnelClient)
      → Step c (send_data ok sid bytes c).1
  closes : (sid : ℕ) (c : TunnelClient) → Step c (close_stream sid c).2
  disconnects : (c : TunnelClient) → Step c (disconnect c).1
  stream_runs :
      (sid : ℕ) (e : Entry) (s : TunnelStream) (fed given : List ℕ) (c : TunnelClient)
      → get sid c.streams ≡ some e
      → Run e.stream fed given s
      → Step c (record c { streams = put sid (record e { stream = s }) c.streams })

All-put_at :
    (k : ℕ) (e : Entry) (d : Dict ℕ Entry) → IsGood (k, e) → All IsGood d → All IsGood (put k e d)
All-put_at k e [] g a = (g, tt)
All-put_at k e ((j, w) ∷ d) g a = elim (Bool-cases (j == k)) [
  | inl q ↦ rw q (subst (λ i. IsGood (i, e)) (sym ((==_iff j k).0 q)) g, a.1)
  | inr q ↦ rw q (a.0, All-put_at k e d g a.1)
]

IsGood-of_get :
    (k : ℕ) (e : Entry) (d : Dict ℕ Entry) → All IsGood d → get k d ≡ some e → IsGood (k, e)
IsGood-of_get k e [] a q = absurd cc
IsGood-of_get k e ((j, w) ∷ d) a q = elim (Bool-cases (j == k)) [
  | inl h ↦
      let here : w ≡ e = ground (arith, q, h) in
      subst (λ i. IsGood (i, e)) ((==_iff j k).0 h) (subst (λ x. IsGood (j, x)) here a.0)
  | inr h ↦ IsGood-of_get k e d a.1 (ground (arith, q, h))
]

next_id-IsStreamId : (sid : ℕ) → IsStreamId sid → IsStreamId (next_id sid)
next_id-IsStreamId sid h = (ground (arith, h), ground (arith, h))

on_frame-IsBounded :
    (cmd : Cmd) (payload : List ℕ) (e : Entry)
    → IsBounded e.stream
    → IsBounded (on_frame cmd payload e).stream
unfolding on_frame
on_frame-IsBounded Cmd.connect payload e b = b
on_frame-IsBounded Cmd.data_frame payload e b = feed_data-IsValid payload e.stream b
on_frame-IsBounded Cmd.close payload e b = close-IsValid e.stream b
on_frame-IsBounded Cmd.connect_ok payload e b = b
on_frame-IsBounded Cmd.connect_fail payload e b = close-IsValid e.stream b
on_frame-IsBounded Cmd.auth payload e b = b
on_frame-IsBounded Cmd.auth_ok payload e b = b
on_frame-IsBounded Cmd.auth_fail payload e b = b
on_frame-IsBounded Cmd.ping payload e b = b
on_frame-IsBounded Cmd.pong payload e b = b

-- The table has each id once, and only good streams.
abbrev IsTable : Dict ℕ Entry → Type 0
IsTable d = IsUnique d × All IsGood d

put-IsTable :
    (k : ℕ) (e : Entry) (d : Dict ℕ Entry) → IsGood (k, e) → IsTable d → IsTable (put k e d)
put-IsTable k e d g t = (put-IsUnique k e d t.0, All-put_at k e d g t.1)

remove-IsTable : (k : ℕ) (d : Dict ℕ Entry) → IsTable d → IsTable (remove k d)
remove-IsTable k d t = (remove-IsUnique k d t.0, All-remove IsGood k d t.1)

deliver-IsTable : (f : Frame) (d : Dict ℕ Entry) → IsTable d → IsTable (deliver f d)
deliver-IsTable f d t = elim (Option-cases (get f.stream_id d)) [
  | inl q ↦ subst IsTable (sym (deliver_absent f d q)) t
  | inr (e, q) ↦
      let good = IsGood-of_get f.stream_id e d t.1 q in
      subst IsTable (sym (deliver_present f d e q)) (
        put-IsTable f.stream_id (on_frame f.cmd f.payload e) d
          (good.0, on_frame-IsBounded f.cmd f.payload e good.1) t)
]

open_stream-IsValid :
    (sid : ℕ) (c c' : TunnelClient) → open_stream c ≡ some (sid, c') → IsValid c → IsValid c'
unfolding open_stream
open_stream-IsValid sid c c' q v = elim (Bool-cases (is_connected c && c.has_writer)) [
  | inr h ↦ absurd (ground (arith, q, h))
  | inl h ↦
      let opened : record c {
        next_stream_id = next_id c.next_stream_id;
        streams = put c.next_stream_id (new_entry c.optimistic_connect) c.streams;
      }
          ≡ c' =
        ground (arith, q, h) in
      subst IsValid opened (
        next_id-IsStreamId c.next_stream_id v.0,
        put-IsTable c.next_stream_id (new_entry c.optimistic_connect) c.streams
            (v.0, (refl, omega arith)) v.1,
      )
]

receive-IsValid : (now : ℕ) (f : Frame) (c : TunnelClient) → IsValid c → IsValid (receive now f c).1
unfolding receive
receive-IsValid now f c v = (v.0, deliver-IsTable f c.streams v.1)

send_data-none :
    (ok : ℕ → Bool) (sid : ℕ) (bytes : List ℕ) (c : TunnelClient)
    → get sid c.streams ≡ none
    → (send_data ok sid bytes c).1 ≡ c
unfolding send_data
send_data-none ok sid bytes c g = ground (arith, g)

send_data-some :
    (ok : ℕ → Bool) (sid : ℕ) (bytes : List ℕ) (e : Entry) (c : TunnelClient)
    → get sid c.streams ≡ some e
    → (send_data ok sid bytes c).1 ≡ (
        if is_connected c && not e.stream.closed
        then record c {
          streams = put sid (record e { bytes_sent = e.bytes_sent + length bytes }) c.streams;
        }
        else c)
unfolding send_data
send_data-some ok sid bytes e c g = ground (arith, g)

send_data-IsValid :
    (ok : ℕ → Bool) (sid : ℕ) (bytes : List ℕ) (c : TunnelClient)
    → IsValid c
    → IsValid (send_data ok sid bytes c).1
send_data-IsValid ok sid bytes c v = elim (Option-cases (get sid c.streams)) [
  | inl g ↦ subst IsValid (sym (send_data-none ok sid bytes c g)) v
  | inr (e, g) ↦
      let e' : Entry = record e { bytes_sent = e.bytes_sent + length bytes } in
      subst IsValid (sym (send_data-some ok sid bytes e c g)) (
        if_both IsValid (is_connected c && not e.stream.closed)
          (record c { streams = put sid e' c.streams }) c
          (λ _. (v.0, put-IsTable sid e' c.streams (IsGood-of_get sid e c.streams v.1.1 g) v.1))
          (λ _. v))
]

close_stream-none :
    (sid : ℕ) (c : TunnelClient) → get sid c.streams ≡ none → (close_stream sid c).2 ≡ c
unfolding close_stream
close_stream-none sid c g = ground (arith, g)

close_stream-some :
    (sid : ℕ) (e : Entry) (c : TunnelClient)
    → get sid c.streams ≡ some e
    → (close_stream sid c).2 ≡ record c { streams = remove sid c.streams }
unfolding close_stream
close_stream-some sid e c g = ground (arith, g)

close_stream-IsValid : (sid : ℕ) (c : TunnelClient) → IsValid c → IsValid (close_stream sid c).2
close_stream-IsValid sid c v = elim (Option-cases (get sid c.streams)) [
  | inl g ↦ subst IsValid (sym (close_stream-none sid c g)) v
  | inr (e, g) ↦
      subst IsValid (sym (close_stream-some sid e c g)) (v.0, remove-IsTable sid c.streams v.1)
]

disconnect-IsValid : (c : TunnelClient) → IsValid c → IsValid (disconnect c).1
unfolding disconnect
disconnect-IsValid c v = (v.0, (tt, tt))

Step-IsValid : (c c' : TunnelClient) → Step c c' → IsValid c → IsValid c'
Step-IsValid c c' (opens sid _ _ q) v = open_stream-IsValid sid c c' q v
Step-IsValid c _ (receives now f _) v = receive-IsValid now f c v
Step-IsValid c _ (sends ok sid bytes _) v = send_data-IsValid ok sid bytes c v
Step-IsValid c _ (closes sid _) v = close_stream-IsValid sid c v
Step-IsValid c _ (disconnects _) v = disconnect-IsValid c v
Step-IsValid c _ (stream_runs sid e s fed given _ g w) v =
    let good = IsGood-of_get sid e c.streams v.1.1 g in
    (
      v.0,
      put-IsTable sid (record e { stream = s }) c.streams
          (good.0, Run-IsValid e.stream s fed given w good.1) v.1,
    )

-- Any number of steps.
pub data Steps : TunnelClient → TunnelClient → Type 0 where
  here : (c : TunnelClient) → Steps c c
  step : (c c' c'' : TunnelClient) → Step c c' → Steps c' c'' → Steps c c''

-- Through any steps of the client and calls on its streams the next stream id and the ids in its table stay between 1 and
-- 2^32 - 2, each id names one stream, and every stream counts its bytes exactly and holds at most
-- MAX_BUFFER_BYTES, whatever the server sends.
pub Steps-IsValid : (c c' : TunnelClient) → Steps c c' → IsValid c → IsValid c'
Steps-IsValid c _ (here _) v = v
Steps-IsValid c c'' (step _ c' _ one more) v = Steps-IsValid c' c'' more (Step-IsValid c c' one v)
