-- ===== src/Tunnel/Stream/Bytes.antt =====
-- `TunnelStream` of client/core/tunnel.py: the bytes come out as they went in.
use vpnself.Prelude.{
  if_both, ℕ, ◌+◌, ◌-◌, ◌≡◌, refl, sym, ap, ◌∙◌, inl, inr, true, false, not, ◌&&◌, ◌||◌, Option,
  none, some, List, [], ◌∷◌, ◌++◌, if◌then◌else◌, ltb, length, take, drop, ℤ, pos, negsuc, arith,
  Bool-cases, take-append-drop,
}
use mathlib.Core.Path.{subst}
use mathlib.Core.List.{append_assoc, append-nil}
use vpnself.Tunnel.Stream.{
  TunnelStream, ReadResult, ready, waiting, max_buffer, is_empty, count_read, drain_queue, give,
  take_from, take_one, takes_all, amount, read_leftover, read_all, read_queue, read, close,
  feed_data,
}

-- The bytes of the queue, in order.
abbrev pub queued : List (Option (List ℕ)) → List ℕ
queued [] = []
queued (none ∷ q) = queued q
queued (some chunk ∷ q) = chunk ++ queued q

-- The bytes that the stream holds.
abbrev pub content : TunnelStream → List ℕ
content s = s.leftover ++ queued s.buffer

-- What a read leaves of the bytes `all`, of which `k` are counted: it takes what it returns off the
-- front and off the count, and where it waits there is none.
abbrev pub Front : List ℕ → ℕ → ReadResult → Type 0
Front all k (ready bytes s') = (all ≡ bytes ++ content s') × (s'.buffered_bytes ≡ k - length bytes)
Front all k (waiting s') = (all ≡ []) × (content s' ≡ []) × (s'.buffered_bytes ≡ k)

queued-append : (p q : List (Option (List ℕ))) → queued (p ++ q) ≡ queued p ++ queued q
queued-append [] q = refl
queued-append (none ∷ p) q = queued-append p q
queued-append (some chunk ∷ p) q =
    rw (queued-append p q) (sym (append_assoc chunk (queued p) (queued q)))

drain_queue_lem :
    (q : List (Option (List ℕ))) → queued q ≡ (drain_queue q).0 ++ queued (drain_queue q).2
drain_queue_lem [] = refl
drain_queue_lem (none ∷ q) = refl
drain_queue_lem (some chunk ∷ q) =
    ap (λ z. chunk ++ z) (drain_queue_lem q)
    ∙ sym (append_assoc chunk (drain_queue q).0 (queued (drain_queue q).2))

split_at : (n : ℕ) (xs ys : List ℕ) → xs ++ ys ≡ take n xs ++ (drop n xs ++ ys)
split_at n xs ys =
    ap (λ z. z ++ ys) (sym (take-append-drop n xs)) ∙ append_assoc (take n xs) (drop n xs) ys

give_lem :
    (n : ℤ) (chunk : List ℕ) (s : TunnelStream)
    → s.leftover ≡ []
    → Front (chunk ++ queued s.buffer) s.buffered_bytes (give n chunk s)
give_lem (negsuc k) chunk s h = (ap (λ l. chunk ++ (l ++ queued s.buffer)) (sym h), refl)
give_lem (pos n) chunk s h =
    if_both (Front (chunk ++ queued s.buffer) s.buffered_bytes) (ltb n (length chunk))
      (ready (take n chunk) (count_read (take n chunk) (record s { leftover = drop n chunk })))
      (ready chunk (count_read chunk s)) (λ _. (split_at n chunk (queued s.buffer), refl))
      (λ _. (ap (λ l. chunk ++ (l ++ queued s.buffer)) (sym h), refl))

take_from_lem :
    (n : ℤ) (q : List (Option (List ℕ))) (s : TunnelStream)
    → s.leftover ≡ []
    → s.buffer ≡ q
    → Front (queued q) s.buffered_bytes (take_from n q s)
take_from_lem n [] s h e = (refl, rw (h, e) refl, refl)
take_from_lem n (none ∷ q) s h e = (ap (λ l. l ++ queued q) (sym h), omega arith)
take_from_lem n (some chunk ∷ q) s h e = give_lem n chunk (record s { buffer = q }) h

take_one_lem :
    (n : ℤ) (s : TunnelStream)
    → s.leftover ≡ []
    → Front (queued s.buffer) s.buffered_bytes (take_one n s)
unfolding take_one
take_one_lem n s h = take_from_lem n s.buffer s h refl

read_leftover_lem :
    (n : ℤ) (s : TunnelStream) → Front (content s) s.buffered_bytes (read_leftover n s)
unfolding read_leftover
read_leftover_lem n s =
    if_both (Front (content s) s.buffered_bytes) (takes_all n s.leftover)
      (ready s.leftover (count_read s.leftover (record s { leftover = [] })))
      (ready (take (amount n) s.leftover) (
        count_read (take (amount n) s.leftover)
          (record s { leftover = drop (amount n) s.leftover })))
      (λ _. (refl, refl)) (λ _. (split_at (amount n) s.leftover (queued s.buffer), refl))

empty_of_is_empty {ℓ} : {A : Type ℓ} (xs : List A) → not (is_empty xs) ≡ false → xs ≡ []
empty_of_is_empty [] h = refl
empty_of_is_empty (x ∷ xs) h = cc

nothing_lem :
    (s : TunnelStream) → s.leftover ≡ [] → Front (queued s.buffer) s.buffered_bytes (ready [] s)
nothing_lem s h = (ap (λ l. l ++ queued s.buffer) (sym h), omega arith)

drained_lem :
    (n : ℤ) (bytes : List ℕ) (s : TunnelStream)
    → s.leftover ≡ []
    → Front (bytes ++ queued s.buffer) s.buffered_bytes (
        if not (is_empty bytes)
        then ready bytes (count_read bytes s)
        else if s.closed
        then ready [] s
        else take_one n s)
drained_lem n [] s h =
    if_both (Front (queued s.buffer) s.buffered_bytes) s.closed (ready [] s) (take_one n s)
      (λ _. nothing_lem s h) (λ _. take_one_lem n s h)
drained_lem n (b ∷ bs) s h = (ap (λ l. (b ∷ bs) ++ (l ++ queued s.buffer)) (sym h), refl)

read_all_lem :
    (n : ℤ) (s : TunnelStream)
    → s.leftover ≡ []
    → Front (queued s.buffer) s.buffered_bytes (read_all n s)
unfolding read_all
read_all_lem n s h =
    let (bytes, ended, rest) = drain_queue s.buffer in
    subst (λ all. Front all s.buffered_bytes (read_all n s)) (sym (drain_queue_lem s.buffer))
      (drained_lem n bytes (record s { buffer = rest; closed = s.closed || ended }) h)

read_queue_lem :
    (n : ℤ) (s : TunnelStream)
    → s.leftover ≡ []
    → Front (queued s.buffer) s.buffered_bytes (read_queue n s)
read_queue_lem (negsuc k) s h = read_all_lem (negsuc k) s h
read_queue_lem (pos n) s h = take_one_lem (pos n) s h

-- The bytes of a stream without a leftover are those of its queue.
Front-of_queue :
    (s : TunnelStream) (r : ReadResult)
    → s.leftover ≡ []
    → Front (queued s.buffer) s.buffered_bytes r
    → Front (content s) s.buffered_bytes r
Front-of_queue s r h =
    subst (λ all. Front all s.buffered_bytes r) (ap (λ l. l ++ queued s.buffer) (sym h))

-- `read` takes what it returns off the front of the bytes that the stream holds and off their
-- count, for every n, and waits only where it holds none.
pub read-Front : (n : ℤ) (s : TunnelStream) → Front (content s) s.buffered_bytes (read n s)
unfolding read
read-Front n s =
    if_both (Front (content s) s.buffered_bytes) (not (is_empty s.leftover)) (read_leftover n s)
      (if s.closed && is_empty s.buffer then ready [] s else read_queue n s)
      (λ _. read_leftover_lem n s) (λ e. queue_lem (empty_of_is_empty s.leftover e))
  where
    queue_lem :
        s.leftover ≡ []
        → Front
            (content s)
            s.buffered_bytes
            (if s.closed && is_empty s.buffer then ready [] s else read_queue n s)
    queue_lem h =
        if_both (Front (content s) s.buffered_bytes) (s.closed && is_empty s.buffer) (ready [] s)
          (read_queue n s) (λ _. (refl, omega arith))
          (λ _. Front-of_queue s (read_queue n s) h (read_queue_lem n s h))

-- The same for the rest of a read that has waited.
pub take_one-Front :
    (n : ℤ) (s : TunnelStream) → s.leftover ≡ [] → Front (content s) s.buffered_bytes (take_one n s)
take_one-Front n s h = Front-of_queue s (take_one n s) h (take_one_lem n s h)

-- The bytes that `feed_data` takes in.
abbrev pub accepted : List ℕ → TunnelStream → List ℕ
accepted chunk s =
    if s.closed || ltb max_buffer (s.buffered_bytes + length chunk) then [] else chunk

pub close_lem : (s : TunnelStream) → content (close s) ≡ content s
unfolding close
close_lem s =
    if_both (λ s'. content s' ≡ content s) (not s.closed)
      (record s { closed = true; buffer = s.buffer ++ (none ∷ []) }) s
      (λ _.
        ap (λ q. s.leftover ++ q)
          (queued-append s.buffer (none ∷ []) ∙ append-nil (queued s.buffer)))
      (λ _. refl)

-- The three branches of `feed_data`.
pub feed_closed : (chunk : List ℕ) (s : TunnelStream) → s.closed ≡ true → feed_data chunk s ≡ s
unfolding feed_data
feed_closed chunk s c = ground (arith, c)

pub feed_over :
    (chunk : List ℕ) (s : TunnelStream)
    → s.closed ≡ false
    → ltb max_buffer (s.buffered_bytes + length chunk) ≡ true
    → feed_data chunk s ≡ close s
unfolding feed_data
feed_over chunk s c o = ground (arith, c, o)

pub feed_in :
    (chunk : List ℕ) (s : TunnelStream)
    → s.closed ≡ false
    → ltb max_buffer (s.buffered_bytes + length chunk) ≡ false
    → feed_data chunk s ≡ record s {
      buffered_bytes = s.buffered_bytes + length chunk;
      buffer = s.buffer ++ (some chunk ∷ []);
    }
unfolding feed_data
feed_in chunk s c o = ground (arith, c, o)

pub in_lem :
    (chunk : List ℕ) (s : TunnelStream)
    → s.leftover ++ queued (s.buffer ++ (some chunk ∷ [])) ≡ content s ++ chunk
in_lem chunk s =
    ap (λ q. s.leftover ++ q)
      (queued-append s.buffer (some chunk ∷ []) ∙ ap (λ z. queued s.buffer ++ z) (append-nil chunk))
    ∙ sym (append_assoc s.leftover (queued s.buffer) chunk)

pub feed_data_lem :
    (chunk : List ℕ) (s : TunnelStream)
    → content (feed_data chunk s) ≡ content s ++ accepted chunk s
feed_data_lem chunk s = elim (Bool-cases s.closed) [
  | inl c ↦ ap content (feed_closed chunk s c) ∙ rw c (sym (append-nil (content s)))
  | inr c ↦ elim (Bool-cases (ltb max_buffer (s.buffered_bytes + length chunk))) [
    | inl o ↦
        ap content (feed_over chunk s c o) ∙ close_lem s ∙ rw (c, o) (sym (append-nil (content s)))
    | inr o ↦ ap content (feed_in chunk s c o) ∙ rw (c, o) (in_lem chunk s)
  ]
]
