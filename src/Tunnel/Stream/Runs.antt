-- ===== src/Tunnel/Stream/Runs.antt =====
-- Sequences of calls on a `TunnelStream` of client/core/tunnel.py. A read that has waited goes on
-- while no other read runs, so without a leftover.
use vpnself.Prelude.{
  ℕ, ◌+◌, ◌≤◌, ◌≡◌, sym, ap, ◌∙◌, inl, inr, List, [], ◌++◌, ltb, length, ℤ, arith, Bool-cases,
  length-append,
}
use mathlib.Core.Path.{subst}
use mathlib.Core.List.{append_assoc, append-nil}
use vpnself.Tunnel.Stream.{
  TunnelStream, ready, waiting, max_buffer, take_one, read, close, feed_data,
}
use vpnself.Tunnel.Stream.Bytes.{
  content, Front, read-Front, take_one-Front, accepted, feed_data_lem, close_lem, feed_closed,
  feed_over, feed_in, in_lem,
}

-- A sequence of calls on a stream, with the bytes that it takes in and the bytes that its reads
-- return.
pub data Run : TunnelStream → List ℕ → List ℕ → TunnelStream → Type 0 where
  done : (s : TunnelStream) → Run s [] [] s
  feed :
      (chunk : List ℕ) (s t : TunnelStream) (fed given : List ℕ)
      → Run (feed_data chunk s) fed given t
      → Run s (accepted chunk s ++ fed) given t
  shut : (s t : TunnelStream) (fed given : List ℕ) → Run (close s) fed given t → Run s fed given t
  reads :
      (n : ℤ) (s s' t : TunnelStream) (bytes fed given : List ℕ)
      → read n s ≡ ready bytes s'
      → Run s' fed given t
      → Run s fed (bytes ++ given) t
  waits :
      (n : ℤ) (s s' t : TunnelStream) (fed given : List ℕ)
      → read n s ≡ waiting s'
      → Run s' fed given t
      → Run s fed given t
  resumes :
      (n : ℤ) (s s' t : TunnelStream) (bytes fed given : List ℕ)
      → s.leftover ≡ []
      → take_one n s ≡ ready bytes s'
      → Run s' fed given t
      → Run s fed (bytes ++ given) t

pass_front :
    (bytes all rest fed given left : List ℕ)
    → all ≡ bytes ++ rest
    → rest ++ fed ≡ given ++ left
    → all ++ fed ≡ (bytes ++ given) ++ left
pass_front bytes all rest fed given left h k =
    ap (λ z. z ++ fed) h
    ∙ append_assoc bytes rest fed
    ∙ ap (λ z. bytes ++ z) k
    ∙ sym (append_assoc bytes given left)

-- In any order of feeding, closing, reading and waiting, the bytes that the stream held and took
-- in are the bytes that the reads returned and those that it still holds, in order.
pub Run-conserves :
    (s t : TunnelStream) (fed given : List ℕ)
    → Run s fed given t
    → content s ++ fed ≡ given ++ content t
Run-conserves s _ _ _ (done _) = append-nil (content s)
Run-conserves s t _ given (feed chunk _ _ fed _ w) =
    sym (append_assoc (content s) (accepted chunk s) fed)
    ∙ ap (λ z. z ++ fed) (sym (feed_data_lem chunk s))
    ∙ Run-conserves (feed_data chunk s) t fed given w
Run-conserves s t fed given (shut _ _ _ _ w) =
    ap (λ z. z ++ fed) (sym (close_lem s)) ∙ Run-conserves (close s) t fed given w
Run-conserves s t fed _ (reads n _ s' _ bytes _ given e w) =
    pass_front bytes (content s) (content s') fed given (content t)
      (subst (Front (content s) s.buffered_bytes) e (read-Front n s)).0
      (Run-conserves s' t fed given w)
Run-conserves s t fed given (waits n _ s' _ _ _ e w) =
    let f = subst (Front (content s) s.buffered_bytes) e (read-Front n s) in
    ap (λ z. z ++ fed) (f.0 ∙ sym f.1) ∙ Run-conserves s' t fed given w
Run-conserves s t fed _ (resumes n _ s' _ bytes _ given h e w) =
    pass_front bytes (content s) (content s') fed given (content t)
      (subst (Front (content s) s.buffered_bytes) e (take_one-Front n s h)).0
      (Run-conserves s' t fed given w)

-- The count is that of the bytes held, and within MAX_BUFFER_BYTES.
abbrev pub IsValid : TunnelStream → Type 0
IsValid s = (s.buffered_bytes ≡ length (content s)) × (s.buffered_bytes ≤ max_buffer)

Front-IsValid :
    (s s' : TunnelStream) (bytes : List ℕ)
    → IsValid s
    → Front (content s) s.buffered_bytes (ready bytes s')
    → IsValid s'
Front-IsValid s s' bytes v f =
    let l : length (content s) ≡ length bytes + length (content s') =
      ap length f.0 ∙ length-append bytes (content s') in
    (omega arith, omega arith)

close-count : (s : TunnelStream) → (close s).buffered_bytes ≡ s.buffered_bytes
unfolding close
close-count s = ground arith

pub close-IsValid : (s : TunnelStream) → IsValid s → IsValid (close s)
close-IsValid s v = rw (close-count s, close_lem s) v

pub feed_data-IsValid :
    (chunk : List ℕ) (s : TunnelStream) → IsValid s → IsValid (feed_data chunk s)
feed_data-IsValid chunk s v = elim (Bool-cases s.closed) [
  | inl c ↦ subst IsValid (sym (feed_closed chunk s c)) v
  | inr c ↦ elim (Bool-cases (ltb max_buffer (s.buffered_bytes + length chunk))) [
    | inl o ↦ subst IsValid (sym (feed_over chunk s c o)) (close-IsValid s v)
    | inr o ↦ subst IsValid (sym (feed_in chunk s c o)) (
      (omega (arith, v.0, ap length (in_lem chunk s), length-append (content s) chunk)),
      ground (arith, o),
    )
  ]
]

-- In any sequence of calls the stream holds at most MAX_BUFFER_BYTES, and its counter is exact.
pub Run-IsValid :
    (s t : TunnelStream) (fed given : List ℕ) → Run s fed given t → IsValid s → IsValid t
Run-IsValid s _ _ _ (done _) v = v
Run-IsValid s t _ given (feed chunk _ _ fed _ w) v =
    Run-IsValid (feed_data chunk s) t fed given w (feed_data-IsValid chunk s v)
Run-IsValid s t fed given (shut _ _ _ _ w) v =
    Run-IsValid (close s) t fed given w (close-IsValid s v)
Run-IsValid s t fed _ (reads n _ s' _ bytes _ given e w) v =
    Run-IsValid s' t fed given w
      (Front-IsValid s s' bytes v (subst (Front (content s) s.buffered_bytes) e (read-Front n s)))
Run-IsValid s t fed given (waits n _ s' _ _ _ e w) v =
    let f = subst (Front (content s) s.buffered_bytes) e (read-Front n s) in
    Run-IsValid s' t fed given w (f.2 ∙ v.0 ∙ ap length (f.0 ∙ sym f.1), omega (arith, f.2, v.1))
Run-IsValid s t fed _ (resumes n _ s' _ bytes _ given h e w) v = Run-IsValid s' t fed given w (
    Front-IsValid s s' bytes v
      (subst (Front (content s) s.buffered_bytes) e (take_one-Front n s h)))
