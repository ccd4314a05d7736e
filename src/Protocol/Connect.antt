-- ===== src/Protocol/Connect.antt =====
-- The CONNECT payload of common/protocol.py, packed by the client and unpacked by the server.
use vpnself.Prelude.{
  ℕ, suc, ◌+◌, ◌*◌, ◌/◌, ◌%◌, ◌≡◌, ◌≢◌, refl, ap, ◌∙◌, inl, inr, false, some, List, [], ◌∷◌, ◌++◌,
  ltb, length, take, drop, arith, length-append, take-append_exact, drop-append_exact, Option-cases,
  Text, All, All-take, All-drop,
}
use vpnself.Bytes.{IsByte, IsU16, unpack_u16, be16}
use vpnself.Bytes.Utf8.{encode, decode, decode-encode}
use vpnself.Protocol.{
  Cmd, Frame, frame_of, connect_payload, pack_connect, unpack_connect, checked_target, unpack_frame,
  pack_frame,
}
use vpnself.Protocol.Frames.{wire_of_pack_frame, unpack_frame-wire}

-- What the payload of an accepted CONNECT consists of.
payload_parts :
    (host : Text) (port : ℕ) (payload : List ℕ)
    → connect_payload host port ≡ some payload
    → (bs : List ℕ) × (encode host ≡ some bs)
      × IsU16 (length bs)
      × IsU16 port
      × (payload ≡ be16 (length bs) ++ bs ++ be16 port)
unfolding connect_payload
payload_parts host port payload h = elim (Option-cases (encode host)) [
  | inl bad ↦ ground arith
  | inr (bs, e) ↦ (bs, e, ground arith, ground arith, ground arith)
]

-- What the server reads from such a payload, with anything behind it.
unpack_parts :
    (host : Text) (bs rest : List ℕ) (port : ℕ)
    → decode bs ≡ some host
    → IsU16 (length bs)
    → IsU16 port
    → unpack_connect (be16 (length bs) ++ (bs ++ (be16 port ++ rest))) ≡ checked_target host port
unfolding unpack_connect
unpack_parts host bs rest port dec hl hp =
    let n : ℕ = length bs in
    let tail : List ℕ = be16 port ++ rest in
    let two : 2 + n ≡ suc (suc n) = omega arith in
    let long' : ltb (suc (suc (length (bs ++ tail)))) 4 ≡ false =
      ground (arith, length-append bs tail) in
    let back : n / 256 % 256 * 256 + n % 256 ≡ n = omega arith in
    let port_back : port / 256 % 256 * 256 + port % 256 ≡ port = omega arith in
    rw (
      long',
      back,
      take-append_exact bs tail n refl,
      dec,
      two,
      drop-append_exact bs tail n refl,
      port_back,
    )

-- The server reads back the host and the port of every CONNECT payload that the client can pack,
-- if the host is not empty and the port is not 0.
pub unpack_connect-connect_payload :
    (c : ℕ) (cs : Text) (port : ℕ) (payload : List ℕ)
    → port ≢ 0
    → connect_payload (c ∷ cs) port ≡ some payload
    → unpack_connect payload ≡ some (c ∷ cs, port)
unpack_connect-connect_payload c cs port payload hp h =
    let (bs, e, hl, hport, parts) = payload_parts (c ∷ cs) port payload h in
    let nonzero : checked_target (c ∷ cs) port ≡ some (c ∷ cs, port) = ground arith in
    rw parts (unpack_parts (c ∷ cs) bs [] port (decode-encode (c ∷ cs) bs e) hl hport ∙ nonzero)

-- A CONNECT frame that the client sends, alone or in front of other bytes, reaches the server as its
-- stream id, host and port: `unpack_frame` returns a CONNECT frame whose payload unpacks to them.
-- (The host is not empty and the port is not 0.)
pub pack_connect_arrives :
    (sid c : ℕ) (cs : Text) (port : ℕ) (frame rest : List ℕ)
    → port ≢ 0
    → pack_connect sid (c ∷ cs) port ≡ some frame
    → (f : Frame) × (unpack_frame (frame ++ rest) 0 ≡ some f)
      × (f.stream_id ≡ sid)
      × (f.cmd ≡ Cmd.connect)
      × (unpack_connect f.payload ≡ some (c ∷ cs, port))
pack_connect_arrives sid c cs port frame rest hp h =
    elim (Option-cases (connect_payload (c ∷ cs) port)) [
      | inl bad ↦ absurd (unfold pack_connect in ground arith)
      | inr (payload, e) ↦
          let framed : pack_frame sid Cmd.connect payload ≡ some frame =
            unfold pack_connect in ground arith in
          let (bs, _, hl, _, parts) = payload_parts (c ∷ cs) port payload e in
          let (hs, _, bytes) = wire_of_pack_frame sid Cmd.connect payload frame framed in
          let small : length payload ≡ suc (suc (length (bs ++ be16 port))) = ap length parts in
          (
            frame_of sid Cmd.connect payload,
            rw bytes (
                unpack_frame-wire sid Cmd.connect payload rest hs
                  (omega (arith, length-append bs (be16 port)))),
            refl,
            refl,
            unpack_connect-connect_payload c cs port payload hp e,
          )
    ]

unpack_u16_bound : (xs : List ℕ) (n : ℕ) → All IsByte xs → unpack_u16 xs ≡ some n → IsU16 n
unpack_u16_bound [] n h e = cc
unpack_u16_bound (a ∷ []) n h e = cc
unpack_u16_bound (a ∷ b ∷ []) n h e = ground arith
unpack_u16_bound (a ∷ b ∷ c ∷ xs) n h e = cc

accepted :
    (text : Text) (p : ℕ) (host : Text) (port : ℕ)
    → IsU16 p
    → checked_target text p ≡ some (host, port)
    → (host ≢ []) × (port ≢ 0) × IsU16 port
accepted [] p host port h e = cc
accepted (c ∷ cs) p host port h e = ground arith

-- `unpack_connect` accepts no empty host, no port 0 and no port above 65535, whatever the bytes.
pub unpack_connect_checked :
    (payload : List ℕ) (host : Text) (port : ℕ)
    → All IsByte payload
    → unpack_connect payload ≡ some (host, port)
    → (host ≢ []) × (port ≢ 0) × IsU16 port
unfolding unpack_connect
unpack_connect_checked payload host port hb h = elim (Option-cases (unpack_u16 (take 2 payload))) [
  | inl bad ↦ absurd (ground arith)
  | inr (n, e) ↦ elim (Option-cases (decode (take n (drop 2 payload)))) [
    | inl bad ↦ absurd (ground arith)
    | inr (text, e') ↦
        let tail : List ℕ = take 2 (drop (2 + n) payload) in
        elim (Option-cases (unpack_u16 tail)) [
          | inl bad ↦ absurd (ground arith)
          | inr (p, e'') ↦
              let small : IsU16 p =
                unpack_u16_bound tail p
                  (All-take IsByte 2 (drop (2 + n) payload) (All-drop IsByte (2 + n) payload hb))
                  e'' in
              accepted text p host port small (ground arith)
        ]
  ]
]
