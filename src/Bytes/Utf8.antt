-- ===== src/Bytes/Utf8.antt =====
-- `str.encode("utf-8")` and the strict `bytes.decode("utf-8")`. A text is a list of code points.
use vpnself.Prelude.{
  ℕ, zero, suc, ◌+◌, ◌-◌, ◌*◌, ◌/◌, ◌%◌, ◌<◌, ◌≤◌, ◌≡◌, refl, ap, Bool, true, not, ◌&&◌, Option,
  none, some, List, [], ◌∷◌, ◌++◌, ◌∙◌, ◌≢◌, inl, inr, lt→ltb, Bool-cases, Option-cases,
  if◌then◌else◌, ltb, leb, arith, Text,
}
use mathlib.Core.Path.{subst}
use mathlib.Core.Option

-- A code point that UTF-8 can encode: in range, and no surrogate.
abbrev pub is_scalar : ℕ → Bool
is_scalar c = ltb c 0x110000 && not (leb 0xd800 c && ltb c 0xe000)

abbrev pub IsScalar : ℕ → Type 0
IsScalar c = is_scalar c ≡ true

encode_point : ℕ → List ℕ
encode_point c =
    if ltb c 0x80
    then c ∷ []
    else if ltb c 0x800
    then (192 + c / 64) ∷ (128 + c % 64) ∷ []
    else if ltb c 0x10000
    then (224 + c / 4096) ∷ (128 + c / 64 % 64) ∷ (128 + c % 64) ∷ []
    else (240 + c / 262144) ∷ (128 + c / 4096 % 64) ∷ (128 + c / 64 % 64) ∷ (128 + c % 64) ∷ []

-- `none` is `UnicodeEncodeError`.
unfoldable pub encode : Text → Option (List ℕ)
unfolding encode_point
encode [] = some []
encode (c ∷ cs) = if is_scalar c then Option.map (λ bs. encode_point c ++ bs) (encode cs) else none

-- The decoder's state: the continuation bytes that are due, the bits so far, the least code point
-- that needs a sequence of this length. `none` is `UnicodeDecodeError`.
decode_from : ℕ → ℕ → ℕ → List ℕ → Option Text
decode_from zero acc low [] = some []
decode_from (suc k) acc low [] = none
decode_from zero acc low (b ∷ bs) =
    let one = Option.map (λ cs. b ∷ cs) (decode_from 0 0 0 bs) in
    let two = decode_from 1 (b - 192) 0x80 bs in
    let three = decode_from 2 (b - 224) 0x800 bs in
    let four = decode_from 3 (b - 240) 0x10000 bs in
    if ltb b 0x80
    then one
    else if leb 194 b && ltb b 224
    then two
    else if leb 224 b && ltb b 240
    then three
    else if leb 240 b && ltb b 245
    then four
    else none
decode_from (suc zero) acc low (b ∷ bs) =
    let c = acc * 64 + (b - 128) in
    let rest = Option.map (λ cs. c ∷ cs) (decode_from 0 0 0 bs) in
    if leb 128 b && ltb b 192 && leb low c && is_scalar c then rest else none
decode_from (suc (suc k)) acc low (b ∷ bs) =
    let rest = decode_from (suc k) (acc * 64 + (b - 128)) low bs in
    if leb 128 b && ltb b 192 then rest else none

unfoldable pub decode : List ℕ → Option Text
unfolding decode_from
decode bs = decode_from 0 0 0 bs

-- One round of the decoder: a first byte, a continuation byte, and the last byte of a sequence.
lead_two :
    (b : ℕ) (bs : List ℕ)
    → 194 ≤ b
    → b < 224
    → decode_from 0 0 0 (b ∷ bs) ≡ decode_from 1 (b - 192) 0x80 bs
unfolding decode_from
lead_two b bs lo hi = ground arith

lead_three :
    (b : ℕ) (bs : List ℕ)
    → 224 ≤ b
    → b < 240
    → decode_from 0 0 0 (b ∷ bs) ≡ decode_from 2 (b - 224) 0x800 bs
unfolding decode_from
lead_three b bs lo hi = ground arith

lead_four :
    (b : ℕ) (bs : List ℕ)
    → 240 ≤ b
    → b < 245
    → decode_from 0 0 0 (b ∷ bs) ≡ decode_from 3 (b - 240) 0x10000 bs
unfolding decode_from
lead_four b bs lo hi = ground arith

inner_byte :
    (k acc low x : ℕ) (bs : List ℕ)
    → x < 64
    → decode_from (suc (suc k)) acc low ((128 + x) ∷ bs) ≡ decode_from (suc k) (acc * 64 + x) low bs
unfolding decode_from
inner_byte k acc low x bs h = let e : 128 + x - 128 ≡ x = omega arith in ground (arith, e)

last_byte :
    (acc low x c : ℕ) (bs : List ℕ)
    → x < 64
    → acc * 64 + x ≡ c
    → low ≤ c
    → IsScalar c
    → decode_from 1 acc low ((128 + x) ∷ bs) ≡ Option.map (λ cs. c ∷ cs) (decode_from 0 0 0 bs)
unfolding decode_from
last_byte acc low x c bs h e lo sc =
    let back : acc * 64 + (128 + x - 128) ≡ c = omega arith in
    let in_range : (leb 128 (128 + x) ≡ true) × (ltb (128 + x) 192 ≡ true) = ground arith in
    let big : leb low c ≡ true = ground arith in rw (back, in_range.0, in_range.1, big, sc)

scalar_below : (c : ℕ) → IsScalar c → c < 0x110000
scalar_below c h = ground arith

decode_two :
    (c : ℕ) (bs : List ℕ)
    → IsScalar c
    → 0x80 ≤ c
    → c < 0x800
    → decode_from 0 0 0 ((192 + c / 64) ∷ (128 + c % 64) ∷ bs)
      ≡ Option.map (λ cs. c ∷ cs) (decode_from 0 0 0 bs)
decode_two c bs sc lo hi =
    lead_two (192 + c / 64) _ (omega arith) (omega arith)
    ∙ last_byte _ _ (c % 64) c bs (omega arith) (omega arith) lo sc

decode_three :
    (c : ℕ) (bs : List ℕ)
    → IsScalar c
    → 0x800 ≤ c
    → c < 0x10000
    → decode_from 0 0 0 ((224 + c / 4096) ∷ (128 + c / 64 % 64) ∷ (128 + c % 64) ∷ bs)
      ≡ Option.map (λ cs. c ∷ cs) (decode_from 0 0 0 bs)
decode_three c bs sc lo hi =
    lead_three (224 + c / 4096) _ (omega arith) (omega arith)
    ∙ inner_byte 0 _ _ (c / 64 % 64) _ (omega arith)
    ∙ last_byte _ _ (c % 64) c bs (omega arith) (omega arith) lo sc

decode_four :
    (c : ℕ) (bs : List ℕ)
    → IsScalar c
    → 0x10000 ≤ c
    → decode_from 0 0 0
        ((240 + c / 262144) ∷ (128 + c / 4096 % 64) ∷ (128 + c / 64 % 64) ∷ (128 + c % 64) ∷ bs)
      ≡ Option.map (λ cs. c ∷ cs) (decode_from 0 0 0 bs)
decode_four c bs sc lo =
    lead_four (240 + c / 262144) _ (omega arith) (omega (arith, scalar_below c sc))
    ∙ inner_byte 1 _ _ (c / 4096 % 64) _ (omega arith)
    ∙ inner_byte 0 _ _ (c / 64 % 64) _ (omega arith)
    ∙ last_byte _ _ (c % 64) c bs (omega arith) (omega (arith, scalar_below c sc)) lo sc

decode_one :
    (c : ℕ) (bs : List ℕ)
    → c < 0x80
    → decode_from 0 0 0 (c ∷ bs) ≡ Option.map (λ cs. c ∷ cs) (decode_from 0 0 0 bs)
unfolding decode_from
decode_one c bs h = rw (lt→ltb c 0x80 h)

-- Decoding the bytes of one code point, whatever follows them.
decode_point :
    (c : ℕ) (bs : List ℕ)
    → IsScalar c
    → decode_from 0 0 0 (encode_point c ++ bs) ≡ Option.map (λ cs. c ∷ cs) (decode_from 0 0 0 bs)
unfolding encode_point
decode_point c bs h =
    ground (arith, decode_one c bs, decode_two c bs h, decode_three c bs h, decode_four c bs h)

-- Decoding what was encoded gives the text back.
pub decode-encode : (s : Text) (bs : List ℕ) → encode s ≡ some bs → decode bs ≡ some s
unfolding encode decode
decode-encode [] bs h =
    let e : [] ≡ bs = cc in subst (λ t. decode t ≡ some []) e (unfold decode_from in refl)
decode-encode (c ∷ cs) bs h = elim (Bool-cases (is_scalar c)) [
  | inr bad ↦ ground arith
  | inl sc ↦ elim (Option-cases (encode cs)) [
    | inl none_left ↦ ground arith
    | inr (rest, e) ↦
        let whole : encode_point c ++ rest ≡ bs = ground arith in
        rw (← whole)
          (decode_point c rest sc ∙ ap (Option.map (λ t. c ∷ t)) (decode-encode cs rest e))
  ]
]

-- A text that is not empty has no empty encoding.
pub encode-ne-nil : (c : ℕ) (cs : Text) (bs : List ℕ) → encode (c ∷ cs) ≡ some bs → bs ≢ []
unfolding encode
encode-ne-nil c cs bs h = ground arith
