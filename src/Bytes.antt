-- ===== src/Bytes.antt =====
-- What common/protocol.py uses of the standard library on byte strings: `struct` with the formats
-- "!I", "!H", "!B" (big endian), and the UTF-8 codec. A byte string is a list of numbers.
pub mod Utf8
use vpnself.Prelude.{
  ℕ, ◌+◌, ◌*◌, ◌/◌, ◌%◌, ◌^◌, ◌<◌, ◌≡◌, refl, Option, none, some, List, [], ◌∷◌, if◌then◌else◌, ltb,
  arith, All, length,
}

abbrev pub IsByte : ℕ → Type 0
IsByte b = b < 256

abbrev pub IsU32 : ℕ → Type 0
IsU32 n = n < 2 ^ 32

abbrev pub IsU16 : ℕ → Type 0
IsU16 n = n < 2 ^ 16

abbrev pub be32 : ℕ → List ℕ
be32 n = (n / 2 ^ 24 % 256) ∷ (n / 2 ^ 16 % 256) ∷ (n / 256 % 256) ∷ (n % 256) ∷ []

abbrev pub be16 : ℕ → List ℕ
be16 n = (n / 256 % 256) ∷ (n % 256) ∷ []

-- `struct.pack("!I", n)`; `none` is `struct.error`, for a number that does not fit.
abbrev pub pack_u32 : ℕ → Option (List ℕ)
pack_u32 n = if ltb n (2 ^ 32) then some (be32 n) else none

abbrev pub pack_u16 : ℕ → Option (List ℕ)
pack_u16 n = if ltb n (2 ^ 16) then some (be16 n) else none

abbrev pub join4 : ℕ → ℕ → ℕ → ℕ → ℕ
join4 a b c d = a * 2 ^ 24 + b * 2 ^ 16 + c * 256 + d

-- `struct.unpack("!H", data)`; `none` is `struct.error`, for data that is not two bytes long.
abbrev pub unpack_u16 : List ℕ → Option ℕ
unpack_u16 (a ∷ b ∷ []) = some (a * 256 + b)
unpack_u16 _ = none

pub join4-be32 :
    (n : ℕ) → IsU32 n → join4 (n / 2 ^ 24 % 256) (n / 2 ^ 16 % 256) (n / 256 % 256) (n % 256) ≡ n
join4-be32 n h = omega arith

pub unpack_u16-be16 : (n : ℕ) → IsU16 n → unpack_u16 (be16 n) ≡ some n
unpack_u16-be16 n h = let e : n / 256 % 256 * 256 + n % 256 ≡ n = omega arith in rw e
