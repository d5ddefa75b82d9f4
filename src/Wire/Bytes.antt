-- ===== src/Wire/Bytes.antt =====
-- Big-endian words: `to_be_bytes` and `from_be_bytes` of u16, u32, u64 and i32, and byte slices.
use hla4_rs.Prelude.{ℕ, ◌+◌, ◌*◌, ◌/◌, ◌%◌, ◌^◌, ◌<◌, ◌≡◌, List, [], ◌∷◌, ◌++◌, arith, length, All}
use hla4_rs.Prelude.Int.{ℤ, to_bits, of_bits, Fits, of_bits-to_bits, to_bits-lt, to_bits-of_bits}

abbrev pub IsByte : ℕ → Type 0
IsByte b = b < 256

abbrev pub half32 : ℕ
half32 = 2 ^ 31

abbrev pub IsI32 : ℤ → Type 0
IsI32 z = Fits half32 z

abbrev pub be16 : ℕ → List ℕ
be16 n = n / 0x100 % 256 ∷ n % 256 ∷ []

abbrev pub be32 : ℕ → List ℕ
be32 n = n / 0x1000000 % 256 ∷ n / 0x10000 % 256 ∷ n / 0x100 % 256 ∷ n % 256 ∷ []

abbrev pub be64 : ℕ → List ℕ
be64 n = be32 (n / 0x100000000) ++ be32 n

abbrev pub i32_be : ℤ → List ℕ
i32_be z = be32 (to_bits half32 z)

-- The value of a byte string, most significant byte first.
abbrev pub from_be : ℕ → List ℕ → ℕ
from_be acc [] = acc
from_be acc (b ∷ bs) = from_be (acc * 256 + b) bs

abbrev pub from_be_bytes : List ℕ → ℕ
from_be_bytes bs = from_be 0 bs

abbrev pub i32_from_be_bytes : List ℕ → ℤ
i32_from_be_bytes bs = of_bits half32 (from_be_bytes bs)

pub from_be_bytes-be16 : (n : ℕ) → n < 2 ^ 16 → from_be_bytes (be16 n) ≡ n
from_be_bytes-be16 n h = omega arith

pub from_be_bytes-be32 : (n : ℕ) → n < 2 ^ 32 → from_be_bytes (be32 n) ≡ n
from_be_bytes-be32 n h = omega arith

pub from_be_bytes-be64 : (n : ℕ) → n < 2 ^ 64 → from_be_bytes (be64 n) ≡ n
from_be_bytes-be64 n h = omega arith

pub i32_from_be_bytes-i32_be : (z : ℤ) → IsI32 z → i32_from_be_bytes (i32_be z) ≡ z
i32_from_be_bytes-i32_be z h =
    rw (from_be_bytes-be32 (to_bits half32 z) (to_bits-lt half32 z (omega arith) h))
      (of_bits-to_bits half32 z h)

pub be32-from_be_bytes :
    (bs : List ℕ) → length bs ≡ 4 → All IsByte bs → be32 (from_be_bytes bs) ≡ bs
be32-from_be_bytes (a ∷ b ∷ c ∷ d ∷ []) l h = ground arith
be32-from_be_bytes _ l h = absurd (omega arith)

pub from_be_bytes-lt_be32 :
    (bs : List ℕ) → length bs ≡ 4 → All IsByte bs → from_be_bytes bs < 2 ^ 32
from_be_bytes-lt_be32 (a ∷ b ∷ c ∷ d ∷ []) l h = omega arith
from_be_bytes-lt_be32 _ l h = absurd (omega arith)

pub i32_be-i32_from_be_bytes :
    (bs : List ℕ) → length bs ≡ 4 → All IsByte bs → i32_be (i32_from_be_bytes bs) ≡ bs
i32_be-i32_from_be_bytes bs l h =
    rw (to_bits-of_bits half32 (from_be_bytes bs) (from_be_bytes-lt_be32 bs l h))
      (be32-from_be_bytes bs l h)

pub from_be_bytes-lt_be64 :
    (bs : List ℕ) → length bs ≡ 8 → All IsByte bs → from_be_bytes bs < 2 ^ 64
from_be_bytes-lt_be64 (a ∷ b ∷ c ∷ d ∷ e ∷ f ∷ g ∷ h ∷ []) l x = omega arith
from_be_bytes-lt_be64 _ l x = absurd (omega arith)

pub be64-from_be_bytes :
    (bs : List ℕ) → length bs ≡ 8 → All IsByte bs → be64 (from_be_bytes bs) ≡ bs
be64-from_be_bytes (a ∷ b ∷ c ∷ d ∷ e ∷ f ∷ g ∷ h ∷ []) l x = ground arith
be64-from_be_bytes _ l x = absurd (omega arith)

pub be16-from_be_bytes :
    (bs : List ℕ) → length bs ≡ 2 → All IsByte bs → be16 (from_be_bytes bs) ≡ bs
be16-from_be_bytes (a ∷ b ∷ []) l x = ground arith
be16-from_be_bytes _ l x = absurd (omega arith)
