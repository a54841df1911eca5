-- ===== src/BinaryFormat/Packing.antt =====
-- Numbers of two and of four bytes.
use faststream.Prelude.{ℕ, ◌≡◌, arith, [], ◌∷◌, ◌/◌, ◌%◌, ◌*◌, ◌+◌}
use faststream.Exceptions.{ok}
use faststream.Text.{Bytes}
use faststream.BinaryFormat.{pack_short, pack_int}

-- A packed number has two bytes, and unpacks to itself.
pub pack_short-bytes :
    (n : ℕ) (bs : Bytes)
    → pack_short n ≡ ok bs
    → (a : ℕ) × (b : ℕ) × (bs ≡ a ∷ b ∷ []) × (a * 256 + b ≡ n)
unfolding pack_short
pack_short-bytes n bs h = (n / 256, n % 256, ground arith, omega arith)

pub pack_int-bytes :
    (n : ℕ) (bs : Bytes)
    → pack_int n ≡ ok bs
    → (a : ℕ) × (b : ℕ) × (c : ℕ) × (d : ℕ) × (bs ≡ a ∷ b ∷ c ∷ d ∷ [])
      × (a * 16777216 + b * 65536 + c * 256 + d ≡ n)
unfolding pack_int
pack_int-bytes n bs h =
    (n / 16777216, (n / 65536) % 256, (n / 256) % 256, n % 256, ground arith, omega arith)
