-- ===== src/ContractFunction/Buffers/Words.antt =====
-- Big-endian words are read back as they were written.
use hedera_sdk_go.Prelude.{
  ℕ, zero, suc, ◌+◌, ◌*◌, ◌/◌, ◌%◌, ◌^◌, ◌<◌, ◌≡◌, refl, [], ◌∷◌, ◌++◌, arith,
}
use hedera_sdk_go.Prelude.Text.{Bytes}
use hedera_sdk_go.ContractFunction.Buffers.{zeros, big_endian, big_endian_value}

big_endian_value-append :
    (n : ℕ) (bs : Bytes) (b : ℕ)
    → big_endian_value n (bs ++ b ∷ []) ≡ big_endian_value n bs * 256 + b
unfolding big_endian_value
big_endian_value-append n [] b = refl
big_endian_value-append n (c ∷ bs) b = big_endian_value-append (n * 256 + c) bs b

-- A word that fits is read back.
pub big_endian_value-big_endian : (w n : ℕ) → n < 256 ^ w → big_endian_value 0 (big_endian w n) ≡ n
unfolding big_endian big_endian_value
big_endian_value-big_endian zero n h = omega arith
big_endian_value-big_endian (suc w) n h = omega (
  arith,
  big_endian_value-append 0 (big_endian w (n / 256)) (n % 256),
  big_endian_value-big_endian w (n / 256) (omega arith),
)

-- Zeros in front change no value.
pub big_endian_value-zeros :
    (k : ℕ) (bs : Bytes) → big_endian_value 0 (zeros k ++ bs) ≡ big_endian_value 0 bs
unfolding zeros big_endian_value
big_endian_value-zeros zero bs = refl
big_endian_value-zeros (suc k) bs = big_endian_value-zeros k bs
