-- ===== src/Strconv/Hex.antt =====
-- Reading back what `hex_encode` prints.
use hedera_sdk_go.Prelude.{ℕ, ◌*◌, ◌/◌, ◌%◌, ◌<◌, ◌≡◌, refl, [], ◌∷◌, some, arith, All, length}
use hedera_sdk_go.Prelude.Text.{Bytes}
use hedera_sdk_go.Strconv.{hex_digit, hex_value, hex_encode, hex_decode}

abbrev pub IsByte : ℕ → Type 0
IsByte b = b < 256

hex_value-hex_digit : (d : ℕ) → d < 16 → hex_value (hex_digit d) ≡ some d
hex_value-hex_digit d h = ground arith

-- `hex.DecodeString` undoes `hex.EncodeToString`.
pub hex_decode-hex_encode : (bs : Bytes) → All IsByte bs → hex_decode (hex_encode bs) ≡ some bs
unfolding hex_encode hex_decode
hex_decode-hex_encode [] h = refl
hex_decode-hex_encode (b ∷ bs) (hb, hs) =
    rw (hex_value-hex_digit (b / 16) (omega arith), hex_decode)
      (rw (hex_value-hex_digit (b % 16) (omega arith))
        (rw (hex_decode-hex_encode bs hs) (ground arith)))

pub length-hex_encode : (bs : Bytes) → length (hex_encode bs) ≡ 2 * length bs
unfolding hex_encode
length-hex_encode [] = refl
length-hex_encode (b ∷ bs) = omega (arith, length-hex_encode bs)
