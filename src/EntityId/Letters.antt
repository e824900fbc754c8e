-- ===== src/EntityId/Letters.antt =====
-- The letters of a checksum determine its number.
use hedera_sdk_go.Prelude.{
  ℕ, ◌+◌, ◌*◌, ◌/◌, ◌%◌, ◌<◌, ◌≤◌, ◌≡◌, refl, sym, ◌∙◌, [], ◌∷◌, length, arith, All,
}
use hedera_sdk_go.EntityId.{letters, p5, m}

abbrev pub IsLetter : ℕ → Type 0
IsLetter c = (b'a' ≤ c) × (c ≤ b'z')

letters_five :
    (x : ℕ)
    → letters 5 x []
      ≡ (b'a' + x / 26 / 26 / 26 / 26 % 26)
        ∷ (b'a' + x / 26 / 26 / 26 % 26)
        ∷ (b'a' + x / 26 / 26 % 26)
        ∷ (b'a' + x / 26 % 26)
        ∷ (b'a' + x % 26)
        ∷ []
unfolding letters
letters_five x = refl

-- A checksum is five lower-case letters.
pub letters_form : (x : ℕ) → (length (letters 5 x []) ≡ 5) × All IsLetter (letters 5 x [])
letters_form x = rw letters_five (omega arith)

five_digits :
    (x y : ℕ)
    → x < p5
    → y < p5
    → x / 26 / 26 / 26 / 26 % 26 ≡ y / 26 / 26 / 26 / 26 % 26
    → x / 26 / 26 / 26 % 26 ≡ y / 26 / 26 / 26 % 26
    → x / 26 / 26 % 26 ≡ y / 26 / 26 % 26
    → x / 26 % 26 ≡ y / 26 % 26
    → x % 26 ≡ y % 26
    → x ≡ y
five_digits x y hx hy a b c d e = omega arith

pub letters_injective : (x y : ℕ) → x < p5 → y < p5 → letters 5 x [] ≡ letters 5 y [] → x ≡ y
letters_injective x y hx hy e =
    let e' = sym (letters_five x) ∙ e ∙ letters_five y in
    five_digits x y hx hy (ground arith) (ground arith) (ground arith) (ground arith) (ground arith)

pub times_m_injective : (x y : ℕ) → x < p5 → y < p5 → x * m % p5 ≡ y * m % p5 → x ≡ y
times_m_injective x y hx hy e = omega arith
