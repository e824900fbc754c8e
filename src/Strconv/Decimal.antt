-- ===== src/Strconv/Decimal.antt =====
-- Reading back what `format` prints.
use hedera_sdk_go.Prelude.{
  ℕ, zero, suc, ◌+◌, ◌-◌, ◌*◌, ◌/◌, ◌%◌, ◌^◌, ◌<◌, ◌≤◌, ◌≡◌, ◌≢◌, refl, ◌∙◌, [], ◌∷◌, some, arith,
  All, ltb, if◌then◌else◌,
}
use native.Mathlib.Decide.{dec_lt}
use hedera_sdk_go.Prelude.Int.{pos}
use hedera_sdk_go.Prelude.Outcome.{ok, err, bad_number}
use hedera_sdk_go.Prelude.Text.{Bytes}
use hedera_sdk_go.Strconv.{digits, format, scan, scan_number, parse_uint, atoi}

abbrev pub IsDigit : ℕ → Type 0
IsDigit c = (b'0' ≤ c) × (c ≤ b'9')

scan_step : (m c : ℕ) (s : Bytes) → IsDigit c → scan m (c ∷ s) ≡ scan (m * 10 + (c - b'0')) s
unfolding scan
scan_step m c s h = ground arith

scan-digits : (f n : ℕ) (out : Bytes) → n ≤ f → scan 0 (digits f n out) ≡ scan n out
unfolding digits
scan-digits zero n out h = ground arith
scan-digits (suc f) n out h =
    ground (
      arith,
      scan-digits f (n / 10) ((b'0' + n % 10) ∷ out),
      scan_step (n / 10) (b'0' + n % 10) out,
    )

digits-IsDigit : (f n : ℕ) (out : Bytes) → All IsDigit out → All IsDigit (digits f n out)
unfolding digits
digits-IsDigit zero n out h = h
digits-IsDigit (suc f) n out h = ground (arith, digits-IsDigit f (n / 10) ((b'0' + n % 10) ∷ out))

-- A printed number consists of digits.
pub format-IsDigit : (n : ℕ) → All IsDigit (format n)
unfolding format
format-IsDigit n = ground (arith, digits-IsDigit n n [])

digits-ne-nil : (f n : ℕ) (out : Bytes) → out ≢ [] → digits f n out ≢ []
unfolding digits
digits-ne-nil zero n out h = h
digits-ne-nil (suc f) n out h = ground (arith, digits-ne-nil f (n / 10) ((b'0' + n % 10) ∷ out))

digits_ne : (f n : ℕ) → 0 < n → n ≤ f → digits f n [] ≢ []
unfolding digits
digits_ne zero n h k = absurd (omega arith)
digits_ne (suc f) n h k = ground (arith, digits-ne-nil f (n / 10) ((b'0' + n % 10) ∷ []))

pub format-ne-nil : (n : ℕ) → format n ≢ []
unfolding format
format-ne-nil n = ground (arith, digits_ne n n)

scan_number-scan : (s : Bytes) → s ≢ [] → scan_number s ≡ scan 0 s
unfolding scan_number
scan_number-scan [] h = absurd (h refl)
scan_number-scan (c ∷ s) h = refl

scan-format : (n : ℕ) → scan 0 (format n) ≡ some n
unfolding format scan
scan-format n = ground (arith, scan-digits n n [])

pub scan_number-format : (n : ℕ) → scan_number (format n) ≡ some n
scan_number-format n = scan_number-scan _ (format-ne-nil n) ∙ scan-format n

pub parse_uint-format : (n : ℕ) → n < 2 ^ 64 → parse_uint (format n) ≡ ok n
unfolding parse_uint
parse_uint-format n h = rw (scan_number-format n, parse_uint) (ground arith)

atoi_digits :
    (s : Bytes) (n : ℕ)
    → All IsDigit s
    → scan_number s ≡ some n
    → atoi s ≡ (if ltb n (2 ^ 63) then ok (pos n) else err bad_number)
unfolding atoi
atoi_digits [] n h e = unfold scan_number in cc
atoi_digits (c ∷ s) n (hc, hs) e = rw (e, atoi) (ground arith)

-- A printed number is read back if it is an int64, and is refused if it is not.
pub atoi-format :
    (n : ℕ) → atoi (format n) ≡ (if ltb n (2 ^ 63) then ok (pos n) else err bad_number)
atoi-format n = atoi_digits (format n) n (format-IsDigit n) (scan_number-format n)

digits_zero : (f : ℕ) (out : Bytes) → digits f 0 out ≡ out
unfolding digits
digits_zero zero out = refl
digits_zero (suc f) out = refl

digits_head :
    (f n : ℕ) (out : Bytes)
    → 0 < n
    → n ≤ f
    → (c : ℕ) × (s : Bytes) × (digits f n out ≡ c ∷ s) × (b'1' ≤ c) × (c ≤ b'9')
unfolding digits
digits_head zero n out h k = absurd (omega arith)
digits_head (suc f) n out h k = elim (dec_lt n 10) [
  | yes small ↦ (
    b'0' + n % 10,
    out,
    ground (arith, digits_zero f ((b'0' + n % 10) ∷ out), zero_tenth n small),
    omega arith,
    omega arith,
  )
  | no large ↦
      let (c, s, e, lo, hi) =
        digits_head f (n / 10) ((b'0' + n % 10) ∷ out) (omega arith) (omega arith) in
      (c, s, ground (arith, e), lo, hi)
]
  where
    zero_tenth : (n : ℕ) → n < 10 → n / 10 ≡ 0
    zero_tenth n h = omega arith

-- The print of a positive number begins with a digit that is not 0.
pub format_head :
    (n : ℕ) → 0 < n → (c : ℕ) × (s : Bytes) × (format n ≡ c ∷ s) × (b'1' ≤ c) × (c ≤ b'9')
unfolding format
format_head n h =
    let (c, s, e, lo, hi) = digits_head n n [] h (omega arith) in (c, s, ground (arith, e), lo, hi)

pub format-zero : format 0 ≡ b'0' ∷ []
unfolding format
format-zero = refl
