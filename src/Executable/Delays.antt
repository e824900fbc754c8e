-- ===== src/Executable/Delays.antt =====
-- How long `_Execute` of executable.go waits.
use hedera_sdk_go.Prelude.{
  ℕ, zero, suc, ◌+◌, ◌*◌, ◌/◌, ◌^◌, ◌<◌, ◌≡◌, refl, ap, ◌∙◌, arith, if◌then◌else◌, ltb,
}
use hedera_sdk_go.Prelude.Int.{pos}
use hedera_sdk_go.Executable.{Operations, delay_for_attempt}
use hedera_sdk_go.Executable.Retries.{Round, Retries, Retries-min_backoff}

abbrev pub lesser : ℕ → ℕ → ℕ
lesser a b = if ltb b a then b else a

square_double : (x y : ℕ) → x * x ≡ y → (2 * x) * (2 * x) ≡ 4 * y
square_double x y h = grind arith

zero_add : (k : ℕ) → 0 + k ≡ k
zero_add k = omega arith

four_pow : (k : ℕ) → 2 ^ k * 2 ^ k ≡ 4 ^ k
four_pow zero = refl
four_pow (suc k) =
    let p : 2 ^ suc k ≡ 2 * 2 ^ k = grind arith in
    let q : 4 ^ suc k ≡ 4 * 4 ^ k = grind arith in
    rw (p, q) (square_double (2 ^ k) (4 ^ k) (four_pow k))

div_million : (n : ℕ) → (1000000 * n) / 1000000 ≡ n
div_million n = omega arith

delay_for_attempt-doubled :
    (a b k : ℕ)
    → delay_for_attempt (pos (1000000 * a * 2 ^ k)) (pos (1000000 * b)) k
      ≡ pos (lesser (a * 4 ^ k) b)
unfolding delay_for_attempt
delay_for_attempt-doubled a b k =
    let e : (1000000 * a * 2 ^ k) / 1000000 ≡ a * 2 ^ k =
      ap (λ n. n / 1000000) (grind arith) ∙ div_million (a * 2 ^ k) in
    let f : a * 2 ^ k * 2 ^ k ≡ a * 4 ^ k = let h = four_pow k in grind arith in
    rw (e, div_million b, f) (ground arith)

module _ {S Node Req Resp Result : Type 0} (ops : Operations S Node Req Resp Result) where
  -- The delays grow as the powers of 4, and not of 2: with a first backoff of a milliseconds and a
  -- maximum of b, the delay of the round behind k that continue is a times 4^k, or b, the lesser of both,
  -- as long as the doubled backoff fits an int64.
  pub Retries-delay_for_attempt :
      {k : ℕ} {r u : Round S} (a b : ℕ)
      → Retries ops (pos (1000000 * b)) k r u
      → r.attempt ≡ 0
      → r.min_backoff ≡ pos (1000000 * a)
      → 1000000 * a * 2 ^ k < 2 ^ 63
      → delay_for_attempt u.min_backoff (pos (1000000 * b)) u.attempt ≡ pos (lesser (a * 4 ^ k) b)
  Retries-delay_for_attempt {k = k} a b rs z e h =
      let (m, n) = Retries-min_backoff ops (pos (1000000 * b)) (1000000 * a) rs e h in
      rw (m, n, z, zero_add k) (delay_for_attempt-doubled a b k)
