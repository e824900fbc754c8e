-- ===== src/Executable/Retries.antt =====
-- The rounds of `_Execute` of executable.go as a step relation, and what the loop makes of them.
use hedera_sdk_go.Prelude.{ℕ, zero, suc, ◌+◌, ◌*◌, ◌^◌, ◌<◌, ◌≤◌, ◌≡◌, ap, ◌∙◌, List, Option, arith}
use hedera_sdk_go.Prelude.Int.{ℤ, pos, ◌+ℤ◌}
use hedera_sdk_go.Prelude.Outcome.{Error, Outcome, err}
use hedera_sdk_go.ManagedNode.{add_int64}
use hedera_sdk_go.Executable.{
  Operations, Event, Turn, continues, returns, take_turn, Run, keep_error, last_error, execute_from,
  delay_for_attempt,
}

-- What the loop carries from one round to the next.
pub record Round (S : Type 0) : Type 0 where
  pub attempt : ℕ
  pub kept : Option Error
  pub min_backoff : ℤ
  pub state : S

pow_split : (m k : ℕ) → (2 * m) * 2 ^ k ≡ m * 2 ^ suc k
pow_split m k = grind arith

pow_split-lt : (m k : ℕ) → m * 2 ^ suc k < 2 ^ 63 → (2 * m) * 2 ^ k < 2 ^ 63
pow_split-lt m k h = rw (pow_split m k) h

one_le_pow : (k : ℕ) → 1 ≤ 2 ^ k
one_le_pow zero = omega arith
one_le_pow (suc k) = let h = one_le_pow k in grind arith

doubled-lt : (m k : ℕ) → m * 2 ^ suc k < 2 ^ 63 → 2 * m < 2 ^ 63
doubled-lt m k h = let p = one_le_pow k in let q = pow_split-lt m k h in grind arith

double_small : (m : ℕ) → 2 * m < 2 ^ 63 → add_int64 (pos m) (pos m) ≡ pos (2 * m)
unfolding ◌+ℤ◌
double_small m h = ground arith

module _ {S Node Req Resp Result : Type 0} (ops : Operations S Node Req Resp Result)
    (max_backoff : ℤ) where
  abbrev pub turn_of : Round S → Turn S Node Req Result
  turn_of r = take_turn ops (delay_for_attempt r.min_backoff max_backoff r.attempt) r.state

  abbrev pub next_round : Round S → S → Option Error → Round S
  next_round r t f = record {
    attempt = suc r.attempt;
    kept = keep_error f r.kept;
    min_backoff = add_int64 r.min_backoff r.min_backoff;
    state = t;
  }

  -- k rounds that end in `continue`, one after the other.
  pub data Retries : ℕ → Round S → Round S → Type 0 where
    here : {r : Round S} → Retries 0 r r
    next :
        {k : ℕ} {r u : Round S} (events : List (Event S Node Req)) (t : S) (f : Option Error)
        → turn_of r ≡ continues events t f
        → Retries k (next_round r t f) u
        → Retries (suc k) r u

  abbrev loop : ℕ → Round S → Run ops
  loop n r = execute_from ops max_backoff n r.attempt r.kept r.min_backoff r.state

  -- How a loop of n rounds from r ends.
  pub data Ends (n : ℕ) (r : Round S) (run : Run ops) : Type 0 where
    returned :
        (k : ℕ) (u : Round S) (events : List (Event S Node Req)) (t : S) (result : Outcome Result)
        → k < n
        → Retries k r u
        → turn_of u ≡ returns events t result
        → run.result ≡ result
        → run.state ≡ t
        → run.min_backoff ≡ u.min_backoff
        → Ends n r run
    used_up :
        (u : Round S)
        → Retries n r u
        → run.result ≡ err (last_error u.kept)
        → run.state ≡ u.state
        → run.min_backoff ≡ u.min_backoff
        → Ends n r run

  abbrev rest_of : ℕ → Round S → S → Option Error → Run ops
  rest_of n r t f = loop n (next_round r t f)

  -- After k rounds that continue, the minimal backoff of the request is 2^k times what it was, as
  -- long as that fits an int64.
  pub Retries-min_backoff :
      {k : ℕ} {r u : Round S} (m : ℕ)
      → Retries k r u
      → r.min_backoff ≡ pos m
      → m * 2 ^ k < 2 ^ 63
      → (u.min_backoff ≡ pos (m * 2 ^ k)) × (u.attempt ≡ r.attempt + k)
  Retries-min_backoff m here e h = (e ∙ ap pos (grind arith), omega arith)
  Retries-min_backoff m (next {k = k} events t f e' rs) e h =
      let (b, a) =
        Retries-min_backoff (2 * m) rs
          (ap (λ d. add_int64 d d) e ∙ double_small m (doubled-lt m k h)) (pow_split-lt m k h) in
      (b ∙ ap pos (pow_split m k), a ∙ omega arith)
