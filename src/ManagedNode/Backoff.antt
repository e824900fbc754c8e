-- ===== src/ManagedNode/Backoff.antt =====
-- What the backoff of managed_node.go promises over histories of calls.
use hedera_sdk_go.Prelude.{
  ℕ, zero, suc, ◌-◌, ◌*◌, ◌^◌, ◌<◌, ◌≤◌, ◌≡◌, ◌∙◌, ap, refl, List, [], ◌∷◌, arith, if◌then◌else◌,
  ltb,
}
use hedera_sdk_go.Prelude.Int.{ℤ, pos, ◌+ℤ◌, ◌≤ℤ◌, ltb_ℤ}
use hedera_sdk_go.ManagedNode.{
  ManagedNode, set_min_backoff, in_use, is_healthy, increase_backoff, decrease_backoff,
}

-- The calls that a running request makes, with the time of the call.
pub data Call : Type 0 where
  uses : ℤ → Call
  increases : ℤ → Call
  decreases : Call

pub step : Call → ManagedNode → ManagedNode
step (uses now) node = in_use now node
step (increases now) node = increase_backoff now node
step decreases node = decrease_backoff node

pub run : List Call → ManagedNode → ManagedNode
run [] node = node
run (c ∷ cs) node = run cs (step c node)

-- The current backoff lies between the bounds, which are too small for its double to wrap around.
pub record IsBounded (node : ManagedNode) : Type 0 where
  pub min_nonneg : pos 0 ≤ℤ node.min_backoff
  pub min-le : node.min_backoff ≤ℤ node.current_backoff
  pub max-le : node.current_backoff ≤ℤ node.max_backoff
  pub max_small : node.max_backoff ≤ℤ pos (2 ^ 62 - 1)

pub increase_times : ℕ → ℤ → ManagedNode → ManagedNode
increase_times zero now node = node
increase_times (suc k) now node = increase_backoff now (increase_times k now node)

abbrev pub min_ℕ : ℕ → ℕ → ℕ
min_ℕ a b = if ltb b a then b else a

doubling : (b m k : ℕ) → min_ℕ (2 * min_ℕ (b * k) m) m ≡ min_ℕ (b * (2 * k)) m
doubling b m k = grind arith

increase-current :
    (now : ℤ) (b m : ℕ) (node : ManagedNode)
    → node.current_backoff ≡ pos b
    → node.max_backoff ≡ pos m
    → b < 2 ^ 62
    → (increase_backoff now node).current_backoff ≡ pos (min_ℕ (2 * b) m)
unfolding increase_backoff ◌+ℤ◌
increase-current now b m node e k h = ground arith

increase_times-max :
    (k : ℕ) (now : ℤ) (node : ManagedNode)
    → (increase_times k now node).max_backoff ≡ node.max_backoff
unfolding increase_times increase_backoff
increase_times-max zero now node = refl
increase_times-max (suc k) now node = increase_times-max k now node

two_pow : (k : ℕ) → 2 * 2 ^ k ≡ 2 ^ suc k
two_pow k = grind arith

is_healthy-increase_backoff :
    (now later : ℤ) (node : ManagedNode)
    → is_healthy later (increase_backoff now node)
      ≡ ltb_ℤ (now +ℤ (increase_backoff now node).current_backoff) later
unfolding is_healthy increase_backoff
is_healthy-increase_backoff now later node = refl

-- Each failure doubles the backoff until it reaches the maximum: after k failures in a row it is the
-- first backoff times 2^k or the maximum, the lesser of both, when the maximum is below 2^62
-- nanoseconds.
pub increase_times-current :
    (k : ℕ) (now : ℤ) (b m : ℕ) (node : ManagedNode)
    → node.current_backoff ≡ pos b
    → node.max_backoff ≡ pos m
    → b ≤ m
    → m < 2 ^ 62
    → (increase_times k now node).current_backoff ≡ pos (min_ℕ (b * 2 ^ k) m)
unfolding increase_times
increase_times-current zero now b m node e k h s = e ∙ ap pos (grind arith)
increase_times-current (suc k) now b m node e g h s =
    increase-current now (min_ℕ (b * 2 ^ k) m) m (increase_times k now node)
      (increase_times-current k now b m node e g h s) (increase_times-max k now node ∙ g)
      (ground arith)
    ∙ ap pos (doubling b m (2 ^ k) ∙ ap (λ p. min_ℕ (b * p) m) (two_pow k))

-- A node that failed k + 1 times in a row, at the last time at the given instant, is healthy again
-- exactly after that instant and the backoff together: the first backoff times 2^(k + 1) or the
-- maximum, the lesser of both, when the maximum is below 2^62 nanoseconds.
pub is_healthy-increase_times :
    (k : ℕ) (now later : ℤ) (b m : ℕ) (node : ManagedNode)
    → node.current_backoff ≡ pos b
    → node.max_backoff ≡ pos m
    → b ≤ m
    → m < 2 ^ 62
    → is_healthy later (increase_times (suc k) now node)
      ≡ ltb_ℤ (now +ℤ pos (min_ℕ (b * 2 ^ suc k) m)) later
unfolding increase_backoff increase_times
is_healthy-increase_times k now later b m node e g h s =
    is_healthy-increase_backoff now later (increase_times k now node)
    ∙ ap (λ d. ltb_ℤ (now +ℤ d) later) (increase_times-current (suc k) now b m node e g h s)

-- `_SetMinBackoff` never moves the current backoff: a node that still waits with its minimum m is
-- below its minimum once that is raised, and only the next success brings it to the new one.
pub set_min_backoff_below :
    (m d : ℕ) (node : ManagedNode)
    → node.current_backoff ≡ pos m
    → node.min_backoff ≡ pos m
    → m < d
    → ((set_min_backoff (pos d) node).current_backoff ≡ pos m)
      × ((decrease_backoff (set_min_backoff (pos d) node)).current_backoff ≡ pos d)
unfolding set_min_backoff decrease_backoff
set_min_backoff_below m d node e k h = (ground arith, ground arith)
