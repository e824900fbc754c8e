-- ===== src/LockableSlice/Rotation.antt =====
-- The round-robin index of lockable_slice.go.
use native.Mathlib.Nat.{mod-eq_of_lt, mod-lt, mod-add-mod, add-mod_right, add-zero}
use hedera_sdk_go.Prelude.{
  ℕ, zero, suc, ◌+◌, ◌%◌, ◌<◌, ◌≡◌, sym, ap, ◌∙◌, Option, some, arith, length, get_elem?,
  get_elem?_in,
}
use hedera_sdk_go.Prelude.Outcome.{ok}
use hedera_sdk_go.LockableSlice.{LockableSlice, advance, get_next, get}

step_mod : (i k n : ℕ) → ((i + k) % n + 1) % n ≡ (i + suc k) % n
step_mod i k n = mod-add-mod (i + k) n 1 ∙ ap (λ x. x % n) (omega arith)

module _ {ℓ} {A : Type ℓ} where
  -- The index points at an item.
  abbrev pub InRange : LockableSlice A → Type 0
  InRange s = s.index < length s.slice

  pub advances : ℕ → LockableSlice A → LockableSlice A
  advances zero s = s
  advances (suc k) s = (advance (advances k s)).0

  pub advance-InRange : (s : LockableSlice A) → InRange s → InRange (advance s).0
  unfolding advance
  advance-InRange s h = ground arith

  advance_state :
      (s : LockableSlice A)
      → InRange s
      → (advance s).0 ≡ record s { index = (s.index + 1) % length s.slice }
  unfolding advance
  advance_state s h = ground arith

  advances_state :
      (k : ℕ) (s : LockableSlice A)
      → InRange s
      → advances k s ≡ record s { index = (s.index + k) % length s.slice }
  unfolding advances advance
  advances_state zero s h =
      ap (λ i. record s { index = i })
        (sym (ap (λ i. i % length s.slice) (add-zero s.index) ∙ mod-eq_of_lt h))
  advances_state (suc k) s h = rw (advances_state k s h) (
      advance_state _ (mod-lt (s.index + k) (omega arith))
      ∙ ap (λ i. record s { index = i }) (step_mod s.index k (length s.slice)))

  -- As many steps as there are items bring the slice back to where it was.
  pub advances_full_circle : (s : LockableSlice A) → InRange s → advances (length s.slice) s ≡ s
  advances_full_circle s h =
      advances_state (length s.slice) s h
      ∙ ap (λ i. record s { index = i }) (add-mod_right s.index (length s.slice) ∙ mod-eq_of_lt h)

  get_in_range :
      (s : LockableSlice A) (i : ℕ)
      → i < length s.slice
      → (a : Option A) × (get i s ≡ ok a) × (get_elem? s.slice i ≡ some a)
  unfolding get
  get_in_range s i h = let (a, e) = get_elem?_in s.slice i h in (a, rw (e, get), e)

  get_next_lem :
      (s : LockableSlice A)
      → InRange s
      → (a : Option A) × (get_next s ≡ ok ((advance s).0, a)) × (get_elem? s.slice s.index ≡ some a)
  unfolding get_next advance
  get_next_lem s h = let (a, e) = get_elem?_in s.slice s.index h in (a, ground arith, e)

  -- From an index in range the (k + 1)-th call of `_GetNext` returns the item k places further
  -- round, and leaves the slice k + 1 places further.
  pub get_next-advances :
      (k : ℕ) (s : LockableSlice A)
      → InRange s
      → (a : Option A) × (get_next (advances k s) ≡ ok (advances (suc k) s, a))
        × (get_elem? s.slice ((s.index + k) % length s.slice) ≡ some a)
  unfolding advances advance
  get_next-advances k s h =
      rw (advances_state k s h) (get_next_lem _ (mod-lt (s.index + k) (omega arith)))
