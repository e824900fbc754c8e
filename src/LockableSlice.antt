-- ===== src/LockableSlice.antt =====
-- lockable_slice.go: a slice with a lock and a round-robin index. An item is an `interface{}`, so
-- it may be nil (`none`). A method that writes to `*_LockableSlice` returns the new value; indices
-- are never negative in the callers, and an index past the end panics as Go's slices do.
pub mod Rotation
pub mod Locking
mod Examples
use hedera_sdk_go.Prelude.{
  ℕ, ◌+◌, ◌%◌, Bool, false, List, [], ◌∷◌, ◌++◌, Option, none, some, ◌==◌, if◌then◌else◌, length,
  get_elem?,
}
use hedera_sdk_go.Prelude.Outcome.{Outcome, ok, panic, locked_slice, out_of_range, ◌>>=◌, ◌>>◌}
use hedera_sdk_go.Prelude

pub record LockableSlice {ℓ} (A : Type ℓ) : Type ℓ where
  pub slice : List (Option A)
  pub locked : Bool
  pub index : ℕ

module _ {ℓ} {A : Type ℓ} where
  unfoldable pub new : LockableSlice A
  new = record { slice = []; locked = false; index = 0 }

  unfoldable pub require_not_locked : LockableSlice A → Outcome (Unit {0})
  require_not_locked s = if s.locked then panic locked_slice else ok tt

  unfoldable pub set_locked : Bool → LockableSlice A → LockableSlice A
  set_locked b s = record s { locked = b }

  unfoldable pub set_slice : List (Option A) → LockableSlice A → Outcome (LockableSlice A)
  unfolding require_not_locked
  set_slice items s = do require_not_locked s; ok (record s { slice = items; index = 0 })

  unfoldable pub push : List (Option A) → LockableSlice A → Outcome (LockableSlice A)
  unfolding require_not_locked
  push items s = do require_not_locked s; ok (record s { slice = s.slice ++ items })

  -- The index stays where it was.
  unfoldable pub clear : LockableSlice A → Outcome (LockableSlice A)
  unfolding require_not_locked
  clear s = do require_not_locked s; ok (record s { slice = [] })

  unfoldable pub get : ℕ → LockableSlice A → Outcome (Option A)
  get i s = elim (get_elem? s.slice i) [ none ↦ panic out_of_range | some a ↦ ok a ]

  -- `this.slice[index] = item`
  unfoldable pub assign : ℕ → Option A → LockableSlice A → Outcome (LockableSlice A)
  assign i a s = elim (get_elem? s.slice i) [
    | none ↦ panic out_of_range
    | some _ ↦ ok (record s { slice = Prelude.set s.slice i a })
  ]

  unfoldable pub set : ℕ → Option A → LockableSlice A → Outcome (LockableSlice A)
  unfolding require_not_locked assign
  set i a s = do
    require_not_locked s
    if length s.slice == i then ok (record s { slice = s.slice ++ a ∷ [] }) else assign i a s

  -- What `_SetIfAbsent` does with the item that stands at the index, none at the end.
  fill : ℕ → Option A → LockableSlice A → Option A → Outcome (LockableSlice A)
  fill i a s none = set i a s
  fill i a s (some _) = ok s

  -- `||` is lazy, so `this.slice[index]` is read only where the slice is not of that length.
  unfoldable pub set_if_absent : ℕ → Option A → LockableSlice A → Outcome (LockableSlice A)
  unfolding require_not_locked get fill
  set_if_absent i a s = do
    require_not_locked s
    old ← if length s.slice == i then ok none else get i s
    fill i a s old

  unfoldable pub advance : LockableSlice A → LockableSlice A × ℕ
  advance s = (
    if length s.slice == 0 then s else record s { index = (s.index + 1) % length s.slice },
    s.index,
  )

  unfoldable pub get_next : LockableSlice A → Outcome (LockableSlice A × Option A)
  unfolding advance get
  get_next s = get (advance s).1 (advance s).0 >>= λ a. ok ((advance s).0, a)

  unfoldable pub get_current : LockableSlice A → Outcome (Option A)
  unfolding get
  get_current s = get s.index s

  unfoldable pub is_empty : LockableSlice A → Bool
  is_empty s = length s.slice == 0

  unfoldable pub slice_length : LockableSlice A → ℕ
  slice_length s = length s.slice
