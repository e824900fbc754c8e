-- ===== src/LockableSlice/Examples.antt =====
-- Runs of lockable_slice.go at concrete slices.
use hedera_sdk_go.Prelude.{ℕ, refl, [], ◌∷◌, some, none, true, false}
use hedera_sdk_go.LockableSlice.{LockableSlice}
use hedera_sdk_go.LockableSlice.Locking.{lock, pushes, advances as moves, run, Kept, run_locked}

abbrev three : LockableSlice ℕ
three = record { slice = some 7 ∷ none ∷ some 9 ∷ []; locked = false; index = 2 }

abbrev three_locked : LockableSlice ℕ
three_locked = record three { locked = true }

run_locked_example : Kept three_locked (run (moves ∷ pushes (some 1 ∷ []) ∷ lock ∷ []) three_locked)
run_locked_example =
    run_locked (moves ∷ pushes (some 1 ∷ []) ∷ lock ∷ []) three_locked refl
      ((λ h. h), ((λ h. h), ((λ h. h), tt)))
