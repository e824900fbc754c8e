-- ===== src/LockableSlice/Locking.antt =====
-- What the lock and the index of lockable_slice.go promise over whole histories of calls.
use hedera_sdk_go.Prelude.{
  ℕ, ◌+◌, ◌<◌, ◌≤◌, ◌≡◌, ◌≢◌, refl, ◌∙◌, true, false, List, [], ◌∷◌, ◌++◌, Option, none, some,
  arith, length, All, get_elem?, get_elem?_in, get_elem?_out, get_elem?-append_last,
  get_elem?-set_self, inl, inr, ==_iff, ◌⊎◌,
}
use hedera_sdk_go.Prelude
use mathlib.Core.Path.{subst}
use native.Mathlib.Decide.{ℕ_discrete, dec_lt}
use hedera_sdk_go.Prelude.Outcome.{Outcome, ok, err, panic, locked_slice, out_of_range, ◌>>=◌}
use hedera_sdk_go.LockableSlice.{
  LockableSlice, set_locked, set_slice, push, clear, get, assign, set, set_if_absent, advance,
  get_current,
}

-- A call on the slice; the calls that only read are left out.
pub data Call (A : Type 0) : Type 0 where
  lock : Call A
  unlock : Call A
  sets_slice : List (Option A) → Call A
  pushes : List (Option A) → Call A
  clears : Call A
  sets : ℕ → Option A → Call A
  sets_if_absent : ℕ → Option A → Call A
  advances : Call A

module _ {A : Type 0} where
  pub step : Call A → LockableSlice A → Outcome (LockableSlice A)
  step lock s = ok (set_locked true s)
  step unlock s = ok (set_locked false s)
  step (sets_slice items) s = set_slice items s
  step (pushes items) s = push items s
  step clears s = clear s
  step (sets i a) s = set i a s
  step (sets_if_absent i a) s = set_if_absent i a s
  step advances s = ok (advance s).0

  pub run : List (Call A) → LockableSlice A → Outcome (LockableSlice A)
  run [] s = ok s
  run (c ∷ cs) s = step c s >>= run cs

  abbrev pub IsUnlock : Call A → Type 0
  IsUnlock unlock = Unit
  IsUnlock _ = ⊥

  -- The outcome keeps the items and the lock, or it is the panic of a locked slice.
  abbrev pub Kept : LockableSlice A → Outcome (LockableSlice A) → Type 0
  Kept s (ok t) = (t.slice ≡ s.slice) × (t.locked ≡ true)
  Kept s (err e) = ⊥
  Kept s (panic p) = p ≡ locked_slice

  step_locked :
      (c : Call A) (s : LockableSlice A) → s.locked ≡ true → ¬ IsUnlock c → Kept s (step c s)
  unfolding step set_locked set_slice push clear set set_if_absent advance
  step_locked lock s h k = (refl, refl)
  step_locked unlock s h k = absurd (k tt)
  step_locked (sets_slice items) s h k = ground arith
  step_locked (pushes items) s h k = ground arith
  step_locked clears s h k = ground arith
  step_locked (sets i a) s h k = ground arith
  step_locked (sets_if_absent i a) s h k = ground arith
  step_locked advances s h k = ground arith

  Kept-bind :
      (s : LockableSlice A) (m : Outcome (LockableSlice A))
      (f : LockableSlice A → Outcome (LockableSlice A))
      → Kept s m
      → ((t : LockableSlice A) → t.locked ≡ true → Kept t (f t))
      → Kept s (m >>= f)
  Kept-bind s (ok t) f h g = after (f t) (g t h.1)
    where
      after : (r : Outcome (LockableSlice A)) → Kept t r → Kept s r
      after (ok u) k = (k.0 ∙ h.0, k.1)
      after (err e) k = k
      after (panic p) k = k
  Kept-bind s (err e) f h g = elim h [ ]
  Kept-bind s (panic p) f h g = h

  -- However many calls follow, none of them an unlock, the items of a locked slice stay as they
  -- are and it stays locked, or the history stops in the panic of a locked slice.
  pub run_locked :
      (cs : List (Call A)) (s : LockableSlice A)
      → s.locked ≡ true
      → All (λ c. ¬ IsUnlock c) cs
      → Kept s (run cs s)
  unfolding run
  run_locked [] s h _ = (refl, h)
  run_locked (c ∷ cs) s h (k, ks) =
      Kept-bind s (step c s) (run cs) (step_locked c s h k) (λ t u. run_locked cs t u ks)

  pub get-some :
      (i : ℕ) (a : Option A) (s : LockableSlice A) → get_elem? s.slice i ≡ some a → get i s ≡ ok a
  unfolding get
  get-some i a s e = rw (e, get)

  get-none :
      (i : ℕ) (s : LockableSlice A) → get_elem? s.slice i ≡ none → get i s ≡ panic out_of_range
  unfolding get
  get-none i s e = rw (e, get)

  assign-some :
      (i : ℕ) (a b : Option A) (s : LockableSlice A)
      → get_elem? s.slice i ≡ some b
      → assign i a s ≡ ok (record s { slice = Prelude.set s.slice i a })
  unfolding assign
  assign-some i a b s e = rw (e, assign)

  assign-none :
      (i : ℕ) (a : Option A) (s : LockableSlice A)
      → get_elem? s.slice i ≡ none
      → assign i a s ≡ panic out_of_range
  unfolding assign
  assign-none i a s e = rw (e, assign)

  set_at_end :
      (a : Option A) (s : LockableSlice A)
      → s.locked ≡ false
      → set (length s.slice) a s ≡ ok (record s { slice = s.slice ++ a ∷ [] })
  unfolding set
  set_at_end a s h = rw (h, set) (rw ((==_iff (length s.slice) (length s.slice)).1 refl) refl)

  set_elsewhere :
      (i : ℕ) (a : Option A) (s : LockableSlice A)
      → s.locked ≡ false
      → length s.slice ≢ i
      → set i a s ≡ assign i a s
  unfolding set
  set_elsewhere i a s h ne = ground arith

  pub set_in_range :
      (i : ℕ) (a : Option A) (s : LockableSlice A)
      → s.locked ≡ false
      → i < length s.slice
      → set i a s ≡ ok (record s { slice = Prelude.set s.slice i a })
  set_in_range i a s h lt =
      let (b, e) = get_elem?_in s.slice i lt in
      set_elsewhere i a s h (λ e. omega arith) ∙ assign-some i a b s e

  -- What a write at index i does to an unlocked slice: up to the length it succeeds, the item
  -- reads back and the index stays; past the length it panics.
  abbrev pub Written : ℕ → Option A → LockableSlice A → Type 0
  Written i a s =
      ((i ≤ length s.slice)
        × ((t : LockableSlice A) × (set i a s ≡ ok t) × (get i t ≡ ok a) × (t.index ≡ s.index)))
      ⊎ ((length s.slice < i) × (set i a s ≡ panic out_of_range))

  -- An unlocked slice takes a write at an index up to its length, keeps its own index, and gives
  -- the item back when it is read there; a write past the length panics.
  pub get-set : (i : ℕ) (a : Option A) (s : LockableSlice A) → s.locked ≡ false → Written i a s
  get-set i a s h = elim (ℕ_discrete (length s.slice) i) [
    | yes e ↦
        subst (λ j. Written j a s) e
          (inl (
            omega arith,
            (
              record s { slice = s.slice ++ a ∷ [] },
              set_at_end a s h,
              get-some _ a _ (get_elem?-append_last s.slice a),
              refl,
            ),
          ))
    | no ne ↦ elim (dec_lt i (length s.slice)) [
      | yes lt ↦
          let (b, e) = get_elem?_in s.slice i lt in
          inl (
            omega arith,
            (
              record s { slice = Prelude.set s.slice i a },
              set_elsewhere i a s h ne ∙ assign-some i a b s e,
              get-some i a _ (get_elem?-set_self s.slice i a lt),
              refl,
            ),
          )
      | no ge ↦ inr (
        omega arith,
        set_elsewhere i a s h ne ∙ assign-none i a s (get_elem?_out s.slice i (omega arith)),
      )
    ]
  ]

  -- `_Clear` keeps the index. After a move past the first item, clearing an unlocked slice,
  -- pushing one item and locking, as `SetTransactionID` does, leaves a slice whose current item
  -- cannot be read.
  pub clear_keeps_index :
      (a : Option A) (s : LockableSlice A)
      → s.locked ≡ false
      → 0 < s.index
      → (t : LockableSlice A) × (run (clears ∷ pushes (a ∷ []) ∷ lock ∷ []) s ≡ ok t)
        × (get_current t ≡ panic out_of_range)
  unfolding run step clear push set_locked get_current
  clear_keeps_index a s h k =
      let t : LockableSlice A = record s { slice = a ∷ []; locked = true } in
      (t, ground arith, get-none s.index t (get_elem?_out (a ∷ []) s.index (omega arith)))
