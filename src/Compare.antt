-- ===== src/Compare.antt =====
-- The comparisons of the entity ids: the result -1, 0 or 1 of a Go `Compare`, and the order that
-- comparing fields one after the other gives.
use hedera_sdk_go.Prelude.Text.{bytes_eq}
use hedera_sdk_go.Prelude.{true, ℕ, ◌≡◌, refl, List, [], ◌∷◌, ltb, if◌then◌else◌, arith}

-- -1, 0 and 1.
pub data Comparison : Type 0 where
  less equal greater : Comparison

-- `if a > b { return 1 } else if a < b { return -1 }`, and then the next comparison.
abbrev pub compare_then : ℕ → ℕ → Comparison → Comparison
compare_then a b next = if ltb b a then greater else if ltb a b then less else next

-- The result of one comparison, or the next one where it is 0.
abbrev pub then_compare : Comparison → Comparison → Comparison
then_compare less next = less
then_compare equal next = next
then_compare greater next = greater

abbrev pub flip : Comparison → Comparison
flip less = greater
flip equal = equal
flip greater = less

-- `s > t` and `s < t` on strings, byte by byte.
unfoldable pub compare_bytes : List ℕ → List ℕ → Comparison
compare_bytes [] [] = equal
compare_bytes [] (d ∷ t) = less
compare_bytes (c ∷ s) [] = greater
compare_bytes (c ∷ s) (d ∷ t) =
    let rest = compare_bytes s t in if ltb d c then greater else if ltb c d then less else rest

pub compare_bytes-flip : (s t : List ℕ) → compare_bytes t s ≡ flip (compare_bytes s t)
unfolding compare_bytes
compare_bytes-flip [] [] = refl
compare_bytes-flip [] (d ∷ t) = refl
compare_bytes-flip (c ∷ s) [] = refl
compare_bytes-flip (c ∷ s) (d ∷ t) = ground (arith, compare_bytes-flip s t)

pub compare_bytes_self : (s : List ℕ) → compare_bytes s s ≡ equal
unfolding compare_bytes
compare_bytes_self [] = refl
compare_bytes_self (c ∷ s) = ground (arith, compare_bytes_self s)

pub eq_of_compare_bytes : (s t : List ℕ) → compare_bytes s t ≡ equal → bytes_eq s t ≡ true
unfolding compare_bytes
eq_of_compare_bytes [] [] h = refl
eq_of_compare_bytes [] (d ∷ t) h = cc
eq_of_compare_bytes (c ∷ s) [] h = cc
eq_of_compare_bytes (c ∷ s) (d ∷ t) h = ground (arith, eq_of_compare_bytes s t)
