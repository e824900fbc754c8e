-- ===== src/Prelude/Text.antt =====
-- Texts as lists of bytes.
use Prim.Native.Char.{code}
use Prim.Native.Nat.{ℕ}
use Prim.Native.String.{String}
use mathlib.Core.List.{List, [], ◌∷◌}
use mathlib.Core.Path.{◌≡◌, refl}
use mathlib.Core.Bool.{Bool, true, false, ◌&&◌}
use native.Mathlib.Omega.{arith}
use hedera_sdk_go.Prelude.Tests.{◌==◌}

abbrev pub Bytes : Type 0
Bytes = List ℕ

-- The code points of a literal, which are its bytes when it is ASCII.
abbrev pub codes : String → Bytes
codes String.[] = []
codes (String.◌∷◌ c s) = code c ∷ codes s

-- `==` on strings.
abbrev pub bytes_eq : Bytes → Bytes → Bool
bytes_eq [] [] = true
bytes_eq [] (d ∷ t) = false
bytes_eq (c ∷ s) [] = false
bytes_eq (c ∷ s) (d ∷ t) = c == d && bytes_eq s t

pub bytes_eq_self : (s : Bytes) → bytes_eq s s ≡ true
bytes_eq_self [] = refl
bytes_eq_self (c ∷ s) = ground (arith, bytes_eq_self s)

pub eq_of_bytes_eq : (s t : Bytes) → bytes_eq s t ≡ true → s ≡ t
eq_of_bytes_eq [] [] h = refl
eq_of_bytes_eq [] (d ∷ t) h = cc
eq_of_bytes_eq (c ∷ s) [] h = cc
eq_of_bytes_eq (c ∷ s) (d ∷ t) h = ground (arith, eq_of_bytes_eq s t)
