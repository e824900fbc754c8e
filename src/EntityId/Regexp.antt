-- ===== src/EntityId/Regexp.antt =====
-- The regular expression of `_ChecksumParseAddress` in entity_id.go,
-- (0|(?:[1-9]\d*))\.(0|(?:[1-9]\d*))\.(0|(?:[1-9]\d*))(?:-([a-z]{5}))?$
-- as Go's regexp reads it: the leftmost match, with no anchor at the front. A group of digits is
-- followed by a '.', a '-' or the end, so it is a longest run, and no other choice can match.
use hedera_sdk_go.Prelude.{ℕ, Bool, ◌&&◌, [], ◌∷◌, Option, none, some, leb, ◌==◌, if◌then◌else◌}
use hedera_sdk_go.Prelude.Text.{Bytes}
use hedera_sdk_go.Strconv.{is_digit}

-- The three numbers and the checksum, which is empty where its group takes no part.
pub record Match : Type 0 where
  pub num1 : Bytes
  pub num2 : Bytes
  pub num3 : Bytes
  pub checksum : Bytes

infixl 5 ◌>>=◌
abbrev ◌>>=◌ {ℓ κ} : {A : Type ℓ} {B : Type κ} → Option A → (A → Option B) → Option B
none >>= f = none
some a >>= f = f a

-- `\d*`
unfoldable pub digit_run : Bytes → Bytes × Bytes
digit_run [] = ([], [])
digit_run (c ∷ s) =
    let rest = digit_run s in if is_digit c then (c ∷ rest.0, rest.1) else ([], c ∷ s)

-- `(0|(?:[1-9]\d*))`
unfoldable pub match_number : Bytes → Option (Bytes × Bytes)
unfolding digit_run
match_number [] = none
match_number (c ∷ s) =
    if c == b'0'
    then some (c ∷ [], s)
    else if is_digit c
    then some (c ∷ (digit_run s).0, (digit_run s).1)
    else none

unfoldable pub match_dot : Bytes → Option Bytes
match_dot [] = none
match_dot (c ∷ s) = if c == b'.' then some s else none

abbrev is_lower : ℕ → Bool
is_lower c = leb b'a' c && leb c b'z'

-- `(?:-([a-z]{5}))?$`
unfoldable pub match_tail : Bytes → Option Bytes
match_tail [] = some []
match_tail (c ∷ d ∷ e ∷ f ∷ g ∷ h ∷ []) =
    if c == b'-' && is_lower d && is_lower e && is_lower f && is_lower g && is_lower h
    then some (d ∷ e ∷ f ∷ g ∷ h ∷ [])
    else none
match_tail _ = none

-- A match that begins here.
unfoldable pub match_address : Bytes → Option Match
unfolding match_number match_dot match_tail
match_address s = do
  first ← match_number s
  s1 ← match_dot first.1
  second ← match_number s1
  s2 ← match_dot second.1
  third ← match_number s2
  checksum ← match_tail third.1
  some (record { num1 = first.0; num2 = second.0; num3 = third.0; checksum = checksum })

-- `match.FindStringSubmatch(address)`
unfoldable pub find_address : Bytes → Option Match
unfolding match_address
find_address [] = match_address []
find_address (c ∷ s) = elim (match_address (c ∷ s)) [ some a ↦ some a | none ↦ find_address s ]
