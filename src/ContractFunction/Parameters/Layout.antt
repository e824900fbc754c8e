-- ===== src/ContractFunction/Parameters/Layout.antt =====
-- What `_Build` makes of the arguments: a word for each, and the dynamic values behind them.
pub mod Rounds
use hedera_sdk_go.Prelude.{
  ℕ, ◌+◌, ◌-◌, ◌*◌, ◌≡◌, refl, List, [], ◌∷◌, ◌++◌, true, false, length, if◌then◌else◌, arith,
  length-append, Bool-cases, inl, inr,
}
use hedera_sdk_go.Prelude.Outcome.{◌>>=◌}
use hedera_sdk_go.Prelude.Text.{Bytes}
use hedera_sdk_go.ContractFunction.Buffers.{
  zeros, big_endian, length-zeros, length-big_endian, word_of, length-word_of,
}
use hedera_sdk_go.ContractFunction.Parameters.{Argument, build_length}

abbrev pub offset_word : ℕ → Bytes
offset_word offset = zeros 24 ++ big_endian 8 offset

-- The word of an argument, whose dynamic value would stand at `offset`.
unfoldable pub head : ℕ → Argument → Bytes
head offset a = if a.dynamic then offset_word offset else word_of a.value

-- What an argument has behind the words.
unfoldable pub tail : Argument → Bytes
tail a = if a.dynamic then a.value else []

unfoldable pub heads : ℕ → List Argument → Bytes
heads offset [] = []
heads offset (a ∷ rest) = head offset a ++ heads (offset + length (tail a)) rest

unfoldable pub tails : List Argument → Bytes
tails [] = []
tails (a ∷ rest) = tail a ++ tails rest

-- The encoding of Solidity's ABI: a word for each argument, then the dynamic values, at offsets
-- that count from the first word.
unfoldable pub encoding : List Argument → Bytes
encoding arguments = heads (length arguments * 32) arguments ++ tails arguments

pub length-head : (offset : ℕ) (a : Argument) → length (head offset a) ≡ 32
unfolding head
length-head offset a = elim (Bool-cases a.dynamic) [
  | inl e ↦ rw e (
      omega (
        arith,
        length-append {0} (zeros 24) (big_endian 8 offset),
        length-zeros 24,
        length-big_endian 8 offset,
      ))
  | inr e ↦ rw e (length-word_of a.value)
]

pub build_length-eq :
    (arguments : List Argument)
    → build_length arguments ≡ length arguments * 32 + length (tails arguments)
unfolding build_length tails tail
build_length-eq [] = omega arith
build_length-eq (a ∷ rest) = elim (Bool-cases a.dynamic) [
  | inl e ↦ rw e (omega (arith, build_length-eq rest, length-append {0} a.value (tails rest)))
  | inr e ↦ rw e (omega (arith, build_length-eq rest))
]

pub zeros_none : zeros 0 ≡ []
unfolding zeros
zeros_none = refl

module _ (offset : ℕ) (a : Argument) where
  pub head-dynamic : a.dynamic ≡ true → head offset a ≡ offset_word offset
  unfolding head
  head-dynamic e = rw e refl

  pub head-static : a.dynamic ≡ false → head offset a ≡ word_of a.value
  unfolding head
  head-static e = rw e refl

pub tail-dynamic : (a : Argument) → a.dynamic ≡ true → tail a ≡ a.value
unfolding tail
tail-dynamic a e = rw e refl

pub tail-static : (a : Argument) → a.dynamic ≡ false → tail a ≡ []
unfolding tail
tail-static a e = rw e refl
