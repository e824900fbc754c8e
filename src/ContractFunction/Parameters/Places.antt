-- ===== src/ContractFunction/Parameters/Places.antt =====
-- Where the word and the value of each argument stand in the encoding.
use hedera_sdk_go.Prelude.{
  ℕ, ◌+◌, ◌*◌, ◌≡◌, refl, sym, ap, ◌∙◌, List, [], ◌∷◌, ◌++◌, length, arith, length-append,
  append_assoc,
}
use hedera_sdk_go.Prelude.Text.{Bytes}
use hedera_sdk_go.ContractFunction.Parameters.{Argument, build_length}
use hedera_sdk_go.ContractFunction.Parameters.Layout.{
  head, tail, heads, tails, encoding, length-head, build_length-eq,
}

pub heads-append :
    (offset : ℕ) (xs ys : List Argument)
    → heads offset (xs ++ ys) ≡ heads offset xs ++ heads (offset + length (tails xs)) ys
unfolding heads tails
heads-append offset [] ys = ap (λ o. heads o ys) (omega arith)
heads-append offset (a ∷ xs) ys =
    let next : offset + length (tail a) + length (tails xs) ≡ offset + length (tail a ++ tails xs) =
      omega (arith, length-append {0} (tail a) (tails xs)) in
    rw (heads-append (offset + length (tail a)) xs ys, next)
      (sym (append_assoc (head offset a) (heads (offset + length (tail a)) xs) _))

pub tails-append : (xs ys : List Argument) → tails (xs ++ ys) ≡ tails xs ++ tails ys
unfolding tails
tails-append [] ys = refl
tails-append (a ∷ xs) ys =
    rw (tails-append xs ys) (sym (append_assoc (tail a) (tails xs) (tails ys)))

pub length-heads : (offset : ℕ) (xs : List Argument) → length (heads offset xs) ≡ length xs * 32
unfolding heads
length-heads offset [] = omega arith
length-heads offset (a ∷ xs) = omega (
  arith,
  length-append {0} (head offset a) (heads (offset + length (tail a)) xs),
  length-head offset a,
  length-heads (offset + length (tail a)) xs,
)

-- `_Build` makes room for the whole encoding and no more.
pub length-encoding : (xs : List Argument) → length (encoding xs) ≡ build_length xs
unfolding encoding
length-encoding xs = omega (
  arith,
  length-append {0} (heads (length xs * 32) xs) (tails xs),
  length-heads (length xs * 32) xs,
  build_length-eq xs,
)

module _ (front : List Argument) (a : Argument) (rest : List Argument) where
  -- The offset of the argument behind `front`.
  abbrev pub offset_at : ℕ
  offset_at = length (front ++ a ∷ rest) * 32 + length (tails front)

  abbrev pub words_before : Bytes
  words_before = heads (length (front ++ a ∷ rest) * 32) front

  abbrev pub words_behind : Bytes
  words_behind = heads (offset_at + length (tail a)) rest

  pub encoding_parts :
      encoding (front ++ a ∷ rest)
      ≡ words_before
        ++ (head offset_at a ++ (words_behind ++ (tails front ++ (tail a ++ tails rest))))
  unfolding encoding heads tails
  encoding_parts =
      rw
        (
          heads-append (length (front ++ a ∷ rest) * 32) front (a ∷ rest),
          tails-append front (a ∷ rest),
        )
        (simp append_assoc)

  -- The argument's word stands at its index.
  pub encoding_word :
      (before : Bytes) × (behind : Bytes) × (encoding (front ++ a ∷ rest)
        ≡ before ++ (head offset_at a ++ behind))
      × (length before ≡ length front * 32)
  encoding_word = (
    words_before,
    words_behind ++ (tails front ++ (tail a ++ tails rest)),
    encoding_parts,
    length-heads (length (front ++ a ∷ rest) * 32) front,
  )

  -- Its value stands at its offset.
  pub encoding_value :
      (before : Bytes) × (behind : Bytes) × (encoding (front ++ a ∷ rest)
        ≡ before ++ (tail a ++ behind))
      × (length before ≡ offset_at)
  encoding_value = (
    words_before ++ (head offset_at a ++ (words_behind ++ tails front)),
    tails rest,
    encoding_parts ∙ simp append_assoc,
    omega (
      arith,
      length-append {0} words_before (head offset_at a ++ (words_behind ++ tails front)),
      length-append {0} (head offset_at a) (words_behind ++ tails front),
      length-append {0} words_behind (tails front),
      length-append {0} front (a ∷ rest),
      length-heads (length (front ++ a ∷ rest) * 32) front,
      length-heads (offset_at + length (tail a)) rest,
      length-head offset_at a,
    ),
  )
