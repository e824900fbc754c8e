-- ===== src/Strconv/Split.antt =====
-- Splitting at a separator that the first part lacks.
use hedera_sdk_go.Prelude.{
  ℕ, zero, suc, ◌≡◌, ◌≢◌, refl, true, false, [], ◌∷◌, ◌++◌, none, some, arith, All,
}
use hedera_sdk_go.Prelude.Text.{Bytes}
use hedera_sdk_go.Strconv.{contains, cut, split_n}

abbrev pub Lacks : ℕ → Bytes → Type 0
Lacks b = All (λ c. c ≢ b)

pub contains-Lacks : (sep : ℕ) (s : Bytes) → Lacks sep s → contains sep s ≡ false
unfolding contains
contains-Lacks sep [] h = refl
contains-Lacks sep (c ∷ s) (hc, hs) = ground (arith, contains-Lacks sep s hs)

pub contains_mid : (sep : ℕ) (p rest : Bytes) → contains sep (p ++ sep ∷ rest) ≡ true
unfolding contains
contains_mid sep [] rest = ground arith
contains_mid sep (c ∷ p) rest = ground (arith, contains_mid sep p rest)

pub cut-Lacks : (sep : ℕ) (s : Bytes) → Lacks sep s → cut sep s ≡ (s, none)
unfolding cut
cut-Lacks sep [] h = refl
cut-Lacks sep (c ∷ s) (hc, hs) = ground (arith, cut-Lacks sep s hs)

pub cut_mid : (sep : ℕ) (p rest : Bytes) → Lacks sep p → cut sep (p ++ sep ∷ rest) ≡ (p, some rest)
unfolding cut
cut_mid sep [] rest h = ground arith
cut_mid sep (c ∷ p) rest (hc, hs) = ground (arith, cut_mid sep p rest hs)

pub split_n_mid :
    (sep n : ℕ) (p rest : Bytes)
    → Lacks sep p
    → split_n sep (suc (suc n)) (p ++ sep ∷ rest) ≡ p ∷ split_n sep (suc n) rest
unfolding split_n
split_n_mid sep n p rest h = rw (cut_mid sep p rest h, split_n) (rw (cut_mid sep p rest h))

pub split_n-Lacks : (sep n : ℕ) (s : Bytes) → Lacks sep s → split_n sep (suc n) s ≡ s ∷ []
unfolding split_n
split_n-Lacks sep zero s h = refl
split_n-Lacks sep (suc n) s h = rw (cut-Lacks sep s h, split_n) (rw (cut-Lacks sep s h))
