-- ===== src/Prelude/Outcome.antt =====
-- The outcome of a Go call: a result, an error value, or a panic. An error keeps its kind and not
-- its text.

use mathlib.Core.Path.{◌≡◌, refl, subst}

pub data Error : Type 0 where
  bad_number bad_hex bad_length bad_format bad_checksum_status checksum_missing : Error
  checksum_mismatch has_alias network_name_missing no_address unknown_network : Error
  close_failed invalid_node no_client no_client_or_transaction_id : Error
  no_client_or_transaction_id_or_node_id not_frozen max_chunks_exceeded no_operator : Error
  bad_key unknown_word grpc_failed bad_status attempts_exhausted bodies_differ : Error
  non_exhaustive unknown_body max_query_payment_exceeded : Error

pub data Panic : Type 0 where
  locked_slice out_of_range nil_pointer no_healthy_node not_one_node wrong_format divide_by_zero :
      Panic
  negative_backoff backoffs_out_of_order function_name_missing : Panic

pub data Outcome {ℓ} (A : Type ℓ) : Type ℓ where
  ok : A → Outcome A
  err : Error → Outcome A
  panic : Panic → Outcome A

infixl 5 ◌>>=◌ ◌>>◌
abbrev pub ◌>>=◌ {ℓ κ} : {A : Type ℓ} {B : Type κ} → Outcome A → (A → Outcome B) → Outcome B
ok a >>= f = f a
err e >>= f = err e
panic p >>= f = panic p

abbrev pub ◌>>◌ {ℓ} : {B : Type ℓ} → Outcome (Unit {0}) → Outcome B → Outcome B
m >> k = m >>= λ _. k

-- What a result satisfies, where there is one.
abbrev pub IfOk {ℓ κ} : {A : Type ℓ} → (A → Type κ) → Outcome A → Type κ
IfOk P (ok a) = P a
IfOk P (err e) = Unit
IfOk P (panic p) = Unit

pub IfOk-bind {ℓ κ μ} :
    {A : Type ℓ} {B : Type κ} (P : B → Type μ) (m : Outcome A) (f : A → Outcome B)
    → ((a : A) → m ≡ ok a → IfOk P (f a))
    → IfOk P (m >>= f)
IfOk-bind P (ok a) f h = h a refl
IfOk-bind P (err e) f h = tt
IfOk-bind P (panic p) f h = tt

pub IfOk-eq {ℓ κ} :
    {A : Type ℓ} (P : A → Type κ) (m : Outcome A) {a : A} → IfOk P m → m ≡ ok a → P a
IfOk-eq P (ok b) h e = subst P (cc) h
IfOk-eq P (err x) h e = cc
IfOk-eq P (panic x) h e = cc

-- Inversion of a step that succeeds.
pub >>=-eq_ok {ℓ κ} :
    {A : Type ℓ} {B : Type κ} (m : Outcome A) (f : A → Outcome B) {b : B}
    → (m >>= f) ≡ ok b
    → (a : A) × (m ≡ ok a) × (f a ≡ ok b)
>>=-eq_ok (ok a) f h = (a, refl, h)
>>=-eq_ok (err e) f h = cc
>>=-eq_ok (panic p) f h = cc

pub IfOk-mono {ℓ κ μ} :
    {A : Type ℓ} (P : A → Type κ) (Q : A → Type μ) (m : Outcome A)
    → ((a : A) → P a → Q a)
    → IfOk P m
    → IfOk Q m
IfOk-mono P Q (ok a) k h = k a h
IfOk-mono P Q (err e) k h = tt
IfOk-mono P Q (panic p) k h = tt

-- What holds of a first result is handed on to the next.
pub IfOk-chain {ℓ κ μ ν} :
    {A : Type ℓ} {B : Type κ} (P : A → Type μ) (Q : B → Type ν) (m : Outcome A) (f : A → Outcome B)
    → IfOk P m
    → ((a : A) → P a → IfOk Q (f a))
    → IfOk Q (m >>= f)
IfOk-chain P Q (ok a) f h k = k a h
IfOk-chain P Q (err e) f h k = tt
IfOk-chain P Q (panic p) f h k = tt
