-- ===== src/TransactionId/RoundTrip.antt =====
-- What transaction_id.go reads back from the text of a transaction id.
use hedera_sdk_go.Prelude.{
  ℕ, ◌+◌, ◌^◌, ◌<◌, ◌≤◌, ◌≡◌, ◌≢◌, refl, ap, ◌∙◌, Bool, true, false, [], ◌∷◌, ◌++◌, Option, none,
  some, arith, All, All-append, append-nil, append_assoc,
}
use hedera_sdk_go.Prelude.Int.{ℤ, pos, negsuc, ◌+ℤ◌, IsInt64, pos_part, neg_part}
use hedera_sdk_go.Prelude.Outcome.{ok}
use hedera_sdk_go.Prelude.Text.{Bytes, codes}
use hedera_sdk_go.Strconv.{format, scan_number, atoi, in_int64, cut}
use hedera_sdk_go.Strconv.Decimal.{IsDigit, format-IsDigit, scan_number-format, atoi-format}
use hedera_sdk_go.Strconv.Split.{Lacks, cut-Lacks, cut_mid}
use hedera_sdk_go.Id.{dotted}
use hedera_sdk_go.AccountId
use hedera_sdk_go.AccountId.{AccountId}
use hedera_sdk_go.AccountId.Laws.{IsNumbered, from_string-to_string_numbered}
use hedera_sdk_go.TokenId.{format_int}
use hedera_sdk_go.TransactionId.{
  time_to_protobuf, unix, scheduled_text, nonce_text, start_text, base_text, int32_of, parse_int32,
  to_string, read_base, is_scheduled, nonce_of, from_string,
}

-- The bytes of numbers and dots: none of them is '/', '?' or '@'.
abbrev IsPlain : ℕ → Type 0
IsPlain c = (b'-' ≤ c) × (c ≤ b'9') × (c ≢ b'/')

IsPlain-Lacks : (sep : ℕ) (s : Bytes) → ¬ IsPlain sep → All IsPlain s → Lacks sep s
IsPlain-Lacks sep [] n h = tt
IsPlain-Lacks sep (c ∷ s) n (h, hs) = (ground arith, IsPlain-Lacks sep s n hs)

IsDigit-IsPlain : (s : Bytes) → All IsDigit s → All IsPlain s
IsDigit-IsPlain [] h = tt
IsDigit-IsPlain (c ∷ s) (h, hs) = (omega arith, IsDigit-IsPlain s hs)

format-IsPlain : (n : ℕ) → All IsPlain (format n)
format-IsPlain n = IsDigit-IsPlain (format n) (format-IsDigit n)

format_int-IsPlain : (v : ℤ) → All IsPlain (format_int v)
unfolding format_int
format_int-IsPlain (pos n) = format-IsPlain n
format_int-IsPlain (negsuc n) = (omega arith, format-IsPlain (n + 1))

dotted-IsPlain : (a b c : ℕ) → All IsPlain (dotted a b c)
unfolding dotted
dotted-IsPlain a b c = All-append IsPlain (format a) _ (format-IsPlain a) (
  omega arith,
  All-append IsPlain (format b) _ (format-IsPlain b) (omega arith, format-IsPlain c),
)

IsDigit-Lacks_dot : (s : Bytes) → All IsDigit s → Lacks b'.' s
IsDigit-Lacks_dot [] h = tt
IsDigit-Lacks_dot (c ∷ s) (h, hs) = (omega arith, IsDigit-Lacks_dot s hs)

format_int-Lacks_dot : (v : ℤ) → Lacks b'.' (format_int v)
unfolding format_int
format_int-Lacks_dot (pos n) = IsDigit-Lacks_dot (format n) (format-IsDigit n)
format_int-Lacks_dot (negsuc n) =
    (omega arith, IsDigit-Lacks_dot (format (n + 1)) (format-IsDigit (n + 1)))

atoi-format_int : (v : ℤ) → IsInt64 v → atoi (format_int v) ≡ ok v
unfolding format_int atoi in_int64
atoi-format_int (pos n) h = atoi-format n ∙ ground arith
atoi-format_int (negsuc n) h = rw (scan_number-format (n + 1)) (ground arith)

parse_int32_digits :
    (s : Bytes) (n : ℕ)
    → All IsDigit s
    → scan_number s ≡ some n
    → parse_int32 s ≡ int32_of false (some n)
unfolding parse_int32
parse_int32_digits [] n h e = unfold scan_number in cc
parse_int32_digits (c ∷ s) n (hc, hs) e = rw (e, parse_int32) (ground arith)

nanos_read : (n : ℕ) → IsInt64 (pos n) → atoi (format n) ≡ ok (pos n)
nanos_read n h = atoi-format n ∙ ground arith

-- An int32.
abbrev pub IsInt32 : ℤ → Type 0
IsInt32 v = (pos_part v < 2 ^ 31) × (neg_part v ≤ 2 ^ 31)

parse_int32-format_int : (v : ℤ) → IsInt32 v → parse_int32 (format_int v) ≡ v
unfolding format_int parse_int32 int32_of
parse_int32-format_int (pos n) h =
    parse_int32_digits (format n) n (format-IsDigit n) (scan_number-format n) ∙ ground arith
parse_int32-format_int (negsuc n) h = rw (scan_number-format (n + 1)) (ground arith)

time_to_protobuf-lt : (t : ℤ) → (time_to_protobuf t).nanos < 1000000000
unfolding time_to_protobuf
time_to_protobuf-lt (pos n) = omega arith
time_to_protobuf-lt (negsuc n) = omega arith

unix-time_to_protobuf :
    (t : ℤ) → unix (time_to_protobuf t).seconds (pos (time_to_protobuf t).nanos) ≡ t
unfolding unix time_to_protobuf ◌+ℤ◌
unix-time_to_protobuf (pos n) = ground arith
unix-time_to_protobuf (negsuc n) = ground arith

cut-nonce_text :
    (s : Bytes) (nonce : Option ℤ)
    → Lacks b'/' s
    → cut b'/' (s ++ nonce_text nonce)
      ≡ (s, elim nonce [ none ↦ none | some v ↦ some (format_int v) ])
cut-nonce_text s none h = rw (append-nil s) (cut-Lacks b'/' s h)
cut-nonce_text s (some v) h = cut_mid b'/' s (format_int v) h

cut-scheduled_text :
    (s : Bytes) (scheduled : Bool)
    → Lacks b'?' s
    → is_scheduled (cut b'?' (s ++ scheduled_text scheduled)).1 ≡ scheduled
cut-scheduled_text s true h = rw (cut_mid b'?' s (codes "scheduled") h) refl
cut-scheduled_text s false h = rw (append-nil s, cut-Lacks b'?' s h) refl

cut_base :
    (s : Bytes) (scheduled : Bool) → Lacks b'?' s → (cut b'?' (s ++ scheduled_text scheduled)).0 ≡ s
cut_base s true h = rw (cut_mid b'?' s (codes "scheduled") h) refl
cut_base s false h = rw (append-nil s, cut-Lacks b'?' s h) refl

-- The nonce is an int32, where there is one.
abbrev pub FitsInt32 : Option ℤ → Type 0
FitsInt32 none = Unit
FitsInt32 (some v) = IsInt32 v

nonce_of-format_int :
    (nonce : Option ℤ)
    → FitsInt32 nonce
    → nonce_of (elim nonce [ none ↦ none | some v ↦ some (format_int v) ]) ≡ nonce
nonce_of-format_int none h = refl
nonce_of-format_int (some v) h = ap some (parse_int32-format_int v h)

start_text-IsPlain : (start : ℤ) → All IsPlain (start_text (time_to_protobuf start))
start_text-IsPlain start =
    All-append IsPlain (format_int (time_to_protobuf start).seconds) _
      (format_int-IsPlain (time_to_protobuf start).seconds)
      (omega arith, format-IsPlain (time_to_protobuf start).nanos)

module _ {Key : Type 0} (public_key_from_string : Bytes → Option Key) where
  read_base_text :
      (text : Bytes) (account : AccountId Key) (start : ℤ) (scheduled : Bool) (counter : Option ℤ)
      → Lacks b'@' text
      → AccountId.from_string public_key_from_string text ≡ ok account
      → IsInt64 (time_to_protobuf start).seconds
      → read_base public_key_from_string (base_text text start) scheduled counter
        ≡ ok (record {
          account_id = some account;
          valid_start = some start;
          scheduled = scheduled;
          nonce = counter;
        })
  unfolding read_base
  read_base_text text account start scheduled counter l e i =
      let t = time_to_protobuf start in
      let nanos : IsInt64 (pos t.nanos) = omega (arith, time_to_protobuf-lt start) in
      let halves =
        cut_mid b'.' (format_int t.seconds) (format t.nanos) (format_int-Lacks_dot t.seconds) in
      rw (cut_mid b'@' text (start_text t) l, read_base)
        (rw (cut_mid b'@' text (start_text t) l, e)
          (rw halves (
            rw halves (
              rw
                (atoi-format_int t.seconds i, nanos_read t.nanos nanos, unix-time_to_protobuf start)
                refl))))

  text-IsPlain :
      (key_string : Key → Bytes) (account : AccountId Key) (start : ℤ)
      → account.alias_key ≡ none
      → All IsPlain (AccountId.to_string key_string account)
        × (AccountId.to_string key_string account
            ≡ dotted account.shard account.realm account.account)
  unfolding AccountId.to_string
  text-IsPlain key_string account start e =
      rw e (dotted-IsPlain account.shard account.realm account.account, refl)

  base_text-Lacks :
      (sep : ℕ) (text : Bytes) (start : ℤ)
      → ¬ IsPlain sep
      → b'@' ≢ sep
      → All IsPlain text
      → Lacks sep (base_text text start)
  base_text-Lacks sep text start n at h =
      All-append _ text _ (IsPlain-Lacks sep text n h)
        (at, IsPlain-Lacks sep (start_text (time_to_protobuf start)) n (start_text-IsPlain start))

  scheduled_text-Lacks : (scheduled : Bool) → Lacks b'/' (scheduled_text scheduled)
  scheduled_text-Lacks true = omega arith
  scheduled_text-Lacks false = tt

  -- The text of a transaction id is read back as that id, but for the checksum of its account, if
  -- the account has no alias and int64 parts, `PublicKeyFromString` refuses the digits of its number,
  -- the seconds of the start are an int64, and the nonce, where there is one, is an int32; the start
  -- may lie before 1970, and the flag for scheduled ones is kept.
  pub from_string-to_string :
      (key_string : Key → Bytes) (account : AccountId Key) (start : ℤ) (scheduled : Bool)
      (nonce : Option ℤ)
      → IsNumbered account
      → public_key_from_string (format account.account) ≡ none
      → IsInt64 (time_to_protobuf start).seconds
      → FitsInt32 nonce
      → from_string public_key_from_string (
          to_string key_string (record {
            account_id = some account;
            valid_start = some start;
            scheduled = scheduled;
            nonce = nonce;
          }))
        ≡ ok (record {
          account_id = some (record account { checksum = none });
          valid_start = some start;
          scheduled = scheduled;
          nonce = nonce;
        })
  unfolding from_string to_string
  from_string-to_string key_string account start scheduled nonce h e i f =
      let text = AccountId.to_string key_string account in
      let plain = (text-IsPlain key_string account start h.no_alias).0 in
      let base = base_text text start in
      let no_mark = base_text-Lacks b'?' text start (λ p. omega arith) (λ p. omega arith) plain in
      let no_slash = base_text-Lacks b'/' text start (λ p. omega arith) (λ p. omega arith) plain in
      let front = base ++ scheduled_text scheduled in
      let halves =
        cut-nonce_text front nonce (
          All-append _ base (scheduled_text scheduled) no_slash (scheduled_text-Lacks scheduled)) in
      rw (← append_assoc base (scheduled_text scheduled) (nonce_text nonce)) (
        rw halves (
          rw
            (
              cut-scheduled_text base scheduled no_mark,
              cut_base base scheduled no_mark,
              nonce_of-format_int nonce f,
            )
            (read_base_text text (record account { checksum = none }) start scheduled nonce
              (IsPlain-Lacks b'@' text (λ p. omega arith) plain)
              (from_string-to_string_numbered key_string public_key_from_string account h e) i)))
