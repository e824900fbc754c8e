-- ===== src/LedgerId/RoundTrip.antt =====
-- A ledger id of ledger_id.go, printed and read back.
use hedera_sdk_go.Prelude.{
  ℕ, ◌<◌, ◌≡◌, refl, sym, ap, ◌∙◌, true, false, [], ◌∷◌, some, arith, All, Bool-cases, inl, inr,
}
use hedera_sdk_go.Prelude.Outcome.{ok}
use hedera_sdk_go.Prelude.Text.{Bytes, codes, bytes_eq, eq_of_bytes_eq}
use hedera_sdk_go.Strconv.{hex_encode, hex_decode}
use hedera_sdk_go.Strconv.Hex.{IsByte, hex_decode-hex_encode}
use hedera_sdk_go.LedgerId.{LedgerId, ledger_id_from_string, ledger_id_string}

-- No hexadecimal text begins with m, t or p.
hex_encode-ne :
    (bs t : Bytes) (c : ℕ) → All IsByte bs → b'f' < c → bytes_eq (hex_encode bs) (c ∷ t) ≡ false
unfolding hex_encode
hex_encode-ne [] t c h k = refl
hex_encode-ne (b ∷ bs) t c (hb, hs) k = ground arith

not_a_name :
    (bs : Bytes)
    → All IsByte bs
    → ledger_id_from_string (hex_encode bs) ≡ ok (record { ledger_id_bytes = bs })
unfolding ledger_id_from_string
not_a_name bs h = rw (
  hex_encode-ne bs (codes "ainnet") b'm' h (omega arith),
  hex_encode-ne bs (codes "estnet") b't' h (omega arith),
  hex_encode-ne bs (codes "reviewnet") b'p' h (omega arith),
  hex_decode-hex_encode bs h,
)

-- A ledger id whose hexadecimal text is that of one byte has that byte.
named :
    (id : LedgerId) (b : ℕ)
    → All IsByte id.ledger_id_bytes
    → b < 256
    → bytes_eq (hex_encode id.ledger_id_bytes) (hex_encode (b ∷ [])) ≡ true
    → id ≡ record { ledger_id_bytes = b ∷ [] }
named id b h k e = ground (arith, some_eq)
  where
    some_eq : some id.ledger_id_bytes ≡ some (b ∷ [])
    some_eq =
        sym (hex_decode-hex_encode id.ledger_id_bytes h)
        ∙ ap hex_decode (eq_of_bytes_eq _ _ e)
        ∙ hex_decode-hex_encode (b ∷ []) (k, tt)

from_names :
    (ledger_id_from_string (codes "mainnet") ≡ ok (record { ledger_id_bytes = 0 ∷ [] }))
    × (ledger_id_from_string (codes "testnet") ≡ ok (record { ledger_id_bytes = 1 ∷ [] }))
    × (ledger_id_from_string (codes "previewnet") ≡ ok (record { ledger_id_bytes = 2 ∷ [] }))
unfolding ledger_id_from_string
from_names = (refl, refl, refl)

-- Every ledger id is read back from its text, the named networks and all others.
pub ledger_id_from_string-ledger_id_string :
    (id : LedgerId)
    → All IsByte id.ledger_id_bytes
    → ledger_id_from_string (ledger_id_string id) ≡ ok id
unfolding ledger_id_string hex_encode
ledger_id_from_string-ledger_id_string id h =
    elim (Bool-cases (bytes_eq (hex_encode id.ledger_id_bytes) (codes "00"))) [
      | inl e ↦ rw e (from_names.0 ∙ ap ok (sym (named id 0 h (omega arith) e)))
      | inr n0 ↦ elim (Bool-cases (bytes_eq (hex_encode id.ledger_id_bytes) (codes "01"))) [
        | inl e ↦ rw (n0, e) (from_names.1 ∙ ap ok (sym (named id 1 h (omega arith) e)))
        | inr n1 ↦ elim (Bool-cases (bytes_eq (hex_encode id.ledger_id_bytes) (codes "02"))) [
          | inl e ↦ rw (n0, n1, e) (from_names.2 ∙ ap ok (sym (named id 2 h (omega arith) e)))
          | inr n2 ↦ rw (n0, n1, n2) (not_a_name id.ledger_id_bytes h)
        ]
      ]
    ]
