-- ===== src/Chunks/Pieces.antt =====
-- The chunks of a message put together are the message.
use hedera_sdk_go.Prelude.{
  ℕ, zero, suc, ◌+◌, ◌-◌, ◌*◌, ◌/◌, ◌%◌, ◌^◌, ◌<◌, ◌≤◌, ◌≡◌, refl, sym, ap, ◌∙◌, true, false, List,
  [], ◌∷◌, ◌++◌, Option, some, arith, length, take, drop, map, take-append-drop, length-drop, ltb,
  ◌==◌, Bool-cases, ◌⊎◌, inl, inr,
}
use native.Mathlib.Nat.{div-add-mod, mod-lt, div-eq_of_lt, div-le_self}
use hedera_sdk_go.Prelude.Int.{ℤ, pos, ◌+ℤ◌}
use hedera_sdk_go.Prelude.Outcome.{ok, err, max_chunks_exceeded}
use hedera_sdk_go.Prelude.Text.{Bytes}
use hedera_sdk_go.Chunks.{
  Chunked, Body, Frozen, ClientView, piece_at, count_chunks, chunk_loop, freeze_chunks, nodes_for,
  init_transaction_id, file_body, file_freeze_with, topic_body, topic_loop, write_time, SharedId,
  topic_freeze_with,
}

-- n pieces from the i-th on, one behind the other.
pub pieces_from : ℕ → ℕ → ℕ → Bytes → Bytes
pieces_from size zero i contents = []
pieces_from size (suc n) i contents =
    piece_at size i contents ++ pieces_from size n (suc i) contents

take-all : (n : ℕ) (s : Bytes) → length s ≤ n → take n s ≡ s
take-all zero [] h = refl
take-all zero (c ∷ s) h = absurd (omega arith)
take-all (suc n) [] h = refl
take-all (suc n) (c ∷ s) h = ap (◌∷◌ c) (take-all n s (omega arith))

drop_nil : (n : ℕ) → drop {A = ℕ} n [] ≡ []
drop_nil zero = refl
drop_nil (suc n) = refl

drop-all : (n : ℕ) (s : Bytes) → length s ≤ n → drop n s ≡ []
drop-all zero [] h = refl
drop-all zero (c ∷ s) h = absurd (omega arith)
drop-all (suc n) [] h = refl
drop-all (suc n) (c ∷ s) h = drop-all n s (omega arith)

zero_add : (a : ℕ) → a ≡ 0 + a
zero_add a = omega arith

zero_mul : (a : ℕ) → 0 * a ≡ 0
zero_mul a = grind arith

suc_add : (a b : ℕ) → suc (b + a) ≡ suc b + a
suc_add a b = omega arith

drop-drop : (a b : ℕ) (s : Bytes) → drop a (drop b s) ≡ drop (b + a) s
drop-drop a zero s = ap (λ n. drop n s) (zero_add a)
drop-drop a (suc b) [] = drop_nil a ∙ sym (drop_nil (suc b + a))
drop-drop a (suc b) (c ∷ s) = drop-drop a b s ∙ ap (λ n. drop n (c ∷ s)) (suc_add a b)

length-take : (n : ℕ) (s : Bytes) → length (take n s) ≤ n
length-take zero s = omega arith
length-take (suc n) [] = omega arith
length-take (suc n) (c ∷ s) = omega (arith, length-take n s)

-- A piece is a full chunk from its start on, or all that is left.
piece_at-take :
    (size i : ℕ) (contents : Bytes)
    → piece_at size i contents ≡ take size (drop (i * size) contents)
unfolding piece_at
piece_at-take size i contents = elim (Bool-cases (ltb (length contents) (i * size + size))) [
  | inl e ↦ rw e (
      take-all (length contents - i * size) (drop (i * size) contents)
        (omega (arith, length-drop (i * size) contents))
      ∙ sym (
          take-all size (drop (i * size) contents)
            (ground (arith, length-drop (i * size) contents))))
  | inr e ↦ rw e (ap (λ n. take n (drop (i * size) contents)) (omega arith))
]

next_start : (size i : ℕ) → suc i * size ≡ i * size + size
next_start size i = grind arith

pieces_from-drop :
    (size n i : ℕ) (contents : Bytes)
    → length contents ≤ (i + n) * size
    → pieces_from size n i contents ≡ drop (i * size) contents
unfolding pieces_from
pieces_from-drop size zero i contents h = sym (drop-all (i * size) contents (grind arith))
pieces_from-drop size (suc n) i contents h =
    ap (λ s. s ++ pieces_from size n (suc i) contents) (piece_at-take size i contents)
    ∙ ap (take size (drop (i * size) contents) ++◌)
        (pieces_from-drop size n (suc i) contents (grind arith))
    ∙ ap (λ s. take size (drop (i * size) contents) ++ s)
        (ap (λ k. drop k contents) (next_start size i) ∙ sym (drop-drop size (i * size) contents))
    ∙ take-append-drop size (drop (i * size) contents)

-- The pieces of the message that go to the j-th node: one of each chunk.
abbrev pub pieces_of {ℓ} : {A : Type ℓ} → List (Body A) → Bytes
pieces_of [] = []
pieces_of (b ∷ bodies) = b.piece ++ pieces_of bodies

loop-pieces_of {ℓ} :
    {A : Type ℓ} (t : Chunked A) (total : ℕ) (node : A) (n i : ℕ) (start : ℤ)
    → pieces_of (chunk_loop (file_body t total) (node ∷ []) n i start).signed_transactions
      ≡ pieces_from t.chunk_size n i t.contents
unfolding chunk_loop file_body pieces_from
loop-pieces_of t total node zero i start = refl
loop-pieces_of t total node (suc n) i start =
    ap (piece_at t.chunk_size i t.contents ++◌)
      (loop-pieces_of t total node n (suc i) (start +ℤ pos 1))

-- The number of chunks.
abbrev pub ceiling : ℕ → ℕ → ℕ
ceiling size n = (n + (size - 1)) / size

ceiling-le : (size n : ℕ) → 0 < size → n ≤ ceiling size n * size
ceiling-le size n h =
    let d = div-add-mod (n + (size - 1)) size in let l = mod-lt (n + (size - 1)) h in grind arith

all_pieces_of {ℓ} :
    {A : Type ℓ} (t : Chunked A) (total : ℕ) (node : A) (start : ℤ)
    → 0 < t.chunk_size
    → pieces_of
        (chunk_loop
          (file_body t total)
          (node ∷ [])
          (ceiling t.chunk_size (length t.contents))
          0
          start).signed_transactions
      ≡ t.contents
all_pieces_of t total node start h =
    loop-pieces_of t total node (ceiling t.chunk_size (length t.contents)) 0 start
    ∙ pieces_from-drop t.chunk_size (ceiling t.chunk_size (length t.contents)) 0 t.contents
        (grind (arith, ceiling-le t.chunk_size (length t.contents) h))
    ∙ ap (λ k. drop k t.contents) (zero_mul t.chunk_size)

-- The number of chunks, where Go's sum stays in int64.
count_chunks-ceiling :
    (size : ℕ) (contents : Bytes)
    → 0 < size
    → length contents + (size - 1) < 2 ^ 63
    → count_chunks size contents ≡ ok (ceiling size (length contents))
unfolding count_chunks
count_chunks-ceiling size contents h small =
    let s : (size == 0) ≡ false = ground arith in
    let sum = length contents + (size - 1) in
    let e : sum % 2 ^ 64 ≡ sum = omega arith in
    let f : ltb sum (2 ^ 63) ≡ true = ground arith in
    let g : sum / size ≤ sum = div-le_self sum size in
    let k : (sum / size) % 2 ^ 64 ≡ sum / size = omega arith in rw s (rw e (rw f (ap ok k)))

-- A file append for one node and with a chunk size that is not 0, for which Go's sum of the length
-- and the size stays in int64, and which has a transaction id and valid ids: where its contents need
-- no more chunks than are allowed, it freezes into transactions that together carry the contents, in
-- order; where they need more it is refused.
pub file_freeze_with-pieces {ℓ} :
    {A : Type ℓ} (client : Option (ClientView A)) (t : Chunked A) (node : A) (start : ℤ)
    → t.node_account_ids ≡ node ∷ []
    → t.transaction_ids ≡ start ∷ []
    → 0 < t.chunk_size
    → length t.contents + (t.chunk_size - 1) < 2 ^ 63
    → ((ceiling t.chunk_size (length t.contents) ≤ t.max_chunks)
        × ((f : Frozen A) × (file_freeze_with false client (ok tt) t ≡ ok (some f))
            × (pieces_of f.signed_transactions ≡ t.contents)))
      ⊎ ((t.max_chunks < ceiling t.chunk_size (length t.contents))
          × (file_freeze_with false client (ok tt) t ≡ err max_chunks_exceeded))
unfolding file_freeze_with freeze_chunks nodes_for init_transaction_id
file_freeze_with-pieces client t node start e k h small =
    let c = count_chunks-ceiling t.chunk_size t.contents h small in
    elim (Bool-cases (ltb t.max_chunks (ceiling t.chunk_size (length t.contents)))) [
      | inl g ↦ inr (ground arith, rw (e, k) (rw (c, g) refl))
      | inr g ↦ inl (
        ground arith,
        (
          chunk_loop (file_body t (ceiling t.chunk_size (length t.contents))) (node ∷ [])
              (ceiling t.chunk_size (length t.contents)) 0 start,
          rw (e, k) (rw (c, g) refl),
          all_pieces_of t _ node start h,
        ),
      )
    ]

-- Where the sum leaves int64 and is nearer to 2 ^ 64 than the size, Go counts no chunk.
count_chunks_none :
    (size : ℕ) (contents : Bytes)
    → 2 ^ 63 ≤ length contents + (size - 1)
    → length contents + (size - 1) < 2 ^ 64
    → 2 ^ 64 < size + (length contents + (size - 1))
    → count_chunks size contents ≡ ok 0
unfolding count_chunks
count_chunks_none size contents high low near =
    let s : (size == 0) ≡ false = ground arith in
    let sum = length contents + (size - 1) in
    let e : sum % 2 ^ 64 ≡ sum = omega arith in
    let f : ltb sum (2 ^ 63) ≡ false = ground arith in
    let z : suc (2 ^ 64 - sum - 1) / size ≡ 0 = div-eq_of_lt (omega arith) in
    rw s (rw e (rw f (rw z refl)))

-- A file append that is not frozen and has nodes, a transaction id and valid ids, with a chunk size so great that
-- Go's sum of it and the length leaves int64 and is nearer to 2 ^ 64 than the size, freezes without
-- an error into no transactions at all, whatever its contents and the number of chunks allowed.
pub file_freeze_with_no_pieces {ℓ} :
    {A : Type ℓ} (client : Option (ClientView A)) (t : Chunked A) (node : A) (nodes : List A)
    (start : ℤ)
    → t.node_account_ids ≡ node ∷ nodes
    → t.transaction_ids ≡ start ∷ []
    → 2 ^ 63 ≤ length t.contents + (t.chunk_size - 1)
    → length t.contents + (t.chunk_size - 1) < 2 ^ 64
    → 2 ^ 64 < t.chunk_size + (length t.contents + (t.chunk_size - 1))
    → file_freeze_with false client (ok tt) t
      ≡ ok (some (record { ids = []; signed_transactions = [] }))
unfolding file_freeze_with freeze_chunks nodes_for init_transaction_id chunk_loop
file_freeze_with_no_pieces client t node nodes start e k high low near =
    let c = count_chunks_none t.chunk_size t.contents high low near in
    let g : ltb t.max_chunks 0 ≡ false = ground arith in
    let m : (length (node ∷ nodes) == 0) ≡ false = ground arith in rw (e, k) (rw (m, c, g) refl)

-- The initial transaction ids that their messages name.
abbrev pub initial_ids {ℓ} : {A : Type ℓ} → List (Body A) → List (Option ℤ)
initial_ids [] = []
initial_ids (b ∷ bodies) = b.initial_transaction_id ∷ initial_ids bodies

-- The instants from the given one on, a nanosecond apart.
abbrev pub nanoseconds_from : ℕ → ℤ → List ℤ
nanoseconds_from zero start = []
nanoseconds_from (suc n) start = start ∷ nanoseconds_from n (start +ℤ pos 1)

-- An id whose start is in cell 0.
abbrev first_cell : SharedId
first_cell = record { valid_start = 0 }

-- Both ids read what is written behind a chunk.
topic_loop-ids {ℓ} :
    {A : Type ℓ} (t : Chunked A) (total : ℕ) (node : A) (n i : ℕ) (times : ℕ → ℤ)
    → let f = topic_loop (topic_body t total) (node ∷ []) first_cell first_cell n i times in
      (f.ids ≡ nanoseconds_from n (times 0))
      × (initial_ids f.signed_transactions ≡ map some (nanoseconds_from n (times 0)))
unfolding topic_loop topic_body
topic_loop-ids t total node zero i times = (refl, refl)
topic_loop-ids t total node (suc n) i times =
    let (ids, initial) =
      topic_loop-ids t total node n (suc i) (write_time 0 (times 0 +ℤ pos 1) times) in
    (ap (◌∷◌ (times 0)) ids, ap (◌∷◌ (some (times 0))) initial)

-- What freezing comes to when its guards pass.
freeze_chunks-loop {ℓ} :
    {A : Type ℓ} (loop : ℕ → List A → ℤ → Frozen A) (client : Option (ClientView A)) (t : Chunked A)
    (node : A) (nodes : List A) (start : ℤ) (chunks : ℕ)
    → t.node_account_ids ≡ node ∷ nodes
    → t.transaction_ids ≡ start ∷ []
    → count_chunks t.chunk_size t.contents ≡ ok chunks
    → ltb t.max_chunks chunks ≡ false
    → freeze_chunks loop client (ok tt) t ≡ ok (loop chunks (node ∷ nodes) start)
unfolding freeze_chunks nodes_for init_transaction_id
freeze_chunks-loop loop client t node nodes start chunks e k c g =
    let m : (length (node ∷ nodes) == 0) ≡ false = ground arith in rw (e, k) (rw (m, c, g) refl)

-- A message for one node, which has a transaction id and valid ids and needs no more chunks of
-- 1024 bytes than are allowed, freezes into transactions with the ids that follow each other by a
-- nanosecond, and each of them names its own id as the initial one. The length of the message and
-- 1023 stay in int64.
pub topic_freeze_with-ids {ℓ} :
    {A : Type ℓ} (client : Option (ClientView A)) (t : Chunked A) (node : A) (start : ℤ)
    → t.node_account_ids ≡ node ∷ []
    → t.transaction_ids ≡ start ∷ []
    → length t.contents + 1023 < 2 ^ 63
    → ceiling 1024 (length t.contents) ≤ t.max_chunks
    → (f : Frozen A) × (topic_freeze_with client (ok tt) t ≡ ok f)
      × (f.ids ≡ nanoseconds_from (ceiling 1024 (length t.contents)) start)
      × (initial_ids f.signed_transactions ≡ map some f.ids)
unfolding topic_freeze_with
topic_freeze_with-ids client t node start e k small h =
    let u = record t { chunk_size = 1024 } in
    let n = ceiling 1024 (length t.contents) in
    let c = count_chunks-ceiling 1024 t.contents (omega arith) (omega arith) in
    let (ids, initial) = topic_loop-ids u n node n 0 (λ _. start) in
    (
      topic_loop (topic_body u n) (node ∷ []) first_cell first_cell n 0 (λ _. start),
      freeze_chunks-loop
          (λ chunks nodes begin.
            topic_loop (topic_body u chunks) nodes first_cell first_cell chunks 0 (λ _. begin))
          client u node [] start n e k c (ground arith),
      ids,
      initial ∙ ap (map some) (sym ids),
    )
