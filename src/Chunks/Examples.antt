-- ===== src/Chunks/Examples.antt =====
-- Freezing of messages in chunks at concrete values.
use hedera_sdk_go.Prelude.{
  ℕ, ◌≡◌, ◌≤◌, ◌<◌, ◌⊎◌, refl, [], ◌∷◌, some, none, false, arith, map, length,
}
use hedera_sdk_go.Prelude.Int.{pos, ◌+ℤ◌}
use hedera_sdk_go.Prelude.Outcome.{ok, err, max_chunks_exceeded}
use hedera_sdk_go.Prelude.Text.{codes}
use hedera_sdk_go.ContractFunction.Buffers.{zeros, length-zeros}
use hedera_sdk_go.Chunks.{Chunked, Frozen, file_freeze_with, topic_freeze_with}
use hedera_sdk_go.Chunks.Pieces.{
  pieces_of, ceiling, file_freeze_with-pieces, nanoseconds_from, initial_ids, topic_freeze_with-ids,
}

abbrev message : Chunked ℕ
message = record {
  node_account_ids = 3 ∷ [];
  transaction_ids = pos 100 ∷ [];
  contents = codes "hello, hedera";
  chunk_size = 5;
  max_chunks = 20;
}

file_freeze_with-pieces_example :
    ((ceiling 5 13 ≤ 20)
      × ((f : Frozen ℕ) × (file_freeze_with false none (ok tt) message ≡ ok (some f))
          × (pieces_of f.signed_transactions ≡ codes "hello, hedera")))
    ⊎ ((20 < ceiling 5 13)
        × (file_freeze_with false none (ok tt) message ≡ err max_chunks_exceeded))
file_freeze_with-pieces_example =
    file_freeze_with-pieces none message 3 (pos 100) refl refl (omega arith) (omega arith)

-- A message of two chunks.
abbrev long_message : Chunked ℕ
long_message = record message { contents = zeros 1030 }

length-long_message : length long_message.contents ≡ 1030
length-long_message = length-zeros 1030

topic_freeze_with-ids_example :
    (f : Frozen ℕ) × (topic_freeze_with none (ok tt) long_message ≡ ok f)
    × (f.ids ≡ nanoseconds_from (ceiling 1024 (length long_message.contents)) (pos 100))
    × (initial_ids f.signed_transactions ≡ map some f.ids)
topic_freeze_with-ids_example =
    topic_freeze_with-ids none long_message 3 (pos 100) refl refl
      (omega (arith, length-long_message)) (ground (arith, length-long_message))

two_ids : nanoseconds_from (ceiling 1024 1030) (pos 100) ≡ pos 100 ∷ pos 101 ∷ []
unfolding ◌+ℤ◌
two_ids = refl
