-- ===== src/Id/Examples.antt =====
-- Runs of id.go at concrete texts.
use hedera_sdk_go.Prelude.{◌≡◌, refl, some}
use hedera_sdk_go.Prelude.Int.{pos}
use hedera_sdk_go.Prelude.Outcome.{ok, err, bad_format, bad_number}
use hedera_sdk_go.Prelude.Text.{codes}
use hedera_sdk_go.Id.{split_checksum, split_address, id_from_string}
use hedera_sdk_go.Strconv.{contains, split_n, atoi}

parse_with_checksum :
    id_from_string (codes "0.0.123-laujm")
    ≡ ok (record { shard = pos 0; realm = pos 0; num = pos 123; checksum = some (codes "laujm") })
unfolding id_from_string split_checksum split_address contains split_n atoi
parse_with_checksum = refl

two_parts : id_from_string (codes "0.123") ≡ err bad_format
unfolding id_from_string split_checksum split_address contains split_n atoi
two_parts = refl

four_parts : id_from_string (codes "0.0.1.23") ≡ err bad_number
unfolding id_from_string split_checksum split_address contains split_n atoi
four_parts = refl
