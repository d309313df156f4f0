-- ===== src/Tests/Remote/Lines.antt =====
-- The lines of a file, as both clients read them.
use c_computer_networking.Prelude.{◌+◌, ◌%◌, ◌^◌, ◌≡◌, refl, some, [], ◌∷◌, ◌++◌, arith}
use c_computer_networking.Prelude.Outcome.{ok, fault, assertion}
use c_computer_networking.HashTable.Hash.{Bytes}
use c_computer_networking.Dht.Request.{set_bit}
use c_computer_networking.Movies.Text.{codes}
use c_computer_networking.Rpc.Film.{build_request}
use c_computer_networking.Rpc.Film.RoundTrip.{marshalled}
use c_computer_networking.Rpc.Csv.{read_film, strtok, read_fields}
use c_computer_networking.Rpc.Csv.Tokens.{parts_of, non_empty, film_of, read_film-film_of}
use c_computer_networking.Rpc.Marshall.{marshall_value, set}
use c_computer_networking.Rpc.Marshall.Sent.{
  tokens, zeros, surplus, marshall_value-marshalled, set-build_request,
}

abbrev key : Bytes
key = 84 ∷ []

-- a line with an empty field
abbrev with_gap : Bytes
with_gap = codes "T;A;;C"

read_film-film_of_example : read_film with_gap ≡ film_of (non_empty (parts_of with_gap))
read_film-film_of_example = read_film-film_of with_gap

read_film_test : read_film with_gap ≡ fault assertion
unfolding read_film strtok read_fields
read_film_test = refl

marshall_value-marshalled_example :
    marshall_value with_gap ≡ ok (marshalled (tokens with_gap) ++ zeros (surplus with_gap))
marshall_value-marshalled_example = marshall_value-marshalled with_gap (omega arith)

-- the empty field leaves two zeros at the end
surplus_test : surplus with_gap ≡ 2
surplus_test = refl

abbrev value : Bytes
value = codes "A;BC;D;E;F"

set-build_request_example :
    (bytes : Bytes) × (set 255 key value ≡ ok (bytes, (255 + 1) % 2 ^ 8))
    × (build_request (2 ^ set_bit) 255 key (some (tokens value)) ≡ ok bytes)
set-build_request_example = set-build_request 255 key value (omega arith) (omega arith) refl refl
