-- ===== src/Grammar/Examples.antt =====
-- Runs of the grammar's encoder and decoder, and their theorems at concrete trees.
use jackalope.Prelude.{
  ℕ, ◌+◌, ◌^◌, ◌≡◌, ◌≢◌, refl, some, [], ◌∷◌, ◌++◌, Bool, true, ltb, leb, if◌then◌else◌, length,
  take, arith,
}
use jackalope.Prelude.Memory.{Bytes, store_le}
use jackalope.Sample.{Sample, content, new_sample, done}
use jackalope.Grammar.Binary.{
  Reader, new_reader, ok, failed, length_error, out_of_fuel, read_string,
}
use jackalope.Grammar.Reader.{Ahead, moved, read_string_cases}
use jackalope.Grammar.Tree.{TreeNode, node, nil, cons, string_type, symbol_type, to_string}
use jackalope.Grammar.Encode.{encode_sample, sample_bytes, tree_bytes}
use jackalope.Grammar.Decode.{decode_sample}
use jackalope.Grammar.RoundTrip.{decode_sample-encode_sample}
use jackalope.Grammar.Termination.{decode_sample-ne-out_of_fuel}
use jackalope.Grammar.Filter.{output_filter, output_filter-encode_sample}

-- <root> = a<b>, and <b> is empty.
abbrev small_tree : TreeNode
small_tree =
    node symbol_type (b'r' ∷ [])
      (cons (node string_type (b'a' ∷ []) nil) (cons (node symbol_type (b'b' ∷ []) nil) nil))

abbrev every_symbol : Bytes → Bool
every_symbol _ = true

small_tree-text : to_string small_tree ≡ b'a' ∷ []
unfolding to_string
small_tree-text = refl

small_tree-size : length (sample_bytes small_tree) ≡ 63
unfolding tree_bytes to_string store_le
small_tree-size = refl

decode_sample-encode_sample_example :
    (s : Sample) × (encode_sample small_tree new_sample ≡ some s)
    × (r : Reader) × (decode_sample every_symbol s ≡ ok small_tree r)
decode_sample-encode_sample_example =
    decode_sample-encode_sample every_symbol small_tree new_sample
      (omega arith, refl, ((omega arith, refl, tt), ((omega arith, refl, tt), tt)))
      (rw small_tree-size (omega arith))

output_filter-encode_sample_example :
    (s : Sample) × (encode_sample small_tree new_sample ≡ some s)
    × (o : Sample) × (output_filter s new_sample ≡ done o)
    × (content o ≡ to_string small_tree)
output_filter-encode_sample_example =
    output_filter-encode_sample small_tree new_sample new_sample (rw small_tree-size (omega arith))

decode_sample-ne-out_of_fuel_example :
    decode_sample every_symbol (record { bytes = some (1 ∷ 2 ∷ []); size = 2; filename = [] })
    ≢ out_of_fuel
decode_sample-ne-out_of_fuel_example =
    decode_sample-ne-out_of_fuel every_symbol
      (record { bytes = some (1 ∷ 2 ∷ []); size = 2; filename = [] }) (omega arith)

-- A stored size of 2^64 - 8, with one byte behind it.
abbrev huge : ℕ
huge = 0xffff_ffff_ffff_fff8

abbrev crafted : Bytes
crafted = 0xf8 ∷ 255 ∷ 255 ∷ 255 ∷ 255 ∷ 255 ∷ 255 ∷ 255 ∷ 7 ∷ []

crafted-Ahead : Ahead (new_reader crafted) (store_le 8 huge ++ (7 ∷ []))
unfolding store_le
crafted-Ahead = record { rest = refl; inside = refl; whole = refl; small = omega arith }

read_string_cases_example : read_string (new_reader crafted) ≡ (
    if leb huge 1
    then ok (take huge (7 ∷ [])) (moved (moved (new_reader crafted) 8) huge)
    else if ltb (0 + 8 + huge) (2 ^ 64)
    then failed
    else length_error)
read_string_cases_example =
    read_string_cases (new_reader crafted) huge (7 ∷ []) (omega arith) crafted-Ahead
