-- ===== src/Grammar/Filter.antt =====
-- main.cpp, GrammarFuzzer::OutputFilter: the target gets the text of a sample, not its tree.
use jackalope.Prelude.{
  ℕ, ◌+◌, ◌%◌, ◌^◌, ◌<◌, ◌≡◌, refl, sym, ap, ◌∙◌, Option, none, some, ◌++◌, ltb, if◌then◌else◌,
  length, take, drop, length-append, append_assoc, take-append_length, drop-append_length, le→ltb,
  arith,
}
use jackalope.Prelude.Memory.{
  Bytes, store_le, load_le, read_block, read_block_lem, length-store_le, load_le-store_le,
}
use jackalope.Sample.{Sample, content, IsValid, init, Outcome, done, fatal, out_of_bounds}
use jackalope.Sample.Contents.{init_lem}
use jackalope.Grammar.Writer.{string_bytes}
use jackalope.Grammar.Tree.{TreeNode, to_string}
use jackalope.Grammar.Encode.{tree_bytes, sample_bytes, encode_sample, encode_sample_lem}

abbrev or_out_of_bounds : Option Sample → Outcome Sample
or_out_of_bounds none = out_of_bounds
or_out_of_bounds (some s) = done s

-- The filter past the read of the size; the sum of sizes wraps at 64 bits.
abbrev filter_sized : Sample → Sample → ℕ → Outcome Sample
filter_sized original output string_size =
    if ltb original.size ((string_size + 8) % 2 ^ 64)
    then fatal
    else or_out_of_bounds (init output (drop 8 (content original)) string_size)

-- GrammarFuzzer::OutputFilter(original_sample, output_sample)
unfoldable pub output_filter : Sample → Sample → Outcome Sample
output_filter original output = elim (read_block (content original) 0 8) [
  | none ↦ out_of_bounds
  | some b ↦ filter_sized original output (load_le b)
]

-- The filter on a sample that starts with a stored string.
output_filter_stored :
    (s output : Sample) (str tail : Bytes)
    → content s ≡ string_bytes str ++ tail
    → IsValid s
    → s.size < 2 ^ 64
    → output_filter s output ≡ done (record output { bytes = some str; size = length str })
unfolding output_filter
output_filter_stored s output str tail c v h =
    let c' : content s ≡ store_le 8 (length str) ++ (str ++ tail) =
      c ∙ append_assoc (store_le 8 (length str)) str tail in
    let long : length (content s) ≡ 8 + length str + length tail = omega (
      arith,
      ap length c',
      length-append (store_le 8 (length str)) (str ++ tail),
      length-append str tail,
      length-store_le 8 (length str),
    ) in
    let head : read_block (content s) 0 8 ≡ some (store_le 8 (length str)) =
      read_block_lem (content s) 0 8 (omega arith)
      ∙ ap some (
          ap (take 8) c'
          ∙ take-append_length (store_le 8 (length str)) (str ++ tail) 8
              (sym (length-store_le 8 (length str)))) in
    let n : load_le (store_le 8 (length str)) ≡ length str =
      load_le-store_le 8 (length str) (omega arith) in
    let e : (length str + 8) % 2 ^ 64 ≡ length str + 8 = omega arith in
    let after : drop 8 (content s) ≡ str ++ tail =
      ap (drop 8) c'
      ∙ drop-append_length (store_le 8 (length str)) (str ++ tail) 8
          (sym (length-store_le 8 (length str))) in
    let copy : init output (str ++ tail) (length str)
        ≡ some (record output { bytes = some str; size = length str }) =
      init_lem output (str ++ tail) (length str) (omega (arith, length-append str tail))
      ∙ ap (λ b. some (record output { bytes = some b; size = length str }))
          (take-append_length str tail (length str) refl) in
    rw (head, output_filter, n, e, le→ltb s.size (length str + 8) (omega arith), after, copy)

-- The target gets exactly the text of the tree that was encoded.
pub output_filter-encode_sample :
    (t : TreeNode) (sample output : Sample)
    → length (sample_bytes t) < 2 ^ 64
    → (s : Sample) × (encode_sample t sample ≡ some s)
      × (o : Sample) × (output_filter s output ≡ done o)
      × (content o ≡ to_string t)
unfolding output_filter
output_filter-encode_sample t sample output h =
    let (s, e, c, v) = encode_sample_lem t sample in
    (
      s,
      e,
      record output { bytes = some (to_string t); size = length (to_string t) },
      output_filter_stored s output (to_string t) (tree_bytes t) c v (rw (sym v, c) h),
      refl,
    )
