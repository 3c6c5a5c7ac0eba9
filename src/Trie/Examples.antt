-- ===== src/Trie/Examples.antt =====
-- Runs of AddSample, and its theorem at a concrete trie.
use jackalope.Prelude.{◌≡◌, refl, some, [], ◌∷◌}
use jackalope.Sample.{Sample, content}
use jackalope.Trie.{SampleTrie, add_sample, find_child, set_child, new_node}
use jackalope.Trie.Longest.{LongestKnown}
use jackalope.Trie.Prefixes.{accepts, is_prefix, accepts-new_node}
use jackalope.Trie.Seen.{Holds, known, add_sample_refines}

abbrev first : Sample
first = record { bytes = some (1 ∷ 2 ∷ 3 ∷ []); size = 3; filename = [] }

abbrev second : Sample
second = record { bytes = some (1 ∷ 2 ∷ 4 ∷ []); size = 3; filename = [] }

abbrev third : Sample
third = record { bytes = some (1 ∷ 2 ∷ 4 ∷ 5 ∷ []); size = 4; filename = [] }

abbrev one_sample : SampleTrie
one_sample = some (new_node (1 ∷ 2 ∷ 3 ∷ []))

third_differs_at_three : (add_sample (add_sample one_sample second).1 third).0 ≡ 3
unfolding add_sample find_child set_child
third_differs_at_three = refl

one_sample-Holds : Holds one_sample (content first ∷ [])
unfolding known accepts is_prefix
one_sample-Holds [] = refl
one_sample-Holds (x ∷ p) = accepts-new_node (content first) (x ∷ p)

add_sample_refines_example :
    Holds (add_sample one_sample second).1 (content second ∷ content first ∷ [])
    × LongestKnown (known (content first ∷ [])) (content second) (add_sample one_sample second).0
add_sample_refines_example =
    add_sample_refines one_sample second (content first ∷ []) refl one_sample-Holds
