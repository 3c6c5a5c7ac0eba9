-- ===== src/Fuzzer/Queue.antt =====
-- fuzzer.h, `all_entries` and `sample_queue`: a pointer to an entry is its position in
-- `all_entries`, and the priority queue is a list of pointers whose top is the first greatest one.
use jackalope.Prelude.{
  ℕ, ◌+◌, Option, none, some, List, [], ◌∷◌, Bool, false, ◌==◌, if◌then◌else◌, get_elem?,
}
use jackalope.Fuzzer.Entries.{SampleQueueEntry, cmp_entry}

abbrev pub cmp_found : Option SampleQueueEntry → Option SampleQueueEntry → Bool
cmp_found (some a) (some b) = cmp_entry a b
cmp_found _ _ = false

-- CmpEntryPtrs on pointers.
abbrev pub cmp : List SampleQueueEntry → ℕ → ℕ → Bool
cmp entries p q = cmp_found (get_elem? entries p) (get_elem? entries q)

-- The greatest of `p` and the pointers of a list.
unfoldable pub greatest : List SampleQueueEntry → ℕ → List ℕ → ℕ
greatest entries p [] = p
greatest entries p (q ∷ qs) = greatest entries (if cmp entries p q then q else p) qs

abbrev pub remove : ℕ → List ℕ → List ℕ
remove p [] = []
remove p (q ∷ qs) = if p == q then qs else q ∷ remove p qs

-- `sample_queue.top()` and `sample_queue.pop()`
unfoldable pub pop_top : List SampleQueueEntry → List ℕ → Option (ℕ × List ℕ)
unfolding greatest
pop_top entries [] = none
pop_top entries (p ∷ ps) = let t = greatest entries p ps in some (t, remove t (p ∷ ps))

-- How often a pointer is in a list.
abbrev pub count : ℕ → List ℕ → ℕ
count p [] = 0
count p (q ∷ qs) = (if p == q then 1 else 0) + count p qs
