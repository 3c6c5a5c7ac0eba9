-- ===== src/Sample/Storage.antt =====
-- Samples that are kept on disk (-keep_samples_in_memory=0).
use jackalope.Prelude.{
  ℕ, ◌≡◌, refl, sym, ap, ◌∙◌, ◌≢◌, inl, inr, some, [], ◌∷◌, ◌==◌, length, take_all, Bool-cases,
  arith,
}
use jackalope.Prelude.Memory.{Bytes, read_block_lem}
use jackalope.Sample.{
  Sample, Files, done, content, IsValid, save_bytes, load, free_memory, ensure_loaded,
}

-- A valid sample is written whole.
pub save_bytes_lem : (s : Sample) → IsValid s → save_bytes s ≡ some (content s)
unfolding save_bytes
save_bytes_lem s v =
    read_block_lem (content s) 0 s.size (omega arith)
    ∙ ap some (take_all (content s) s.size (omega arith))

eq_nil : (xs : Bytes) → length xs ≡ 0 → xs ≡ []
eq_nil [] h = refl
eq_nil (x ∷ xs) h = absurd (omega arith)

load_named :
    (fs : Files) (s : Sample) (b : Bytes)
    → s.filename ≢ []
    → fs s.filename ≡ some b
    → load fs s ≡ done (record s { bytes = some b; size = length b })
unfolding load
load_named fs s b named found = ground (arith, named)

-- A valid sample that is saved under its name and freed comes back with the same bytes and size
-- when it is next loaded, whatever else the file system holds.
pub ensure_loaded-free_memory :
    (fs : Files) (s : Sample)
    → IsValid s
    → s.filename ≢ []
    → fs s.filename ≡ save_bytes s
    → (t : Sample) × (ensure_loaded fs (free_memory s) ≡ done t)
      × (content t ≡ content s)
      × (t.size ≡ s.size)
      × (t.filename ≡ s.filename)
unfolding ensure_loaded free_memory
ensure_loaded-free_memory fs s v named kept = elim (Bool-cases (s.size == 0)) [
  | inl none_left ↦
      (free_memory s, rw none_left, sym (eq_nil (content s) (ground arith)), refl, refl)
  | inr some_left ↦ (
    record s { bytes = some (content s) },
    rw some_left (
        load_named fs (free_memory s) (content s) named (kept ∙ save_bytes_lem s v)
        ∙ ap (λ (n : ℕ). done (record s { bytes = some (content s); size = n })) v),
    refl,
    refl,
    refl,
  )
]
