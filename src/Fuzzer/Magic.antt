-- ===== src/Fuzzer/Magic.antt =====
-- fuzzer.cpp, MagicOutputFilter.
use jackalope.Prelude.{
  suc, ◌≤◌, ◌≡◌, refl, ap, ◌∙◌, inl, inr, Option, none, some, [], ◌∷◌, ◌&&◌, leb, le→leb,
  if◌then◌else◌, length, take, drop, Bool-cases, arith,
}
use jackalope.Prelude.Memory.{Bytes}
use jackalope.Sample.{Sample, content, IsValid}
use jackalope.Crashes.{same}
use jackalope.Crashes.Kept.{same-eq}

-- The loop that writes the magic bytes, up to the end of the sample.
unfoldable pub write_magic : Bytes → Bytes → Bytes
write_magic [] bytes = bytes
write_magic (m ∷ magic) [] = []
write_magic (m ∷ magic) (c ∷ bytes) = m ∷ write_magic magic bytes

-- MagicOutputFilter: the output sample, or `none` for the return value false.
unfoldable pub magic_output_filter : Bytes → Sample → Option Sample
unfolding write_magic
magic_output_filter magic s =
    if leb (length magic) s.size && same (take (length magic) (content s)) magic
    then none
    else some (record s { bytes = some (write_magic magic (content s)) })

-- The sample that is delivered: the output of the filter, or the original.
abbrev pub delivered : Option Sample → Sample → Sample
delivered none s = s
delivered (some t) s = t

take-write_magic :
    (magic bytes : Bytes)
    → length magic ≤ length bytes
    → take (length magic) (write_magic magic bytes) ≡ magic
unfolding write_magic
take-write_magic [] bytes h = refl
take-write_magic (m ∷ magic) [] h = absurd (omega arith)
take-write_magic (m ∷ magic) (c ∷ bytes) h =
    ap (λ b. m ∷ b) (take-write_magic magic bytes (omega arith))

drop-write_magic :
    (magic bytes : Bytes)
    → drop (length magic) (write_magic magic bytes) ≡ drop (length magic) bytes
unfolding write_magic
drop-write_magic [] bytes = refl
drop-write_magic (m ∷ magic) [] = refl
drop-write_magic (m ∷ magic) (c ∷ bytes) = drop-write_magic magic bytes

length-write_magic : (magic bytes : Bytes) → length (write_magic magic bytes) ≡ length bytes
unfolding write_magic
length-write_magic [] bytes = refl
length-write_magic (m ∷ magic) [] = refl
length-write_magic (m ∷ magic) (c ∷ bytes) = ap suc (length-write_magic magic bytes)

-- A valid sample that is no shorter than the magic bytes is delivered with these at its start and
-- with its other bytes as they were, and what is delivered is valid.
pub delivered-magic_output_filter :
    (magic : Bytes) (s : Sample)
    → IsValid s
    → length magic ≤ s.size
    → (take (length magic) (content (delivered (magic_output_filter magic s) s)) ≡ magic)
      × (drop (length magic) (content (delivered (magic_output_filter magic s) s))
          ≡ drop (length magic) (content s))
      × IsValid (delivered (magic_output_filter magic s) s)
unfolding magic_output_filter
delivered-magic_output_filter magic s v h =
    let long = le→leb (length magic) s.size h in
    elim (Bool-cases (same (take (length magic) (content s)) magic)) [
      | inl there ↦
          rw (long, there) (same-eq (take (length magic) (content s)) magic there, refl, v)
      | inr other ↦
          rw (long, other)
            (
              take-write_magic magic (content s) (omega arith),
              drop-write_magic magic (content s),
              length-write_magic magic (content s) ∙ v,
            )
    ]
