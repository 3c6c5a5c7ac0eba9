-- ===== src/Mutators/Deterministic/Rounds.antt =====
-- The rounds of the deterministic stage: how many there are, and what it hands out.
use jackalope.Prelude.{
  ℕ, zero, suc, ◌+◌, ◌*◌, ◌<◌, ◌≡◌, refl, ap, ◌∙◌, sym, subst, Option, some, List, [], ◌∷◌, ◌++◌,
  append_assoc, true, false, length, map, append-nil, get_elem?_inside, arith,
}
use jackalope.Prelude.Predicates.{All, All-get_elem?}
use jackalope.Sample.{Sample, IsValid}
use jackalope.Prelude.Memory.{Bytes}
use jackalope.Mutators.Deterministic.{
  Context, get_next_byte, put_found, deterministic_interesting_value, create_context,
  add_hot_offset,
}
use jackalope.Mutators.Deterministic.Pending.{rows, pending}
use jackalope.Mutators.Deterministic.Effects.{deterministic_interesting_value_lem}
use jackalope.Mutators.Combinators.{until_false}
use jackalope.Mutators.Combinators.Rounds.{Finite, until_false-Finite}
use jackalope.Mutators.Combinators.Sequence.{sequence_mutate-Finite, InSequence, sequence_left}
use jackalope.Mutators.Deterministic.Stage.{
  Stage, flip_child, value_child, stage, stage_hot, Below, pending-Below, flips_left, values_left,
}
use jackalope.Mutators.Deterministic.Expected.{
  length_none, length_some, found_none, flip_done, flip_of, flip_more, new_stage, length-rows,
  first_place, places, pending_new, value_of, expected, Accounts,
}

module _ (interesting_values : List Sample) (all : All IsValid interesting_values)
    (some_value : 0 < length interesting_values) where
  value_done :
      (s : Stage)
      → pending (length interesting_values) s.values ≡ []
      → (c : Context) × (value_child interesting_values s ≡ some (false, record s { values = c }))
        × (pending (length interesting_values) c ≡ [])
  unfolding value_child deterministic_interesting_value
  value_done s e =
      let (f, g) = found_none (length interesting_values) s.values some_value e in
      let c = (get_next_byte (length interesting_values) s.values).context in
      let r : put_found interesting_values s.sample
            (get_next_byte (length interesting_values) s.values).found c
          ≡ some (false, s.sample, c) =
        ap (λ (o : Option (ℕ × ℕ)). put_found interesting_values s.sample o c) f in
      (c, rw r refl, g)

  value_more :
      (s : Stage) (n : ℕ)
      → IsValid s.sample
      → values_left interesting_values s ≡ suc n
      → (p : ℕ × ℕ) × (c : Context) × (value_child interesting_values s
          ≡ some (
            true,
            record s {
              values = c;
              mutated = s.mutated ++ (value_of interesting_values s.sample p ∷ []);
            },
          ))
        × (pending (length interesting_values) s.values ≡ p ∷ pending (length interesting_values) c)
        × (length (pending (length interesting_values) c) ≡ n)
  unfolding value_child
  value_more s n v e =
      let ((pos, index), rest, f, k) =
        length_some (pending (length interesting_values) s.values) n e in
      let below : All (Below (length interesting_values)) ((pos, index) ∷ rest) =
        subst (λ (l : List (ℕ × ℕ)). All (Below (length interesting_values)) l) f
          (pending-Below (length interesting_values) s.values) in
      let (w, at) = get_elem?_inside interesting_values index below.0 in
      let valid_w = All-get_elem? IsValid interesting_values index all at in
      let (t, c, r, same, valid, left) =
        deterministic_interesting_value_lem interesting_values s.sample w s.values pos index rest v
          valid_w at f in
      let l : length (pending (length interesting_values) c) ≡ length rest =
        ap (λ (l : List (ℕ × ℕ)). length l) left in
      (
        (pos, index),
        c,
        rw (r, same, at) refl,
        f ∙ ap (λ (l : List (ℕ × ℕ)). (pos, index) ∷ l) (sym left),
        omega (arith, l, k),
      )

  value_child-Finite :
      (total : List Bytes)
      → Finite
          (value_child interesting_values)
          (λ s. Accounts interesting_values total s × (flips_left s ≡ 0))
          (values_left interesting_values)
  value_child-Finite total = record {
    done = λ s g l.
        let none_left = length_none (pending (length interesting_values) s.values) l in
        let (c, r, p) = value_done s none_left in
        let k : length (pending (length interesting_values) c) ≡ 0 =
          ap (λ (l : List (ℕ × ℕ)). length l) p in
        let same = none_left ∙ sym p in
        let account =
          ap
            (λ (l : List (ℕ × ℕ)).
              s.mutated
              ++ (map (flip_of s.sample) (pending 256 s.flips)
                  ++ map (value_of interesting_values s.sample) l))
            (sym same)
          ∙ g.0.1 in
        (record s { values = c }, r, (((g.0.0, account), g.1), k));
    more = λ s n g l.
        let (p, c, r, first, k) = value_more s n g.0.0 l in
        let no_flips = length_none (pending 256 s.flips) g.1 in
        let F = flip_of s.sample in
        let V = value_of interesting_values s.sample in
        let rest = map V (pending (length interesting_values) c) in
        let account =
          append_assoc s.mutated (V p ∷ []) (map F (pending 256 s.flips) ++ rest)
          ∙ ap (λ (l : List (ℕ × ℕ)). s.mutated ++ (V p ∷ (map F l ++ rest))) no_flips
          ∙ ap (λ (l : List (ℕ × ℕ)). s.mutated ++ (map F l ++ (V p ∷ rest))) (sym no_flips)
          ∙ ap (λ (l : List (ℕ × ℕ)). s.mutated ++ (map F (pending 256 s.flips) ++ map V l))
              (sym first)
          ∙ g.0.1 in
        (
          record s { values = c; mutated = s.mutated ++ (V p ∷ []) },
          r,
          (((g.0.0, account), g.1), k),
        );
  }

  flip_child-Finite :
      (total : List Bytes) (n : ℕ)
      → Finite flip_child
          (λ s. Accounts interesting_values total s × (values_left interesting_values s ≡ n))
          flips_left
  flip_child-Finite total n = record {
    done = λ s g l.
        let none_left = length_none (pending 256 s.flips) l in
        let (c, r, p) = flip_done s none_left in
        let k : length (pending 256 c) ≡ 0 = ap (λ (l : List (ℕ × ℕ)). length l) p in
        let V =
          map (value_of interesting_values s.sample)
            (pending (length interesting_values) s.values) in
        let account =
          ap (λ (l : List (ℕ × ℕ)). s.mutated ++ (map (flip_of s.sample) l ++ V))
            (p ∙ sym none_left)
          ∙ g.0.1 in
        (record s { flips = c }, r, (((g.0.0, account), g.1), k));
    more = λ s m g l.
        let (p, c, r, first, k) = flip_more s m g.0.0 l in
        let F = flip_of s.sample in
        let V =
          map (value_of interesting_values s.sample)
            (pending (length interesting_values) s.values) in
        let account =
          append_assoc s.mutated (F p ∷ []) (map F (pending 256 c) ++ V)
          ∙ ap (λ (l : List (ℕ × ℕ)). s.mutated ++ (map F l ++ V)) (sym first)
          ∙ g.0.1 in
        (
          record s { flips = c; mutated = s.mutated ++ (F p ∷ []) },
          r,
          (((g.0.0, account), g.1), k),
        );
  }

  -- When nothing is left, all has been handed out.
  accounts_end :
      (total : List Bytes) (s : Stage)
      → Accounts interesting_values total s
      → flips_left s ≡ 0
      → values_left interesting_values s ≡ 0
      → s.mutated ≡ total
  accounts_end total s a f v =
      let F = flip_of s.sample in
      let V = value_of interesting_values s.sample in
      sym (append-nil s.mutated)
      ∙ ap (λ (l : List (ℕ × ℕ)). s.mutated ++ (map F l ++ []))
          (sym (length_none (pending 256 s.flips) f))
      ∙ ap (λ (l : List (ℕ × ℕ)). s.mutated ++ (map F (pending 256 s.flips) ++ map V l))
          (sym (length_none (pending (length interesting_values) s.values) v))
      ∙ a.1

  all_handed_out :
      (total : List Bytes) (w : ℕ × Stage)
      → InSequence (flip_child-Finite total) (value_child-Finite total) w
      → sequence_left (flip_child-Finite total) (value_child-Finite total) w ≡ 0
      → w.1.mutated ≡ total
  all_handed_out total (zero, s) g l = accounts_end total s g (omega arith) (omega arith)
  all_handed_out total (suc zero, s) g l = accounts_end total s g.0 g.1 l
  all_handed_out total (suc (suc i), s) g l = accounts_end total s g.0 g.1 g.2

  -- A new sample context with one hot offset, a valid sample and valid interesting values, one at
  -- least: the deterministic stage returns true once for each byte value and once for each
  -- interesting value at each of the places from 3 before the offset, or from 0, to 19 behind it;
  -- then it returns false. The mutated samples are, in this order, the sample with each byte value
  -- stored at each place and with each interesting value stored at each place, after zeros where
  -- the sample is too short. No call leaves a buffer.
  pub until_false-stage :
      (s : Sample) (offset fuel : ℕ)
      → IsValid s
      → places offset * 256 + places offset * length interesting_values < fuel
      → (w : ℕ × Stage) × (until_false fuel
            (stage interesting_values)
            (stage_hot offset (new_stage s))
          ≡ some (places offset * 256 + places offset * length interesting_values, w))
        × (w.1.mutated ≡ expected interesting_values s offset)
  unfolding stage_hot
  until_false-stage s offset fuel v h =
      let c = add_hot_offset offset create_context in
      let m = length interesting_values in
      let n = places offset * 256 + places offset * m in
      let flips = pending_new 256 offset in
      let values = pending_new m offset in
      let total = expected interesting_values s offset in
      let e : length (pending 256 c) + length (pending m c) ≡ n = omega (
        arith,
        ap (λ (l : List (ℕ × ℕ)). length l) flips,
        ap (λ (l : List (ℕ × ℕ)). length l) values,
        length-rows 256 (first_place offset) (places offset),
        length-rows m (first_place offset) (places offset),
      ) in
      let account =
        ap
          (λ (l : List (ℕ × ℕ)).
            map (flip_of s) l ++ map (value_of interesting_values s) (pending m c))
          flips
        ∙ ap
            (λ (l : List (ℕ × ℕ)).
              map (flip_of s) (rows 256 (first_place offset) (places offset))
              ++ map (value_of interesting_values s) l)
            values in
      let (w, r, good, l) =
        until_false-Finite
          (sequence_mutate-Finite (flip_child-Finite total) (value_child-Finite total)) fuel n
          (0, record { sample = s; flips = c; values = c; mutated = [] }) (v, account) e h in
      (w, r, all_handed_out total w good l)
