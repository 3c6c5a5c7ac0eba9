-- ===== src/Grammar/Generate/Expand.antt =====
-- grammar.cpp, GenerateTree: a rule of a symbol is expanded, part by part.
use jackalope.Prelude.{
  ℕ, zero, suc, ◌+◌, ◌%◌, ◌<◌, ◌≡◌, refl, inl, inr, drop, ◌⊎◌, none, some, List, [], ◌∷◌, ◌++◌,
  true, false, ◌==◌, length, get_elem?, get_elem?_inside, Bool-cases, Option-cases, some_eq,
  not_both, arith,
}
use jackalope.Prelude.Memory.{Bytes}
use jackalope.Prelude.Predicates.{All, All-get_elem?}
use jackalope.Grammar.Tree.{symbol_type, TreeNode, node, Trees, nil}
use jackalope.Grammar.Rules.{RulePart, Rule, Symbol, Symbols, get_symbol}
use jackalope.Grammar.Generate.{
  Made, made, push_back, repeat_children, last_with_id, part_child, part_children, expand_symbol,
  generate,
}
use jackalope.Grammar.Generate.Derivations.{
  Derives, repeats, expands, DerivesAll, none_left, DerivesPart, of_text, of_symbol, same_id,
  DerivesParts, no_part, next_part, NoneWithId, OneEach, OneEach-push_back, child_at-OneEach,
  DerivesAll-push_back, Known, KnownPart, KnownRule, CanGrow, IsComplete, All-get_symbol,
}
use jackalope.Mutators.{Prng, next_number}
use native.Mathlib.Nat.{mod-lt}
use jackalope.Grammar.Generate.Steps.{
  Yields-map, Yields-after_made, repeat_children-Yields, StopsFrom, Draws, Yields,
}

last_with_id-none :
    (id i : ℕ) (parts : List RulePart) → last_with_id id i parts ≡ none → NoneWithId id parts
unfolding last_with_id
last_with_id-none id i [] e = tt
last_with_id-none id i (p ∷ parts) e = elim (Option-cases (last_with_id id (suc i) parts)) [
  | inr (m, f) ↦ let clash : some m ≡ none = rw f at e in cc
  | inl f ↦ elim (Bool-cases (p.id == id)) [
    | inl same ↦ let clash : some i ≡ none = rw (f, same) at e in cc
    | inr other ↦ (other, last_with_id-none id (suc i) parts f)
  ]
]

-- Where the search finds a part with the id, and that no later one has it.
last_with_id_lem :
    (id i : ℕ) (parts : List RulePart) {j : ℕ}
    → last_with_id id i parts ≡ some j
    → (k : ℕ) × (q : RulePart) × (j ≡ i + k)
      × (get_elem? parts k ≡ some q)
      × (q.id ≡ id)
      × NoneWithId id (drop (suc k) parts)
unfolding last_with_id
last_with_id_lem id i [] e = cc
last_with_id_lem id i (p ∷ parts) {j} e = elim (Option-cases (last_with_id id (suc i) parts)) [
  | inr (m, f) ↦
      let (k, q, at, found, same, later) = last_with_id_lem id (suc i) parts f in
      let m_is : m ≡ j = some_eq (rw f at e) in
      (suc k, q, omega (arith, at, m_is), found, same, later)
  | inl f ↦ elim (Bool-cases (p.id == id)) [
    | inl same ↦
        let j_is : i ≡ j = some_eq (rw (f, same) at e) in
        (0, p, omega (arith, j_is), refl, ground arith, last_with_id-none id (suc i) parts f)
    | inr other ↦ let clash : none ≡ some j = rw (f, other) at e in cc
  ]
]

module _ (symbols : Symbols) (numbers : ℕ → ℕ) (levels : ℕ) (gen : Bytes → Prng → Made TreeNode)
    (gives : (name : Bytes)
      → Known symbols name
      → (from : ℕ) (prng : Prng) → Draws numbers from prng
      → Yields numbers from (Derives symbols levels name) (gen name prng)) where
  part_child-Yields :
      (from : ℕ) (before : List RulePart) (p : RulePart) (children : Trees) (prng : Prng)
      → KnownPart symbols p
      → OneEach before children
      → Draws numbers from prng
      → Yields numbers from
          (DerivesPart symbols levels before children p)
          (part_child gen before p children prng)
  unfolding part_child
  part_child-Yields from before p children prng known each d =
      elim (Bool-cases (p.type == symbol_type)) [
        | inr text ↦ rw text (of_text text, d)
        | inl symbol ↦
            let named : Known symbols p.value = elim known [
              | inl other ↦ absurd (not_both symbol other)
              | inr k ↦ k
            ] in
            let new = λ (own : (p.id ≡ 0) ⊎ NoneWithId p.id before).
              Yields-map numbers (Derives symbols levels p.value)
                (DerivesPart symbols levels before children p) from (gen p.value prng)
                (gives p.value named from prng d) (λ t dt. of_symbol symbol own dt) in
            elim (Bool-cases (p.id == 0)) [
              | inl none_given ↦ rw (symbol, none_given) (new (inl (ground arith)))
              | inr given ↦ elim (Option-cases (last_with_id p.id 0 before)) [
                | inl first ↦
                    rw (symbol, given, first) (new (inr (last_with_id-none p.id 0 before first)))
                | inr (j, later) ↦
                    let (k, q, at, found, same, last) = last_with_id_lem p.id 0 before later in
                    let (t, copied) = child_at-OneEach before children k each found in
                    let j_is : j ≡ k = omega (arith, at) in
                    rw (symbol, given, later, j_is, copied)
                      (same_id k symbol given found same last copied, d)
              ]
            ]
      ]

  part_children-Yields :
      (from : ℕ) (before ps : List RulePart) (children : Trees) (prng : Prng)
      → All (KnownPart symbols) ps
      → OneEach before children
      → Draws numbers from prng
      → Yields numbers from
          (DerivesParts symbols levels before children ps)
          (part_children gen before ps children prng)
  unfolding part_children
  part_children-Yields from before [] children prng known each d = (no_part, d)
  part_children-Yields from before (p ∷ ps) children prng known each d =
      Yields-after_made numbers (DerivesPart symbols levels before children p)
        (DerivesParts symbols levels before children (p ∷ ps)) from from
        (part_child gen before p children prng)
        (λ t q. part_children gen (before ++ (p ∷ [])) ps (push_back children t) q)
        (part_child-Yields from before p children prng known.0 each d)
        (λ t q dt dq.
          Yields-map numbers
            (DerivesParts symbols levels (before ++ (p ∷ [])) (push_back children t) ps)
            (DerivesParts symbols levels before children (p ∷ ps)) from
            (part_children gen (before ++ (p ∷ [])) ps (push_back children t) q)
            (part_children-Yields from (before ++ (p ∷ [])) ps (push_back children t) q known.1
              (OneEach-push_back before children p t each) dq)
            (λ ts ds. next_part dt ds))

module _ (symbols : Symbols) (numbers : ℕ → ℕ) (last fuel : ℕ) (complete : IsComplete symbols)
    (stopping : StopsFrom last numbers) (enough : last < fuel) where
  expand_repeat :
      (levels : ℕ) (gen : Bytes → Prng → Made TreeNode)
      → ((name : Bytes)
          → Known symbols name
          → (from : ℕ) (prng : Prng) → Draws numbers from prng
          → Yields numbers from (Derives symbols levels name) (gen name prng))
      → (name : Bytes) (s : Symbol) (from : ℕ) (prng : Prng) → get_symbol name symbols ≡ some s
      → s.repeat ≡ true
      → Known symbols s.repeat_symbol
      → Draws numbers from prng
      → Yields numbers from
          (λ ts. Derives symbols (suc levels) name (node symbol_type name ts))
          (repeat_children fuel (gen s.repeat_symbol) nil prng)
  expand_repeat levels gen gives name s from prng at repeat known d =
      Yields-map numbers (DerivesAll symbols levels s.repeat_symbol)
        (λ ts. Derives symbols (suc levels) name (node symbol_type name ts)) from
        (repeat_children fuel (gen s.repeat_symbol) nil prng)
        (repeat_children-Yields numbers last stopping (Derives symbols levels s.repeat_symbol)
          (DerivesAll symbols levels s.repeat_symbol) (gen s.repeat_symbol)
          (gives s.repeat_symbol known) (λ ts t ds dt. DerivesAll-push_back ds dt) fuel from nil
          prng none_left d (omega arith) (omega arith))
        (λ ts ds. repeats at repeat ds)

  expand_one :
      (levels : ℕ) (gen : Bytes → Prng → Made TreeNode)
      → ((name : Bytes)
          → Known symbols name
          → (from : ℕ) (prng : Prng) → Draws numbers from prng
          → Yields numbers from (Derives symbols levels name) (gen name prng))
      → (name : Bytes) (s : Symbol) (i from : ℕ) (rule : Rule) (prng : Prng)
      → get_symbol name symbols ≡ some s
      → s.repeat ≡ false
      → get_elem? s.generators i ≡ some rule
      → KnownRule symbols rule
      → Draws numbers from prng
      → Yields numbers from
          (λ ts. Derives symbols (suc levels) name (node symbol_type name ts))
          (part_children gen [] rule.parts nil prng)
  expand_one levels gen gives name s i from rule prng at single chosen known d =
      Yields-map numbers (DerivesParts symbols levels [] nil rule.parts)
        (λ ts. Derives symbols (suc levels) name (node symbol_type name ts)) from
        (part_children gen [] rule.parts nil prng)
        (part_children-Yields symbols numbers levels gen gives from [] rule.parts nil prng known tt
          d)
        (λ ts ds. expands i at single chosen ds)

  expand_symbol-Yields :
      (levels : ℕ) (gen : Bytes → Prng → Made TreeNode)
      → ((name : Bytes)
          → Known symbols name
          → (from : ℕ) (prng : Prng) → Draws numbers from prng
          → Yields numbers from (Derives symbols levels name) (gen name prng))
      → (name : Bytes) (s : Symbol) (from : ℕ) (prng : Prng) → get_symbol name symbols ≡ some s
      → CanGrow symbols s
      → Draws numbers from prng
      → Yields numbers from
          (λ ts. Derives symbols (suc levels) name (node symbol_type name ts))
          (expand_symbol fuel gen (some s) prng)
  expand_symbol-Yields levels gen gives name s from prng at (inl (repeat, known)) d =
      rw repeat (expand_repeat levels gen gives name s from prng at repeat known d)
  expand_symbol-Yields levels gen gives name s from prng at (inr (single, some_rule, known)) d =
      let n = next_number prng in
      let full : (length s.generators == 0) ≡ false = ground arith in
      let (rule, chosen) =
        get_elem?_inside s.generators (n.0 % length s.generators) (mod-lt n.0 some_rule) in
      rw (single, full, chosen)
        (expand_one levels gen gives name s (n.0 % length s.generators) from rule n.1 at single
          chosen
          (All-get_elem? (KnownRule symbols) s.generators (n.0 % length s.generators) known chosen)
          (d.0, omega arith))

  pub generate-Yields :
      (left : ℕ) (name : Bytes)
      → Known symbols name
      → (from : ℕ) (prng : Prng) → Draws numbers from prng
      → Yields numbers from (Derives symbols left name) (generate fuel symbols left name prng)
  unfolding generate
  generate-Yields zero name known from prng d = tt
  generate-Yields (suc left) name (s, at) from prng d =
      let gen = generate fuel symbols left in
      rw at (
        Yields-after_made numbers (λ ts. Derives symbols (suc left) name (node symbol_type name ts))
          (Derives symbols (suc left) name) from from (expand_symbol fuel gen (some s) prng)
          (λ ts p. made (node symbol_type name ts) p)
          (expand_symbol-Yields left gen (generate-Yields left) name s from prng at
            (All-get_symbol (CanGrow symbols) symbols name complete at) d)
          (λ ts p dt dp. (dt, dp)))
