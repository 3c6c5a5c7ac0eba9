-- ===== src/Grammar/Generate/Derivations.antt =====
-- What trees a grammar has: derivations, independent of how GenerateTree finds them.
use jackalope.Prelude.{
  ℕ, zero, suc, ◌<◌, ◌≡◌, refl, subst, ◌⊎◌, inl, inr, some, List, [], ◌∷◌, ◌++◌, true, false, ◌==◌,
  length, drop, get_elem?, Bool-cases,
}
use jackalope.Prelude.Memory.{Bytes}
use jackalope.Prelude.Predicates.{All}
use jackalope.Grammar.Tree.{symbol_type, TreeNode, node, Trees, nil, cons}
use jackalope.Grammar.Rules.{RulePart, Rule, Symbol, Symbols, get_symbol, same_text}
use jackalope.Grammar.Generate.{string_node, push_back, child_at}

-- No part has the id.
abbrev pub NoneWithId : ℕ → List RulePart → Type 0
NoneWithId id parts = All (λ (q : RulePart). (q.id == id) ≡ false) parts

-- As many trees as parts.
abbrev pub OneEach : List RulePart → Trees → Type 0
OneEach [] nil = Unit {0}
OneEach [] (cons t ts) = ⊥
OneEach (p ∷ ps) nil = ⊥
OneEach (p ∷ ps) (cons t ts) = OneEach ps ts

-- Derivations of at most a number of levels: a tree from a symbol, trees from a symbol that is
-- repeated, a tree from a part of a rule behind parts that have their trees, and the trees of a
-- rule from those of its first parts on. A part with an id that an earlier part has too gets the
-- tree of the last of these; each other symbol gets a tree of its own.
mutual
  pub data Derives (symbols : Symbols) : ℕ → Bytes → TreeNode → Type 0 where
    repeats :
        {n : ℕ} {name : Bytes} {s : Symbol} {children : Trees}
        → get_symbol name symbols ≡ some s
        → s.repeat ≡ true
        → DerivesAll symbols n s.repeat_symbol children
        → Derives symbols (suc n) name (node symbol_type name children)
    expands :
        {n : ℕ} {name : Bytes} {s : Symbol} {children : Trees} (i : ℕ) {rule : Rule}
        → get_symbol name symbols ≡ some s
        → s.repeat ≡ false
        → get_elem? s.generators i ≡ some rule
        → DerivesParts symbols n [] nil rule.parts children
        → Derives symbols (suc n) name (node symbol_type name children)

  pub data DerivesAll (symbols : Symbols) : ℕ → Bytes → Trees → Type 0 where
    none_left : {n : ℕ} {name : Bytes} → DerivesAll symbols n name nil
    one_more :
        {n : ℕ} {name : Bytes} {t : TreeNode} {ts : Trees}
        → Derives symbols n name t
        → DerivesAll symbols n name ts
        → DerivesAll symbols n name (cons t ts)

  pub data DerivesPart (symbols : Symbols)
      : ℕ → List RulePart → Trees → RulePart → TreeNode → Type 0 where
    of_text :
        {n : ℕ} {before : List RulePart} {made : Trees} {p : RulePart}
        → (p.type == symbol_type) ≡ false
        → DerivesPart symbols n before made p (string_node p.value)
    of_symbol :
        {n : ℕ} {before : List RulePart} {made : Trees} {p : RulePart} {t : TreeNode}
        → (p.type == symbol_type) ≡ true
        → ((p.id ≡ 0) ⊎ NoneWithId p.id before)
        → Derives symbols n p.value t
        → DerivesPart symbols n before made p t
    same_id :
        {n : ℕ} {before : List RulePart} {made : Trees} {p : RulePart} {t : TreeNode} (i : ℕ)
        {q : RulePart}
        → (p.type == symbol_type) ≡ true
        → (p.id == 0) ≡ false
        → get_elem? before i ≡ some q
        → q.id ≡ p.id
        → NoneWithId p.id (drop (suc i) before)
        → child_at made i ≡ some t
        → DerivesPart symbols n before made p t

  pub data DerivesParts (symbols : Symbols)
      : ℕ → List RulePart → Trees → List RulePart → Trees → Type 0 where
    no_part :
        {n : ℕ} {before : List RulePart} {made : Trees} → DerivesParts symbols n before made [] made
    next_part :
        {n : ℕ} {before : List RulePart} {made : Trees} {p : RulePart} {ps : List RulePart}
        {t : TreeNode} {all : Trees}
        → DerivesPart symbols n before made p t
        → DerivesParts symbols n (before ++ (p ∷ [])) (push_back made t) ps all
        → DerivesParts symbols n before made (p ∷ ps) all

pub DerivesAll-push_back :
    {symbols : Symbols} {n : ℕ} {name : Bytes} {ts : Trees} {t : TreeNode}
    → DerivesAll symbols n name ts
    → Derives symbols n name t
    → DerivesAll symbols n name (push_back ts t)
unfolding push_back
DerivesAll-push_back none_left d = one_more d none_left
DerivesAll-push_back (one_more e es) d = one_more e (DerivesAll-push_back es d)

pub OneEach-push_back :
    (ps : List RulePart) (ts : Trees) (p : RulePart) (t : TreeNode)
    → OneEach ps ts
    → OneEach (ps ++ (p ∷ [])) (push_back ts t)
unfolding push_back
OneEach-push_back [] nil p t h = tt
OneEach-push_back [] (cons u ts) p t h = absurd h
OneEach-push_back (q ∷ ps) nil p t h = absurd h
OneEach-push_back (q ∷ ps) (cons u ts) p t h = OneEach-push_back ps ts p t h

pub child_at-OneEach :
    (ps : List RulePart) (ts : Trees) (i : ℕ) {q : RulePart}
    → OneEach ps ts
    → get_elem? ps i ≡ some q
    → (t : TreeNode) × (child_at ts i ≡ some t)
unfolding child_at
child_at-OneEach [] ts i h e = cc
child_at-OneEach (p ∷ ps) nil i h e = absurd h
child_at-OneEach (p ∷ ps) (cons t ts) zero h e = (t, refl)
child_at-OneEach (p ∷ ps) (cons t ts) (suc i) h e = child_at-OneEach ps ts i h e

-- A symbol that the grammar has.
abbrev pub Known : Symbols → Bytes → Type 0
Known symbols name = (s : Symbol) × (get_symbol name symbols ≡ some s)

abbrev pub KnownPart : Symbols → RulePart → Type 0
KnownPart symbols p = ((p.type == symbol_type) ≡ false) ⊎ Known symbols p.value

abbrev pub KnownRule : Symbols → Rule → Type 0
KnownRule symbols rule = All (KnownPart symbols) rule.parts

-- A symbol repeats a known symbol, or it has a rule, and its rules name known symbols.
abbrev pub CanGrow : Symbols → Symbol → Type 0
CanGrow symbols s =
    ((s.repeat ≡ true) × Known symbols s.repeat_symbol)
    ⊎ ((s.repeat ≡ false) × (0 < length s.generators) × All (KnownRule symbols) s.generators)

abbrev pub IsComplete : Symbols → Type 0
IsComplete symbols = All (CanGrow symbols) symbols

pub All-get_symbol :
    (P : Symbol → Type 0) (symbols : Symbols) (name : Bytes) {s : Symbol}
    → All P symbols
    → get_symbol name symbols ≡ some s
    → P s
unfolding get_symbol
All-get_symbol P [] name h e = cc
All-get_symbol P (q ∷ symbols) name {s} h e = elim (Bool-cases (same_text q.name name)) [
  | inl same ↦ let i : some q ≡ some s = rw same at e in subst P (cc) h.0
  | inr other ↦ All-get_symbol P symbols name h.1 (rw other at e)
]
