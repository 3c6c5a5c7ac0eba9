-- ===== src/Grammar/Parser/Complete.antt =====
-- grammar.cpp, GetOrCreateSymbol and AddRulePart: every symbol that a rule or a repetition names
-- exists.
use jackalope.Prelude.{
  ℕ, zero, suc, ◌+◌, ◌<◌, ◌≡◌, refl, sym, ap, subst, ◌⊎◌, inl, inr, none, some, [], ◌∷◌, ◌++◌, true,
  false, ◌==◌, length, Bool-cases, Option-cases, some_eq, arith,
}
use jackalope.Prelude.Memory.{Bytes}
use jackalope.Prelude.Predicates.{All, All-append}
use jackalope.Grammar.Rules.{
  same_text, after_prefix, Symbol, Symbols, get_symbol, change, use_symbol, new_symbol, repeat_of,
  repeat_prefix, create_symbol,
}
use jackalope.Grammar.Generate.Derivations.{Known, KnownRule}

same_text_self : (t : Bytes) → same_text t t ≡ true
same_text_self [] = refl
same_text_self (c ∷ t) = ground (arith, same_text_self t)

module _ (f : Symbol → Symbol) (keeps : (s : Symbol) → (f s).name ≡ s.name) where
  pub Known-change :
      (name m : Bytes) (symbols : Symbols) → Known symbols name → Known (change m f symbols) name
  unfolding change get_symbol
  Known-change name m [] (s, e) = cc
  Known-change name m (q ∷ symbols) (s, e) = elim (Bool-cases (same_text q.name m)) [
    | inl hit ↦ elim (Bool-cases (same_text q.name name)) [
      | inl same ↦ (f q, rw (hit, keeps q, same) refl)
      | inr other ↦ (s, rw (hit, keeps q, other) (rw other at e))
    ]
    | inr miss ↦ elim (Bool-cases (same_text q.name name)) [
      | inl same ↦ (q, rw (miss, same) refl)
      | inr other ↦
          let (t, g) = Known-change name m symbols (s, rw other at e) in (t, rw (miss, other) g)
    ]
  ]

Known-append :
    (symbols more : Symbols) (name : Bytes) → Known symbols name → Known (symbols ++ more) name
unfolding get_symbol
Known-append [] more name (s, e) = cc
Known-append (q ∷ symbols) more name (s, e) = elim (Bool-cases (same_text q.name name)) [
  | inl same ↦ (q, rw same refl)
  | inr other ↦ let (t, g) = Known-append symbols more name (s, rw other at e) in (t, rw other g)
]

Known-append_last : (symbols : Symbols) (s : Symbol) → Known (symbols ++ (s ∷ [])) s.name
unfolding get_symbol
Known-append_last [] s = (s, rw (same_text_self s.name) refl)
Known-append_last (q ∷ symbols) s = elim (Bool-cases (same_text q.name s.name)) [
  | inl same ↦ (q, rw same refl)
  | inr other ↦ let (t, g) = Known-append_last symbols s in (t, rw other g)
]

pub Known-create_symbol :
    (fuel : ℕ) (name other : Bytes) (symbols : Symbols)
    → Known symbols other
    → Known (create_symbol fuel name symbols) other
unfolding create_symbol
Known-create_symbol zero name other symbols k = k
Known-create_symbol (suc fuel) name other symbols k =
    elim (Option-cases (get_symbol name symbols)) [
      | inr (s, found) ↦ rw found k
      | inl new ↦ elim (Option-cases (after_prefix repeat_prefix name)) [
        | inl plain ↦ rw (new, plain) (Known-append symbols (new_symbol name ∷ []) other k)
        | inr (repeated, e) ↦
            rw (new, e)
              (Known-change use_symbol (λ s. refl) other repeated
                (create_symbol fuel repeated (symbols ++ (repeat_of name repeated ∷ [])))
                (Known-create_symbol fuel repeated other (symbols ++ (repeat_of name repeated ∷ []))
                  (Known-append symbols (repeat_of name repeated ∷ []) other k)))
      ]
    ]

create_symbol_found :
    (fuel : ℕ) (name : Bytes) (symbols : Symbols) {s : Symbol}
    → get_symbol name symbols ≡ some s
    → create_symbol (suc fuel) name symbols ≡ symbols
unfolding create_symbol
create_symbol_found fuel name symbols found = rw found refl

create_symbol_plain :
    (fuel : ℕ) (name : Bytes) (symbols : Symbols)
    → get_symbol name symbols ≡ none
    → after_prefix repeat_prefix name ≡ none
    → create_symbol (suc fuel) name symbols ≡ symbols ++ (new_symbol name ∷ [])
unfolding create_symbol
create_symbol_plain fuel name symbols new plain = rw (new, plain) refl

create_symbol_repeat :
    (fuel : ℕ) (name repeated : Bytes) (symbols : Symbols)
    → get_symbol name symbols ≡ none
    → after_prefix repeat_prefix name ≡ some repeated
    → create_symbol (suc fuel) name symbols
      ≡ change repeated use_symbol
          (create_symbol fuel repeated (symbols ++ (repeat_of name repeated ∷ [])))
unfolding create_symbol
create_symbol_repeat fuel name repeated symbols new e = rw (new, e) refl

pub Known-create_symbol_self :
    (fuel : ℕ) (name : Bytes) (symbols : Symbols)
    → Known (create_symbol (suc fuel) name symbols) name
Known-create_symbol_self fuel name symbols = elim (Option-cases (get_symbol name symbols)) [
  | inr (s, found) ↦
      subst (λ (l : Symbols). Known l name) (sym (create_symbol_found fuel name symbols found))
        (s, found)
  | inl new ↦ elim (Option-cases (after_prefix repeat_prefix name)) [
    | inl plain ↦
        subst (λ (l : Symbols). Known l name)
          (sym (create_symbol_plain fuel name symbols new plain))
          (Known-append_last symbols (new_symbol name))
    | inr (repeated, e) ↦
        subst (λ (l : Symbols). Known l name)
          (sym (create_symbol_repeat fuel name repeated symbols new e))
          (Known-change use_symbol (λ s. refl) name repeated
            (create_symbol fuel repeated (symbols ++ (repeat_of name repeated ∷ [])))
            (Known-create_symbol fuel repeated name (symbols ++ (repeat_of name repeated ∷ []))
              (Known-append_last symbols (repeat_of name repeated))))
  ]
]

-- What a symbol refers to are symbols of a grammar.
abbrev pub Refers : Symbols → Symbol → Type 0
Refers known s =
    ((s.repeat ≡ false) ⊎ Known known s.repeat_symbol) × All (KnownRule known) s.generators

pub All-change :
    (P : Symbol → Type 0) (f : Symbol → Symbol) (name : Bytes) (symbols : Symbols)
    → ((s : Symbol) → P s → P (f s))
    → All P symbols
    → All P (change name f symbols)
unfolding change
All-change P f name [] k h = tt
All-change P f name (q ∷ symbols) k h = elim (Bool-cases (same_text q.name name)) [
  | inl hit ↦ rw hit (k q h.0, h.1)
  | inr miss ↦ rw miss (h.0, All-change P f name symbols k h.1)
]

length-after_prefix :
    (p t : Bytes) {rest : Bytes} → after_prefix p t ≡ some rest → length t ≡ length p + length rest
length-after_prefix [] t {rest} e =
    let f : length t ≡ length rest = ap (λ (b : Bytes). length b) (some_eq e) in omega (arith, f)
length-after_prefix (c ∷ p) [] e = cc
length-after_prefix (c ∷ p) (d ∷ t) {rest} e = elim (Bool-cases (c == d)) [
  | inl same ↦ omega (arith, length-after_prefix p t (rw same at e))
  | inr other ↦ let f : none ≡ some rest = rw other at e in cc
]

pub create_symbol-Refers :
    (known : Symbols) (fuel : ℕ) (name : Bytes) (symbols : Symbols)
    → length name < fuel
    → ((n : Bytes) → Known (create_symbol fuel name symbols) n → Known known n)
    → All (Refers known) symbols
    → All (Refers known) (create_symbol fuel name symbols)
create_symbol-Refers known zero name symbols enough sub h = absurd (omega arith)
create_symbol-Refers known (suc zero) (c ∷ name) symbols enough sub h = absurd (omega arith)
create_symbol-Refers known (suc zero) [] symbols enough sub h =
    elim (Option-cases (get_symbol [] symbols)) [
      | inr (s, found) ↦
          subst (λ (l : Symbols). All (Refers known) l)
            (sym (create_symbol_found 0 [] symbols found)) h
      | inl new ↦
          subst (λ (l : Symbols). All (Refers known) l)
            (sym (create_symbol_plain 0 [] symbols new refl))
            (All-append (Refers known) symbols (new_symbol [] ∷ []) h ((inl refl, tt), tt))
    ]
create_symbol-Refers known (suc (suc fuel)) name symbols enough sub h =
    elim (Option-cases (get_symbol name symbols)) [
      | inr (s, found) ↦
          subst (λ (l : Symbols). All (Refers known) l)
            (sym (create_symbol_found (suc fuel) name symbols found)) h
      | inl new ↦ elim (Option-cases (after_prefix repeat_prefix name)) [
        | inl plain ↦
            subst (λ (l : Symbols). All (Refers known) l)
              (sym (create_symbol_plain (suc fuel) name symbols new plain))
              (All-append (Refers known) symbols (new_symbol name ∷ []) h ((inl refl, tt), tt))
        | inr (repeated, e) ↦
            let before = symbols ++ (repeat_of name repeated ∷ []) in
            let made = create_symbol (suc fuel) repeated before in
            let eq = create_symbol_repeat (suc fuel) name repeated symbols new e in
            let sub' : (n : Bytes) → Known made n → Known known n = λ n k. sub n (
              subst (λ (l : Symbols). Known l n) (sym eq)
                (Known-change use_symbol (λ s. refl) n repeated made k)) in
            subst (λ (l : Symbols). All (Refers known) l) (sym eq)
              (All-change (Refers known) use_symbol repeated made (λ s r. r)
                (create_symbol-Refers known (suc fuel) repeated before
                  (omega (arith, length-after_prefix repeat_prefix name e)) sub'
                  (All-append (Refers known) symbols (repeat_of name repeated ∷ []) h (
                    (inr (sub' repeated (Known-create_symbol_self fuel repeated before)), tt),
                    tt,
                  ))))
      ]
    ]
