-- ===== src/Mutators/Arithmetic/Bytewise.antt =====
-- FlipEndian turns the bytes of a number around.
use jackalope.Prelude.{
  ℕ, zero, suc, ◌+◌, ◌*◌, ◌/◌, ◌%◌, ◌^◌, ◌≤◌, ◌<◌, ◌≡◌, refl, sym, ap, subst, ◌∙◌, [], ◌∷◌, ◌++◌,
  length, length-append, arith, Bool, true, false,
}
use native.Mathlib.Nat.{mod-eq_of_lt}
use jackalope.Prelude.Memory.{Bytes, store_le, load_le, length-store_le, load_le-store_le}
use jackalope.Prelude.Predicates.{All, All-append}
use jackalope.Mutators.Arithmetic.{flip_loop, flip_endian, flipped}

abbrev pub AreBytes : Bytes → Type 0
AreBytes b = All (λ x. x < 256) b

-- The number that bytes are on a big-endian machine, behind the digits of `acc`.
abbrev pub load_be : Bytes → ℕ → ℕ
load_be [] acc = acc
load_be (x ∷ b) acc = load_be b (acc * 256 + x)

abbrev rev : Bytes → Bytes
rev [] = []
rev (x ∷ b) = rev b ++ (x ∷ [])

load_be-append : (b : Bytes) (y acc : ℕ) → load_be (b ++ (y ∷ [])) acc ≡ load_be b acc * 256 + y
load_be-append [] y acc = refl
load_be-append (x ∷ b) y acc = load_be-append b y (acc * 256 + x)

load_be-rev : (b : Bytes) → load_be (rev b) 0 ≡ load_le b
unfolding load_le
load_be-rev [] = refl
load_be-rev (x ∷ b) = load_be-append (rev b) x 0 ∙ omega (arith, load_be-rev b)

rev-append : (b : Bytes) (y : ℕ) → rev (b ++ (y ∷ [])) ≡ y ∷ rev b
rev-append [] y = refl
rev-append (x ∷ b) y = ap (λ r. r ++ (x ∷ [])) (rev-append b y)

rev-rev : (b : Bytes) → rev (rev b) ≡ b
rev-rev [] = refl
rev-rev (x ∷ b) = rev-append (rev b) x ∙ ap (◌∷◌ x) (rev-rev b)

length-rev : (b : Bytes) → length (rev b) ≡ length b
length-rev [] = refl
length-rev (x ∷ b) = omega (arith, length-append (rev b) (x ∷ []), length-rev b)

AreBytes-rev : (b : Bytes) → AreBytes b → AreBytes (rev b)
AreBytes-rev [] h = tt
AreBytes-rev (x ∷ b) h = All-append (λ x. x < 256) (rev b) (x ∷ []) (AreBytes-rev b h.1) (h.0, tt)

AreBytes-store_le : (k v : ℕ) → AreBytes (store_le k v)
unfolding store_le
AreBytes-store_le zero v = tt
AreBytes-store_le (suc k) v = (omega arith, AreBytes-store_le k (v / 256))

store_le-load_le : (b : Bytes) → AreBytes b → store_le (length b) (load_le b) ≡ b
unfolding store_le load_le
store_le-load_le [] h = refl
store_le-load_le (x ∷ b) h =
    let low : (x + 256 * load_le b) % 256 ≡ x = omega (arith, h.0) in
    let high : (x + 256 * load_le b) / 256 ≡ load_le b = omega (arith, h.0) in
    rw (low, high, store_le-load_le b h.1) refl

pub load_le-lt : (n : ℕ) (b : Bytes) → length b ≡ n → AreBytes b → load_le b < 256 ^ n
unfolding load_le
load_le-lt n [] e h = subst (λ (m : ℕ). 0 < 256 ^ m) e (omega arith)
load_le-lt zero (x ∷ b) e h = absurd (omega arith)
load_le-lt (suc n) (x ∷ b) e h = omega (arith, h.0, load_le-lt n b (omega arith) h.1)

pow_le : (d j : ℕ) → 256 ^ j ≤ 256 ^ (d + j)
pow_le zero j =
    subst (λ (m : ℕ). 256 ^ j ≤ 256 ^ m) (omega arith)
      (let same : 256 ^ j ≤ 256 ^ j = omega arith in same)
pow_le (suc d) j =
    subst (λ (m : ℕ). 256 ^ j ≤ 256 ^ m) (omega arith)
      (let up : 256 ^ j ≤ 256 ^ suc (d + j) = omega (arith, pow_le d j) in up)

flip_loop-load_be :
    (m n j acc : ℕ) (b : Bytes)
    → length b ≡ n
    → AreBytes b
    → acc < 256 ^ j
    → 256 ^ (n + j) ≤ m
    → flip_loop m n (load_le b) acc ≡ load_be b acc
unfolding flip_loop load_le
flip_loop-load_be m zero j acc [] e h k p = refl
flip_loop-load_be m zero j acc (x ∷ b) e h k p = absurd (omega arith)
flip_loop-load_be m (suc n) j acc [] e h k p = absurd (omega arith)
flip_loop-load_be m (suc n) j acc (x ∷ b) e h k p =
    let q : 256 ^ (n + suc j) ≤ m = subst (λ (i : ℕ). 256 ^ i ≤ m) (omega arith) p in
    let low : (x + 256 * load_le b) % 256 ≡ x = omega (arith, h.0) in
    let high : (x + 256 * load_le b) / 256 ≡ load_le b = omega (arith, h.0) in
    let more : acc * 256 + x < 256 ^ suc j = omega (arith, k, h.0) in
    let kept : acc * 256 % m ≡ acc * 256 =
      mod-eq_of_lt (omega (arith, more, pow_le n (suc j), q)) in
    rw (low, high, kept) (flip_loop-load_be m n (suc j) (acc * 256 + x) b (omega arith) h.1 more q)

flip_endian-load_le :
    (k : ℕ) (b : Bytes) → length b ≡ k → AreBytes b → flip_endian k (load_le b) ≡ load_be b 0
unfolding flip_endian
flip_endian-load_le k b e h =
    let all : k ≡ k + 0 = omega arith in
    let same : 256 ^ k ≤ 256 ^ k = omega arith in
    flip_loop-load_be (256 ^ k) k 0 0 b e h (omega arith)
      (subst (λ (i : ℕ). 256 ^ i ≤ 256 ^ k) all same)

-- The bytes of a flipped number, read the other way round, are the number.
pub load_be-flip_endian : (k v : ℕ) → v < 256 ^ k → load_be (store_le k (flip_endian k v)) 0 ≡ v
load_be-flip_endian k v h =
    let b = store_le k v in
    let size = length-store_le k v in
    let bytes = AreBytes-store_le k v in
    let back : load_le b ≡ v = load_le-store_le k v h in
    let turned : flip_endian k v ≡ load_le (rev b) =
      ap (λ (w : ℕ). flip_endian k w) (sym back)
      ∙ flip_endian-load_le k b size bytes
      ∙ ap (λ (c : Bytes). load_be c 0) (sym (rev-rev b))
      ∙ load_be-rev (rev b) in
    let stored : store_le k (load_le (rev b)) ≡ rev b =
      ap (λ (m : ℕ). store_le m (load_le (rev b))) (sym (length-rev b ∙ size))
      ∙ store_le-load_le (rev b) (AreBytes-rev b bytes) in
    ap (λ (w : ℕ). load_be (store_le k w) 0) turned
    ∙ ap (λ (c : Bytes). load_be c 0) stored
    ∙ load_be-rev b
    ∙ back

-- The number that bytes are, in the one order or the other.
abbrev pub number : Bool → Bytes → ℕ
number true b = load_be b 0
number false b = load_le b

pub number-load :
    (flip : Bool) (k : ℕ) (b : Bytes)
    → length b ≡ k
    → AreBytes b
    → flipped flip k (load_le b) ≡ number flip b
number-load true k b e h = flip_endian-load_le k b e h
number-load false k b e h = refl

pub number-store :
    (flip : Bool) (k v : ℕ) → v < 256 ^ k → number flip (store_le k (flipped flip k v)) ≡ v
number-store true k v h = load_be-flip_endian k v h
number-store false k v h = load_le-store_le k v h
