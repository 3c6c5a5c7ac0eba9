-- ===== src/Coverage.antt =====
-- coverage.h of TinyInst, which the fuzzer and the server use: a coverage is a set of offsets for
-- each module, with the operations of that library.
pub mod Lists
use jackalope.Prelude.{ℕ, ◌≡◌, Bool, true, false, ◌&&◌, ◌||◌, not}
use jackalope.Prelude.Memory.{Bytes}

-- `has c m x` says that the offset `x` of the module `m` is in `c`.
pub record CoverageOps (Coverage : Type 0) : Type 0 where
  pub none_covered : Coverage
  pub has : Coverage → Bytes → ℕ → Bool
  pub empty : Coverage → Bool
  pub coverage_difference : Coverage → Coverage → Coverage
  pub coverage_intersection : Coverage → Coverage → Coverage
  pub merge_coverage : Coverage → Coverage → Coverage
  pub coverage_contains : Coverage → Coverage → Bool
  -- CoverageDifference: what the second has and the first does not.
  pub has-difference :
      (a b : Coverage) (m : Bytes) (x : ℕ)
      → has (coverage_difference a b) m x ≡ has b m x && not (has a m x)
  pub has-intersection :
      (a b : Coverage) (m : Bytes) (x : ℕ)
      → has (coverage_intersection a b) m x ≡ has a m x && has b m x
  pub has-merge :
      (a b : Coverage) (m : Bytes) (x : ℕ) → has (merge_coverage a b) m x ≡ has a m x || has b m x
  -- CoverageContains: the first has all that the second has.
  pub has-contains :
      (a b : Coverage)
      → coverage_contains a b ≡ true
      → (m : Bytes) (x : ℕ) → has b m x ≡ true
      → has a m x ≡ true
  pub has-empty : (c : Coverage) → empty c ≡ true → (m : Bytes) (x : ℕ) → has c m x ≡ false
  pub has-none_covered : (m : Bytes) (x : ℕ) → has none_covered m x ≡ false
