-- ===== src/Base/Family.antt =====
-- Families `ℕ → A` with one value for each thread: writing one entry, adding up a weight over
-- the first `n` entries, and finding an entry that passes a test.
use Prim.Native.Nat.{ℕ, zero, suc, ◌+◌, ◌*◌, ◌≤◌, ◌<◌}
use mathlib.Core.Path.{◌≡◌, refl, fun_ext}
use mathlib.Core.Logic.{◌≢◌, ◌⊎◌, inl, inr}
use mathlib.Core.Bool.{Bool, true, false}
use native.Mathlib.Omega.{arith}
use concurrencia.Base.Tests.{◌==◌, if◌then◌else◌, Bool-cases, eq-cases, lt-cases}

abbrev pub assign {ℓ} : {A : Type ℓ} → (ℕ → A) → ℕ → A → ℕ → A
assign f i a j = if i == j then a else f j

module _ {ℓ} {A : Type ℓ} where
  pub assign_self : (f : ℕ → A) (i : ℕ) (a : A) → assign f i a i ≡ a
  assign_self f i a = ground arith

  -- An entry written with its own value.
  pub assign_same : (f : ℕ → A) (i : ℕ) → assign f i (f i) ≡ f
  assign_same f i = fun_ext (λ j. ground arith)

  pub assign_unchanged : (f : ℕ → A) (i : ℕ) (a : A) → f i ≡ a → assign f i a ≡ f
  assign_unchanged f i a e = fun_ext (λ j. ground arith)

  pub assign_other : (f : ℕ → A) (i j : ℕ) (a : A) → i ≢ j → assign f i a j ≡ f j
  assign_other f i j a h = ground arith

  -- What holds of the new entry and of all others at their old values holds of all.
  pub everywhere :
      (P : ℕ → A → Type 0) (n : ℕ) (f : ℕ → A) (i : ℕ) (a : A)
      → P i a
      → ((j : ℕ) → j < n → i ≢ j → P j (f j))
      → (j : ℕ) → j < n
      → P j (assign f i a j)
  everywhere P n f i a here others j l = elim (eq-cases i j) [
    | inl e ↦ rw (← e, assign_self f i a) here
    | inr d ↦ rw (assign_other f i j a d) (others j l d)
  ]

  -- The first `n` entries have a member that passes the test, or none passes.
  pub search_below :
      (test : A → Bool) (n : ℕ) (f : ℕ → A)
      → ((i : ℕ) × (i < n) × (test (f i) ≡ true)) ⊎ ((i : ℕ) → i < n → test (f i) ≡ false)
  search_below test zero f = inr (λ i h. absurd (omega arith))
  search_below test (suc n) f = elim (Bool-cases (test (f n))) [
    | inl here ↦ inl (n, omega arith, here)
    | inr miss ↦ elim (search_below test n f) [
      | inl (i, h, p) ↦ inl (i, omega arith, p)
      | inr all ↦ inr (λ i h. elim (lt-cases i n) [
        | inl below ↦ all i below
        | inr last ↦ let e : i ≡ n = omega arith in rw e miss
      ])
    ]
  ]

module _ {ℓ} {A : Type ℓ} (weight : A → ℕ) where
  pub total : ℕ → (ℕ → A) → ℕ
  total zero f = 0
  total (suc n) f = total n f + weight (f n)

  total-assign_outside :
      (n : ℕ) (f : ℕ → A) (i : ℕ) (a : A) → n ≤ i → total n (assign f i a) ≡ total n f
  unfolding total
  total-assign_outside zero f i a h = refl
  total-assign_outside (suc n) f i a h = ground (arith, total-assign_outside n f i a)

  -- Writing entry `i` exchanges its weight.
  pub total-assign :
      (n : ℕ) (f : ℕ → A) (i : ℕ) (a : A)
      → i < n
      → total n (assign f i a) + weight (f i) ≡ total n f + weight a
  unfolding total
  total-assign zero f i a h = absurd (omega arith)
  total-assign (suc n) f i a h = elim (lt-cases i n) [
    | inl below ↦ ground (arith, total-assign n f i a below)
    | inr last ↦ ground (arith, total-assign_outside n f i a)
  ]

  pub weight-le-total : (n : ℕ) (f : ℕ → A) (i : ℕ) → i < n → weight (f i) ≤ total n f
  unfolding total
  weight-le-total zero f i h = absurd (omega arith)
  weight-le-total (suc n) f i h = elim (lt-cases i n) [
    | inl below ↦ omega (arith, weight-le-total n f i below)
    | inr last ↦ let e : i ≡ n = omega arith in rw e (omega arith)
  ]

  -- Two different entries weigh no more than all.
  pub weight-weight-le-total :
      (n : ℕ) (f : ℕ → A) (i j : ℕ)
      → i < n
      → j < n
      → i ≢ j
      → weight (f i) + weight (f j) ≤ total n f
  unfolding total
  weight-weight-le-total zero f i j h k d = absurd (omega arith)
  weight-weight-le-total (suc n) f i j h k d = elim (lt-cases i n) [
    | inl p ↦ elim (lt-cases j n) [
      | inl q ↦ omega (arith, weight-weight-le-total n f i j p q d)
      | inr last ↦ let e : j ≡ n = omega arith in rw e (omega (arith, weight-le-total n f i p))
    ]
    | inr last ↦
        let e : i ≡ n = omega arith in
        let q : j < n = omega arith in rw e (omega (arith, weight-le-total n f j q))
  ]

  pub total_const : (n k : ℕ) (f : ℕ → A) → ((i : ℕ) → i < n → weight (f i) ≡ k) → total n f ≡ n * k
  unfolding total
  total_const zero k f h = omega arith
  total_const (suc n) k f h =
      omega (arith, total_const n k f (λ i l. h i (omega arith)), h n (omega arith))

  -- A positive total has an entry of positive weight.
  pub total_pos : (n : ℕ) (f : ℕ → A) → 0 < total n f → (i : ℕ) × (i < n) × (0 < weight (f i))
  unfolding total
  total_pos zero f h = absurd (omega arith)
  total_pos (suc n) f h = elim (lt-cases 0 (weight (f n))) [
    | inl here ↦ (n, omega arith, here)
    | inr none_here ↦ let (i, l, p) = total_pos n f (omega arith) in (i, omega arith, p)
  ]

  pub total-le : ((a : A) → weight a ≤ 1) → (n : ℕ) (f : ℕ → A) → total n f ≤ n
  unfolding total
  total-le small zero f = omega arith
  total-le small (suc n) f = omega (arith, total-le small n f, small (f n))
