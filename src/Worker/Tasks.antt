-- ===== src/Worker/Tasks.antt =====
-- The critical sections of the programs that do more than count: a counter that one round in ten
-- raises, and an array of counters.
use concurrencia.Base.{
  ℕ, zero, suc, ◌+◌, ◌*◌, ◌/◌, ◌%◌, ◌<◌, ◌≡◌, refl, ◌∙◌, true, arith, ◌==◌, ltb, if◌then◌else◌,
}
use native.Mathlib.Nat.{mod-lt}
use concurrencia.Worker.Defs.{Task}
use concurrencia.Worker.Shape.{hits}
use concurrencia.Worker.Results.{expected}

-- `if (i % 10) c = counter; else counter += 1;`
abbrev pub one_in_ten : Task
one_in_ten = record { cell = λ r. 0; writes = λ r. r % 10 == 0; report = λ k. k 0 }

hits-one_in_ten : (r : ℕ) → hits one_in_ten 0 r ≡ (r + 9) / 10
unfolding hits
hits-one_in_ten zero = refl
hits-one_in_ten (suc r) = ground (arith, hits-one_in_ten r)

pub expected-one_in_ten :
    (n max : ℕ) → one_in_ten.report (expected n max one_in_ten) ≡ n * ((max + 9) / 10)
expected-one_in_ten n max = rw (hits-one_in_ten max)

-- `SUM`: the cells below `size`, added up.
unfoldable pub sum_cells : ℕ → (ℕ → ℕ) → ℕ
sum_cells zero k = 0
sum_cells (suc j) k = sum_cells j k + k j

-- `counter[i % size]++`
abbrev pub array : ℕ → Task
array size = record { cell = λ r. r % size; writes = λ r. true; report = sum_cells size }

sum_cells-zero : (size : ℕ) → sum_cells size (λ j. 0) ≡ 0
unfolding sum_cells
sum_cells-zero zero = refl
sum_cells-zero (suc size) = omega (arith, sum_cells-zero size)

sum_cells-add :
    (size : ℕ) (f g : ℕ → ℕ) → sum_cells size (λ j. f j + g j) ≡ sum_cells size f + sum_cells size g
unfolding sum_cells
sum_cells-add zero f g = refl
sum_cells-add (suc size) f g = omega (arith, sum_cells-add size f g)

sum_cells-mul : (size n : ℕ) (f : ℕ → ℕ) → sum_cells size (λ j. n * f j) ≡ n * sum_cells size f
unfolding sum_cells
sum_cells-mul zero n f = omega arith
sum_cells-mul (suc size) n f = omega (arith, sum_cells-mul size n f)

sum_cells-one :
    (size x : ℕ) → sum_cells size (λ j. if x == j then 1 else 0) ≡ (if ltb x size then 1 else 0)
unfolding sum_cells
sum_cells-one zero x = ground arith
sum_cells-one (suc size) x = ground (arith, sum_cells-one size x)

sum_cells-hits : (size r : ℕ) → 0 < size → sum_cells size (λ j. hits (array size) j r) ≡ r
unfolding hits
sum_cells-hits size zero h = sum_cells-zero size
sum_cells-hits size (suc r) h =
    sum_cells-add size (λ j. hits (array size) j r) (λ j. if r % size == j then 1 else 0)
    ∙ omega (arith, sum_cells-hits size r h, one)
  where
    one : sum_cells size (λ j. if r % size == j then 1 else 0) ≡ 1
    one = sum_cells-one size (r % size) ∙ ground (arith, mod-lt r h)

pub expected-array :
    (n max size : ℕ) → 0 < size → (array size).report (expected n max (array size)) ≡ n * max
expected-array n max size h =
    sum_cells-mul size n (λ j. hits (array size) j max) ∙ rw (sum_cells-hits size max h)
