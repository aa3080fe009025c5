-- ===== src/Atomic/Results.antt =====
-- What such a program prints: every round counts once.
use mathlib.Core.Path.{fun_ext}
use concurrencia.Base.{
  ℕ, zero, suc, ◌+◌, ◌-◌, ◌≤◌, ◌<◌, ◌≡◌, refl, sym, ap, ◌∙◌, ◌⊎◌, inl, inr, Bool, true, ◌&&◌, none,
  some, List, [], ◌∷◌, ◌++◌, arith, assign, total, total-assign, total_const, search_below, ltb,
  leb, Bool-cases, eq-cases, lt-cases, lt→ltb, ltb→lt,
}
use concurrencia.Worker
use concurrencia.Worker.{Task, Action, hits}
use concurrencia.Atomic.Defs.{
  System, goes_through, commit, count, tick, run, create, all_done, join, main,
}

module _ (task : Task) (retries : Bool) (n max : ℕ) where
  open task use {cell, writes, report}

  record Good (s : System) : Type 0 where
    counted : (j : ℕ) → s.counter j ≡ total (hits task j) n s.rounds
    bounded : (i : ℕ) → i < n → s.rounds i ≤ max

  create-Good : Good create
  unfolding hits
  create-Good = record {
    counted = λ j. sym (total_const (hits task j) n 0 (λ i. 0) (λ i h. refl) ∙ omega arith);
    bounded = λ i h. omega arith;
  }

  pub commit_counted :
      (k : ℕ → ℕ) (r j : ℕ) → commit task k r j + hits task j r ≡ k j + hits task j (suc r)
  unfolding commit hits
  commit_counted k r j = elim (Bool-cases (writes r)) [
    | inl w ↦
        rw w (elim (eq-cases (cell r) j) [ inl d ↦ ground (arith, ap k d) | inr d ↦ ground arith ])
    | inr w ↦ rw w (omega arith)
  ]

  module _ (s : System) (g : Good s) (i c : ℕ) (h : i < n) where
    open g use {counted, bounded}

    abbrev next : System
    next = record {
      counter = commit task s.counter (s.rounds i);
      rounds = assign s.rounds i (suc (s.rounds i));
    }

    next-Good : s.rounds i < max → Good next
    next-Good below = record {
      counted = λ j. omega (
        arith,
        counted j,
        commit_counted s.counter (s.rounds i) j,
        total-assign (hits task j) n s.rounds i (suc (s.rounds i)) h,
      );
      bounded = λ j k. ground (arith, bounded j k);
    }

    count-Good : Good (count task retries n max i c s)
    unfolding count
    count-Good = elim (Bool-cases (ltb (s.rounds i) max)) [
      | inl p ↦ elim (Bool-cases (goes_through retries c)) [
        | inl q ↦ rw (p, q) (next-Good (ltb→lt _ _ p))
        | inr q ↦ rw (p, q) g
      ]
      | inr p ↦ rw p g
    ]

  tick-Good : (s : System) (a : Action) → Good s → Good (tick task retries n max s a)
  unfolding tick
  tick-Good s a g = elim (Bool-cases (ltb a.thread n)) [
    | inl p ↦ rw p (count-Good s g a.thread a.choice (ltb→lt _ _ p))
    | inr p ↦ rw p g
  ]

  run-Good : (actions : List Action) (s : System) → Good s → Good (run task retries n max actions s)
  unfolding run
  run-Good [] s g = g
  run-Good (a ∷ rest) s g = run-Good rest (tick task retries n max s a) (tick-Good s a g)

  run-append :
      (xs ys : List Action) (s : System)
      → run task retries n max (xs ++ ys) s
        ≡ run task retries n max ys (run task retries n max xs s)
  unfolding run
  run-append [] ys s = refl
  run-append (x ∷ xs) ys s = run-append xs ys (tick task retries n max s x)

  first_part : (a b : Bool) → (a && b) ≡ true → (a ≡ true) × (b ≡ true)
  first_part a b h = ground arith

  all_done-intro :
      (m : ℕ) (rs : ℕ → ℕ)
      → ((i : ℕ) → i < m → leb max (rs i) ≡ true)
      → all_done task retries n max m rs ≡ true
  unfolding all_done
  all_done-intro zero rs h = refl
  all_done-intro (suc m) rs h =
      rw (h m (omega arith)) (all_done-intro m rs (λ i k. h i (omega arith)))

  all_done-elim :
      (m : ℕ) (rs : ℕ → ℕ)
      → all_done task retries n max m rs ≡ true
      → (i : ℕ) → i < m
      → leb max (rs i) ≡ true
  unfolding all_done
  all_done-elim zero rs h i k = absurd (omega arith)
  all_done-elim (suc m) rs h i k = elim (lt-cases i m) [
    | inl below ↦ all_done-elim m rs (first_part (leb max (rs m)) _ h).1 i below
    | inr last ↦ let e : i ≡ m = omega arith in rw e (first_part (leb max (rs m)) _ h).0
  ]

  done_counter :
      (s : System)
      → Good s
      → all_done task retries n max n s.rounds ≡ true
      → s.counter ≡ Worker.expected n max task
  done_counter s g d = fun_ext (λ j.
      g.counted j
      ∙ total_const (hits task j) n (hits task j max) s.rounds (λ i h. ap (hits task j) (full i h)))
    where
      full : (i : ℕ) → i < n → s.rounds i ≡ max
      full i h = ground (arith, all_done-elim n s.rounds d i h, g.bounded i h)

  work : System → ℕ
  work s = total (λ r. max - r) n s.rounds

  -- An attempt that goes through brings the end nearer.
  work-tick :
      (s : System) (i : ℕ)
      → i < n
      → s.rounds i < max
      → work (tick task retries n max s (record { thread = i; choice = 0 })) < work s
  unfolding work tick count
  work-tick s i h below =
      rw (lt→ltb _ _ h, lt→ltb _ _ below, through retries)
        (omega (arith, total-assign (λ r. max - r) n s.rounds i (suc (s.rounds i)) h))
    where
      through : (b : Bool) → goes_through b 0 ≡ true
      through b = ground arith

  completes_within :
      (fuel : ℕ) (s : System)
      → Good s
      → work s < fuel
      → (rest : List Action) × (join task retries n max (run task retries n max rest s)
          ≡ some (report (Worker.expected n max task)))
  unfolding run join
  completes_within zero s g h = absurd (omega arith)
  completes_within (suc fuel) s g h = elim (search_below (λ (r : ℕ). ltb r max) n s.rounds) [
    | inl (i, k, p) ↦
        let a : Action = record { thread = i; choice = 0 } in
        let falls : work (tick task retries n max s a) < work s = work-tick s i k (ltb→lt _ _ p) in
        let (rest, e) =
          completes_within fuel (tick task retries n max s a) (tick-Good s a g) (omega arith) in
        (a ∷ rest, e)
    | inr all ↦
        let d : all_done task retries n max n s.rounds ≡ true =
          all_done-intro n s.rounds (λ i k. ground (arith, all i k)) in
        ([], rw (d, done_counter s g d))
  ]

  after : (actions : List Action) → Good (run task retries n max actions create)
  after actions = run-Good actions create create-Good

  join_done :
      (s : System)
      → Good s
      → (join task retries n max s ≡ none)
        ⊎ (join task retries n max s ≡ some (report (Worker.expected n max task)))
  unfolding join
  join_done s g = elim (Bool-cases (all_done task retries n max n s.rounds)) [
    | inl e ↦ inr (rw (e, done_counter s g e))
    | inr e ↦ inl (rw e)
  ]

  -- What the program prints: nothing yet, or what all rounds add up to; and it can be run to the end.
  pub prints :
      (actions : List Action)
      → ((main task retries n max actions ≡ none)
          ⊎ (main task retries n max actions ≡ some (report (Worker.expected n max task))))
        × ((rest : List Action) × (main task retries n max (actions ++ rest)
              ≡ some (report (Worker.expected n max task))))
  unfolding main
  prints actions =
      let (rest, e) =
        completes_within (suc (work (run task retries n max actions create))) _ (after actions)
          (omega arith) in
      (join_done _ (after actions), (rest, rw (run-append actions rest create) e))
