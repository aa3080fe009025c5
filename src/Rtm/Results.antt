-- ===== src/Rtm/Results.antt =====
-- What such a program does: one thread at a time holds the lock, and every round counts once,
-- in a transaction or under the lock.
use mathlib.Core.Path.{fun_ext}
use concurrencia.Base.{
  ℕ, zero, suc, ◌+◌, ◌<◌, ◌≡◌, refl, ◌∙◌, ◌⊎◌, inl, inr, Bool, true, false, ◌&&◌, none, some, List,
  [], ◌∷◌, ◌++◌, arith, total, total-assign, total_const, total_pos, weight-le-total,
  weight-weight-le-total, search_below, ltb, not, Bool-cases, eq-cases, lt-cases, lt→ltb, ◌==◌,
}
use concurrencia.Worker
use concurrencia.Worker.{Task, Action, hits}
use concurrencia.Rtm.Defs.{
  Intrinsics, Thread, System, played, count, tick, run, is_done, all_done, join, main,
}
use concurrencia.Rtm.Steps.{owns, free, Fits, cost, turn-cost}
use concurrencia.Rtm.Invariant.{Good, first, weight, tally, tick-Good, after, run-append}

both : (a b : Bool) → (a && b) ≡ true → (a ≡ true) × (b ≡ true)
both a b h = ground arith

-- Thread `i` is between the return of `lock` and the call of `unlock`.
unfoldable pub in_lock : Intrinsics → Task → ℕ → ℕ → List Action → ℕ → Bool
in_lock intrinsics task n max actions i =
    let s = run intrinsics task n max actions (first intrinsics task n max) in
    ltb i n && (owns (s.threads i).place == 1)

module _ (intrinsics : Intrinsics) (task : Task) (n max : ℕ) where
  open task use {cell, writes, report}

  abbrev GoodNow : System → Type 0
  GoodNow = Good intrinsics task n max

  abbrev weight_now : Thread → ℕ
  weight_now = weight intrinsics task n max

  all_done-intro :
      (m : ℕ) (ws : ℕ → Thread)
      → ((i : ℕ) → i < m → is_done intrinsics task n max (ws i) ≡ true)
      → all_done intrinsics task n max m ws ≡ true
  unfolding all_done
  all_done-intro zero ws h = refl
  all_done-intro (suc m) ws h =
      rw (h m (omega arith)) (all_done-intro m ws (λ i k. h i (omega arith)))

  all_done-elim :
      (m : ℕ) (ws : ℕ → Thread)
      → all_done intrinsics task n max m ws ≡ true
      → (i : ℕ) → i < m
      → is_done intrinsics task n max (ws i) ≡ true
  unfolding all_done
  all_done-elim zero ws h i k = absurd (omega arith)
  all_done-elim (suc m) ws h i k = elim (lt-cases i m) [
    | inl below ↦ all_done-elim m ws (both (is_done intrinsics task n max (ws m)) _ h).1 i below
    | inr last ↦
        let e : i ≡ m = omega arith in rw e ((both (is_done intrinsics task n max (ws m)) _ h).0)
  ]

  done_tally :
      (j : ℕ) (k : ℕ → ℕ) (w : Thread)
      → is_done intrinsics task n max w ≡ true
      → Fits max cell k w.place w.round
      → tally intrinsics task n max j w ≡ hits task j max
  done_tally j k w d h = ground arith

  done_counter :
      (s : System)
      → GoodNow s
      → all_done intrinsics task n max n s.threads ≡ true
      → s.counter ≡ Worker.expected n max task
  done_counter s g d = fun_ext (λ j.
      g.counted j
      ∙ total_const (tally intrinsics task n max j) n (hits task j max) s.threads (λ i h.
        done_tally j s.counter (s.threads i) (all_done-elim n s.threads d i h) (g.fits i h)))

  not_done_below :
      (k : ℕ → ℕ) (w : Thread)
      → is_done intrinsics task n max w ≡ false
      → Fits max cell k w.place w.round
      → w.round < max
  not_done_below k w d h = ground arith

  owner_not_done : (w : Thread) → 0 < owns w.place → is_done intrinsics task n max w ≡ false
  owner_not_done w h = ground arith

  abbrev left : Thread → ℕ
  left w = cost max w.place w.round

  work : System → ℕ
  work s = total left n s.threads

  abbrev go : ℕ → ℕ → Action
  go c i = record { thread = i; choice = c }

  work-tick :
      (c : ℕ) (s : System) (i : ℕ)
      → GoodNow s
      → i < n
      → is_done intrinsics task n max (s.threads i) ≡ false
      → owns (s.threads i).place + free s.mutex ≡ 1
      → work (tick intrinsics task n max s (go c i)) < work s
  unfolding work tick count
  work-tick c s i g h d one = rw (lt→ltb _ _ h) (
      omega (
        arith,
        total-assign left n s.threads i (count intrinsics task n max c s (s.threads i)).thread h,
        turn-cost intrinsics task n max c s.mutex s.counter (s.threads i).place (s.threads i).round
            (g.fits i h) (not_done_below s.counter (s.threads i) d (g.fits i h)) one,
      ))

  -- All threads have ended, or the step of one brings the end nearer: of the one that holds the
  -- lock, or of any other one while the lock is free.
  progress :
      (c : ℕ) (s : System)
      → GoodNow s
      → ((i : ℕ) × (work (tick intrinsics task n max s (go c i)) < work s))
        ⊎ (all_done intrinsics task n max n s.threads ≡ true)
  progress c s g = elim (lt-cases 0 (total weight_now n s.threads)) [
    | inl taken ↦
        let (i, h, p) = total_pos weight_now n s.threads taken in
        inl (
          i,
          work-tick c s i g h (owner_not_done (s.threads i) p)
              (omega (arith, g.one, weight-le-total weight_now n s.threads i h)),
        )
    | inr not_taken ↦ elim (search_below (λ w. not (is_done intrinsics task n max w)) n s.threads) [
      | inl (i, h, p) ↦ inl (
        i,
        work-tick c s i g h (ground arith)
            (omega (arith, g.one, weight-le-total weight_now n s.threads i h)),
      )
      | inr all ↦ inr (all_done-intro n s.threads (λ i h. ground (arith, all i h)))
    ]
  ]

  -- Against any environment.
  completes_within :
      (environment : ℕ → ℕ) (fuel : ℕ) (s : System)
      → GoodNow s
      → work s < fuel
      → (schedule : List ℕ) × (join intrinsics task n max
            (run intrinsics task n max (played environment schedule) s)
          ≡ some (report (Worker.expected n max task)))
  unfolding run join
  completes_within environment zero s g h = absurd (omega arith)
  completes_within environment (suc fuel) s g h = elim (progress (environment 0) s g) [
    | inl (i, falls) ↦
        let (schedule, e) =
          completes_within (λ k. environment (suc k)) fuel
            (tick intrinsics task n max s (go (environment 0) i))
            (tick-Good intrinsics task n max s (go (environment 0) i) g) (omega arith) in
        (i ∷ schedule, e)
    | inr d ↦ ([], rw (d, done_counter s g d))
  ]

  join_done :
      (s : System)
      → GoodNow s
      → (join intrinsics task n max s ≡ none)
        ⊎ (join intrinsics task n max s ≡ some (report (Worker.expected n max task)))
  unfolding join
  join_done s g = elim (Bool-cases (all_done intrinsics task n max n s.threads)) [
    | inl e ↦ inr (rw (e, done_counter s g e))
    | inr e ↦ inl (rw e)
  ]

  -- What the program prints: nothing yet, or what all rounds add up to; and it can be run to the end
  -- against any environment.
  pub prints :
      (actions : List Action) (environment : ℕ → ℕ)
      → ((main intrinsics task n max actions ≡ none)
          ⊎ (main intrinsics task n max actions ≡ some (report (Worker.expected n max task))))
        × ((schedule : List ℕ) × (main intrinsics task n max
                (actions ++ played environment schedule)
              ≡ some (report (Worker.expected n max task))))
  unfolding main
  prints actions environment =
      let now : GoodNow (run intrinsics task n max actions (first intrinsics task n max)) =
        after intrinsics task n max actions in
      let (schedule, e) =
        completes_within environment
          (suc (work (run intrinsics task n max actions (first intrinsics task n max)))) _ now
          (omega arith) in
      (
        join_done _ now,
        (
          schedule,
          rw
              (run-append intrinsics task n max actions (played environment schedule)
                (first intrinsics task n max))
              e,
        ),
      )

  -- One thread at a time holds the lock.
  pub excludes :
      (actions : List Action) (i j : ℕ)
      → in_lock intrinsics task n max actions i ≡ true
      → in_lock intrinsics task n max actions j ≡ true
      → i ≡ j
  unfolding in_lock
  excludes actions i j p q = elim (eq-cases i j) [
    | inl e ↦ e
    | inr d ↦ absurd (
        omega (
          arith,
          g.one,
          weight-weight-le-total (weight intrinsics task n max) n s.threads i j (below i p)
              (below j q) d,
          owner i p,
          owner j q,
        ))
  ]
    where
      s : System
      s = run intrinsics task n max actions (first intrinsics task n max)

      g : GoodNow s
      g = after intrinsics task n max actions

      below : (i : ℕ) → in_lock intrinsics task n max actions i ≡ true → i < n
      below i p = ground arith

      owner :
          (i : ℕ) → in_lock intrinsics task n max actions i ≡ true → owns (s.threads i).place ≡ 1
      owner i p = ground arith
