-- ===== src/Peterson/Results.antt =====
-- What the program does: one thread at a time is inside, and every round counts once.
use concurrencia.Base.{
  ℕ, zero, suc, ◌+◌, ◌*◌, ◌<◌, ◌≡◌, refl, ◌∙◌, ◌⊎◌, inl, inr, ◌≢◌, Bool, true, false, ◌&&◌, none,
  some, List, [], ◌∷◌, ◌++◌, arith, assign, total, total-assign, total_const, ltb, ◌==◌, Bool-cases,
  eq-cases, lt→ltb,
}
use concurrencia.Worker.{Action}
use concurrencia.Peterson.Defs.{
  Thread, System, other, num_threads, count, tick, run, is_done, join, main,
}
use concurrencia.Peterson.Steps.{raises, holds, Fits, coarse, fine, move-nearer}
use concurrencia.Peterson.Invariant.{tally, holds-contends, Good, first}
use concurrencia.Peterson.Kept.{tick-Good, after}

-- Thread `i` is between the return of `lock` and the call of `unlock`.
unfoldable pub in_critical : ℕ → List Action → ℕ → Bool
in_critical max actions i =
    ltb i num_threads && (holds ((run max actions (first max)).threads i).place == 1)

module _ (max : ℕ) where
  in_critical-elim :
      (actions : List Action) (i : ℕ)
      → in_critical max actions i ≡ true
      → (i < 2) × (holds ((run max actions (first max)).threads i).place ≡ 1)
  unfolding in_critical
  in_critical-elim actions i p = ground arith

  pub excludes :
      (actions : List Action) (i j : ℕ)
      → in_critical max actions i ≡ true
      → in_critical max actions j ≡ true
      → i ≡ j
  excludes actions i j p q =
      let s = run max actions (first max) in
      let (h, a) = in_critical-elim actions i p in
      let (k, b) = in_critical-elim actions j q in
      elim (eq-cases i j) [
        | inl e ↦ e
        | inr d ↦
            let only =
              (after max actions).guard i j h k d a (holds-contends (s.threads j).place b) in
            absurd (omega (arith, only.1, b))
      ]

  run-append : (xs ys : List Action) (s : System) → run max (xs ++ ys) s ≡ run max ys (run max xs s)
  unfolding run
  run-append [] ys s = refl
  run-append (x ∷ xs) ys s = run-append xs ys (tick max s x)

  done_tally :
      (k : ℕ) (w : Thread) → is_done max w ≡ true → Fits max k w.place w.round → tally w ≡ max
  done_tally k w d f = ground arith

  done_raises : (w : Thread) → is_done max w ≡ true → raises w.place ≡ 0
  done_raises w d = ground arith

  not_done_below :
      (k : ℕ) (w : Thread) → is_done max w ≡ false → Fits max k w.place w.round → w.round < max
  not_done_below k w d f = ground arith

  abbrev AllEnded : System → Type 0
  AllEnded s = (i : ℕ) → i < 2 → is_done max (s.threads i) ≡ true

  done_counter : (s : System) → Good max s → AllEnded s → s.counter ≡ 2 * max
  done_counter s g d =
      g.counted
      ∙ total_const tally 2 max s.threads
          (λ i h. done_tally s.counter (s.threads i) (d i h) (g.fits i h))

  abbrev left : Thread → ℕ
  left w = coarse max w.place w.round

  work : System → ℕ
  work s = total left 2 s.threads

  -- What is left of both waits.
  waits : System → ℕ
  waits s = fine (s.states 1) (s.threads 0).place + fine (s.states 0) (s.threads 1).place

  abbrev go : ℕ → Action
  go i = record { thread = i; choice = 0 }

  abbrev Nearer : System → System → Type 0
  Nearer s s' = (work s' < work s) ⊎ ((work s' ≡ work s) × (waits s' < waits s))

  -- A step that keeps the states shortens its own wait alone.
  waits-assign :
      (s : System) (i : ℕ) (x t k : ℕ) (w : Thread)
      → i < 2
      → x ≡ s.states i
      → fine (s.states (other i)) w.place < fine (s.states (other i)) (s.threads i).place
      → waits (record {
        states = assign s.states i x;
        turn = t;
        counter = k;
        threads = assign s.threads i w;
      })
        < waits s
  unfolding waits
  waits-assign s zero x t k w h e f = rw e (omega (arith, f))
  waits-assign s (suc zero) x t k w h e f = rw e (omega (arith, f))
  waits-assign s (suc (suc i)) x t k w h e f = absurd (omega arith)

  tick-Nearer :
      (s : System) (i : ℕ)
      → Good max s
      → i < 2
      → is_done max (s.threads i) ≡ false
      → (s.states (other i) ≡ 0) ⊎ (s.turn ≡ i)
      → Nearer s (tick max s (go i))
  unfolding tick count work
  tick-Nearer s i g h d free =
      rw (lt→ltb _ _ h)
        (elim (move-nearer max i (s.states i) (s.states (other i)) s.turn s.counter
          (s.threads i).round (s.threads i).place (g.fits i h)
          (not_done_below s.counter (s.threads i) d (g.fits i h)) h free) [
            | inl falls ↦
                inl (omega (arith, falls, total-assign left 2 s.threads i (count max i s).thread h))
            | inr (equal, (same, falls)) ↦ inr (
              omega (arith, equal, total-assign left 2 s.threads i (count max i s).thread h),
              waits-assign s i (count max i s).state (count max i s).turn (count max i s).counter
                  (count max i s).thread h same falls,
            )
          ])

  other_lt : (i : ℕ) → other i < 2
  other_lt i = omega arith

  other-other : (i : ℕ) → i < 2 → other (other i) ≡ i
  other-other i h = omega arith

  one_of : (i j : ℕ) → i < 2 → j < 2 → i ≢ j → other i ≡ j
  one_of i j h k d = omega arith

  -- The thread that has the turn can go on, or else the other one, or both have ended.
  progress : (s : System) → Good max s → ((i : ℕ) × Nearer s (tick max s (go i))) ⊎ AllEnded s
  progress s g = elim (Bool-cases (is_done max (s.threads s.turn))) [
    | inr d ↦ inl (s.turn, tick-Nearer s s.turn g g.turn_lt d (inr refl))
    | inl first_done ↦ elim (Bool-cases (is_done max (s.threads (other s.turn)))) [
      | inr d ↦ inl (
        other s.turn,
        tick-Nearer s (other s.turn) g (other_lt s.turn) d (
            inl (
              rw (other-other s.turn g.turn_lt)
                (g.flags s.turn g.turn_lt ∙ done_raises (s.threads s.turn) first_done))),
      )
      | inl second_done ↦ inr (λ i h. elim (eq-cases s.turn i) [
        | inl e ↦ rw (← e) first_done
        | inr d ↦ rw (← one_of s.turn i g.turn_lt h d) second_done
      ])
    ]
  ]

  join_of : (s : System) → Good max s → AllEnded s → join max s ≡ some (2 * max)
  unfolding join
  join_of s g d = rw (d 0 (omega arith), d 1 (omega arith), done_counter s g d)

  completes_within :
      (fuel tries : ℕ) (s : System)
      → Good max s
      → work s < fuel
      → waits s < tries
      → (rest : List Action) × (join max (run max rest s) ≡ some (2 * max))
  unfolding run
  completes_within zero tries s g h k = absurd (omega arith)
  completes_within (suc fuel) zero s g h k = absurd (omega arith)
  completes_within (suc fuel) (suc tries) s g h k = elim (progress s g) [
    | inl (i, inl falls) ↦
        let (rest, e) =
          completes_within fuel (suc (waits (tick max s (go i)))) (tick max s (go i))
            (tick-Good max s (go i) g) (omega arith) (omega arith) in
        (go i ∷ rest, e)
    | inl (i, inr (same, falls)) ↦
        let (rest, e) =
          completes_within (suc fuel) tries (tick max s (go i)) (tick-Good max s (go i) g)
            (omega arith) (omega arith) in
        (go i ∷ rest, e)
    | inr d ↦ ([], join_of s g d)
  ]

  both : (a b : Bool) → (a && b) ≡ true → (a ≡ true) × (b ≡ true)
  both a b h = ground arith

  ended_of :
      (s : System) → (is_done max (s.threads 0) && is_done max (s.threads 1)) ≡ true → AllEnded s
  ended_of s e i h =
      let (a, b) = both (is_done max (s.threads 0)) (is_done max (s.threads 1)) e in
      elim (eq-cases i 0) [ inl f ↦ rw f a | inr f ↦ let last : i ≡ 1 = omega arith in rw last b ]

  join_done : (s : System) → Good max s → (join max s ≡ none) ⊎ (join max s ≡ some (2 * max))
  unfolding join
  join_done s g = elim (Bool-cases (is_done max (s.threads 0) && is_done max (s.threads 1))) [
    | inl e ↦ inr (rw (e, done_counter s g (ended_of s e)))
    | inr e ↦ inl (rw e)
  ]

  pub prints :
      (actions : List Action)
      → ((main max actions ≡ none) ⊎ (main max actions ≡ some (2 * max)))
        × ((rest : List Action) × (main max (actions ++ rest) ≡ some (2 * max)))
  unfolding main
  prints actions =
      let now : Good max (run max actions (first max)) = after max actions in
      let (rest, e) =
        completes_within (suc (work (run max actions (first max))))
          (suc (waits (run max actions (first max)))) _ now (omega arith) (omega arith) in
      (join_done _ now, (rest, rw (run-append actions rest (first max)) e))
