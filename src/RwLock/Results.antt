-- ===== src/RwLock/Results.antt =====
-- What the program prints: what the writers have added.
use concurrencia.Base.{
  ℕ, zero, suc, ◌+◌, ◌*◌, ◌/◌, ◌%◌, ◌^◌, ◌<◌, ◌≡◌, refl, ◌∙◌, ◌⊎◌, inl, inr, Bool, true, false,
  ◌&&◌, not, none, some, List, [], ◌∷◌, ◌++◌, arith, total, total-assign, total_const, total_pos,
  weight-le-total, search_below, Bool-cases, lt-cases, lt→ltb,
}
use concurrencia.Worker.{Action}
use concurrencia.RwLock.Defs.{Thread, System, count, tick, run, is_done, all_done, join, main}
use concurrencia.RwLock.Steps.{Fits, coarse, fine, turn-nearer}
use concurrencia.RwLock.Invariant.{
  reader, writer, tally, reads-writes, Good, first, tick-Good, after,
}

both : (a b : Bool) → (a && b) ≡ true → (a ≡ true) × (b ≡ true)
both a b h = ground arith

module _ (n max : ℕ) where
  all_done-intro :
      (m : ℕ) (ws : ℕ → Thread)
      → ((i : ℕ) → i < m → is_done n max (ws i) ≡ true)
      → all_done n max m ws ≡ true
  unfolding all_done
  all_done-intro zero ws h = refl
  all_done-intro (suc m) ws h =
      rw (h m (omega arith)) (all_done-intro m ws (λ i k. h i (omega arith)))

  all_done-elim :
      (m : ℕ) (ws : ℕ → Thread)
      → all_done n max m ws ≡ true
      → (i : ℕ) → i < m
      → is_done n max (ws i) ≡ true
  unfolding all_done
  all_done-elim zero ws h i k = absurd (omega arith)
  all_done-elim (suc m) ws h i k = elim (lt-cases i m) [
    | inl below ↦ all_done-elim m ws (both (is_done n max (ws m)) _ h).1 i below
    | inr last ↦ let e : i ≡ m = omega arith in rw e ((both (is_done n max (ws m)) _ h).0)
  ]

  run-append :
      (xs ys : List Action) (s : System) → run n max (xs ++ ys) s ≡ run n max ys (run n max xs s)
  unfolding run
  run-append [] ys s = refl
  run-append (x ∷ xs) ys s = run-append xs ys (tick n max s x)

  done_tally :
      (k : ℕ) (w : Thread)
      → is_done n max w ≡ true
      → Fits max k w.place w.round
      → tally w ≡ (max + 9) / 10
  done_tally k w d f = ground arith

  done_counter :
      (s : System)
      → Good n max s
      → all_done n max n s.threads ≡ true
      → s.counter ≡ n * ((max + 9) / 10)
  done_counter s g d =
      g.counted
      ∙ total_const tally n ((max + 9) / 10) s.threads
          (λ i h. done_tally s.counter (s.threads i) (all_done-elim n s.threads d i h) (g.fits i h))

  not_done_below :
      (k : ℕ) (w : Thread) → is_done n max w ≡ false → Fits max k w.place w.round → w.round < max
  not_done_below k w d f = ground arith

  owner_not_done : (w : Thread) → 0 < reader w + writer w → is_done n max w ≡ false
  owner_not_done w h = ground arith

  abbrev left : Thread → ℕ
  left w = coarse max w.place w.round

  abbrev trying : ℕ → Thread → ℕ
  trying x w = fine x w.place

  work : System → ℕ
  work s = total left n s.threads

  attempts : System → ℕ
  attempts s = total (trying s.rw_lock) n s.threads

  abbrev go : ℕ → Action
  go i = record { thread = i; choice = 0 }

  -- The end comes nearer, or the lock comes nearer to a thread.
  abbrev Nearer : System → System → Type 0
  Nearer s s' = (work s' < work s) ⊎ ((work s' ≡ work s) × (attempts s' < attempts s))

  tick-Nearer :
      (s : System) (i : ℕ)
      → Good n max s
      → i < n
      → is_done n max (s.threads i) ≡ false
      → (reader (s.threads i) ≡ 1)
        ⊎ (((s.rw_lock % 2 ^ 31 ≡ 0) × (writer (s.threads i) ≡ 1))
            ⊎ ((s.rw_lock < 2 ^ 31) × (writer (s.threads i) ≡ 0)))
      → Nearer s (tick n max s (go i))
  unfolding tick count work attempts
  tick-Nearer s i g h d free =
      rw (lt→ltb _ _ h)
        (elim (turn-nearer n max s.rw_lock s.counter (s.threads i).round (s.threads i).place
          (g.fits i h) (not_done_below s.counter (s.threads i) d (g.fits i h)) free) [
            | inl falls ↦ inl (
                omega (
                  arith,
                  falls,
                  total-assign left n s.threads i (count n max s (s.threads i)).thread h,
                ))
            | inr (same, (equal, falls)) ↦ inr (
              omega (
                arith,
                equal,
                total-assign left n s.threads i (count n max s (s.threads i)).thread h,
              ),
              rw same (
                  omega (
                    arith,
                    falls,
                    total-assign (trying s.rw_lock) n s.threads i
                        (count n max s (s.threads i)).thread h,
                  )),
            )
          ])

  module _ (few : n + 1 < 2 ^ 31) where
    -- All threads have ended, or a step of some thread brings the end or the lock nearer.
    progress :
        (s : System)
        → Good n max s
        → ((i : ℕ) × Nearer s (tick n max s (go i))) ⊎ (all_done n max n s.threads ≡ true)
    progress s g = elim (lt-cases 0 (total reader n s.threads)) [
      | inl some_reader ↦
          let (i, h, p) = total_pos reader n s.threads some_reader in
          let one : reader (s.threads i) ≡ 1 = omega (arith, reads-writes (s.threads i).place) in
          inl (i, tick-Nearer s i g h (owner_not_done (s.threads i) (omega arith)) (inl one))
      | inr no_reader ↦ elim (lt-cases 0 (total writer n s.threads)) [
        | inl some_writer ↦
            let (i, h, p) = total_pos writer n s.threads some_writer in
            let one : writer (s.threads i) ≡ 1 = omega (arith, reads-writes (s.threads i).place) in
            inl (
              i,
              tick-Nearer s i g h (owner_not_done (s.threads i) (omega arith))
                  (inr (inl (omega (arith, g.word, g.one_writer), one))),
            )
        | inr no_writer ↦ elim (search_below (λ w. not (is_done n max w)) n s.threads) [
          | inl (i, h, p) ↦ inl (
            i,
            tick-Nearer s i g h (ground arith) (
                inr (
                  inr (
                    omega (arith, g.word),
                    omega (arith, weight-le-total writer n s.threads i h),
                  ))),
          )
          | inr all ↦ inr (all_done-intro n s.threads (λ i h. ground (arith, all i h)))
        ]
      ]
    ]

    completes_within :
        (fuel tries : ℕ) (s : System)
        → Good n max s
        → work s < fuel
        → attempts s < tries
        → (rest : List Action) × (join n max (run n max rest s) ≡ some (n * ((max + 9) / 10)))
    unfolding run join
    completes_within zero tries s g h k = absurd (omega arith)
    completes_within (suc fuel) zero s g h k = absurd (omega arith)
    completes_within (suc fuel) (suc tries) s g h k = elim (progress s g) [
      | inl (i, inl falls) ↦
          let (rest, e) =
            completes_within fuel (suc (attempts (tick n max s (go i)))) (tick n max s (go i))
              (tick-Good n max few s (go i) g) (omega arith) (omega arith) in
          (go i ∷ rest, e)
      | inl (i, inr (same, falls)) ↦
          let (rest, e) =
            completes_within (suc fuel) tries (tick n max s (go i)) (tick-Good n max few s (go i) g)
              (omega arith) (omega arith) in
          (go i ∷ rest, e)
      | inr d ↦ ([], rw (d, done_counter s g d))
    ]

    join_done :
        (s : System)
        → Good n max s
        → (join n max s ≡ none) ⊎ (join n max s ≡ some (n * ((max + 9) / 10)))
    unfolding join
    join_done s g = elim (Bool-cases (all_done n max n s.threads)) [
      | inl e ↦ inr (rw (e, done_counter s g e))
      | inr e ↦ inl (rw e)
    ]

    -- What the program prints: nothing yet, or one round of ten of every thread; and it can be run
    -- to the end.
    pub prints :
        (actions : List Action)
        → ((main n max actions ≡ none) ⊎ (main n max actions ≡ some (n * ((max + 9) / 10))))
          × ((rest : List Action) × (main n max (actions ++ rest) ≡ some (n * ((max + 9) / 10))))
    unfolding main
    prints actions =
        let now : Good n max (run n max actions (first n max)) = after n max few actions in
        let (rest, e) =
          completes_within (suc (work (run n max actions (first n max))))
            (suc (attempts (run n max actions (first n max)))) _ now (omega arith) (omega arith) in
        (join_done _ now, (rest, rw (run-append actions rest (first n max)) e))
