-- ===== src/Stack/Completion.antt =====
-- The measure of what is left falls step by step, so every run can be completed.
use concurrencia.Base.{
  ℕ, zero, suc, ◌<◌, ◌≡◌, refl, ◌⊎◌, inl, inr, Bool, true, false, ◌&&◌, not, List, [], ◌∷◌, ◌++◌,
  arith, assign, assign_self, assign_other, ltb, total, total-assign, search_below, Bool-cases,
  eq-cases, lt-cases, lt→ltb, ltb→lt,
}
use concurrencia.Stack.Defs.{
  Memory, Place, top, Thread, turn, count, System, settle, tick, run, create,
}
use concurrencia.Stack.Ending.{attempts_left, is_done, left, turn-Falls}

module _ (malloc : ℕ → ℕ) (n elems : ℕ) where
  abbrev pub Now : Type 0
  Now = System malloc n elems

  -- A thread inside the loop has a round to make.
  abbrev Within : Thread → Type 0
  Within w = (elim w.place [ top ↦ true | _ ↦ false ] ≡ true) ⊎ (w.round < elems)

  abbrev AllWithin : Now → Type 0
  AllWithin s = (i : ℕ) → i < n → Within (s.threads i)

  inside : (r : ℕ) (p p' : Place) → r < elems → Within (settle malloc n elems r p p')
  inside r p p' h = ground arith

  settle-Within :
      (i : ℕ) (w : Thread) (m : Memory)
      → Within w
      → Within
          (settle malloc n elems w.round w.place (turn malloc n elems w.place i w.round m).place)
  settle-Within i w m (inr h) = inside w.round w.place _ h
  settle-Within i w m (inl e) = unfold turn in ground arith

  abbrev next : Now → ℕ → Now
  next s i = record {
    memory = (count malloc n elems i s).memory;
    threads = assign s.threads i (
        settle malloc n elems (s.threads i).round (s.threads i).place
          (count malloc n elems i s).place);
  }

  next-Within : (s : Now) (i : ℕ) → i < n → AllWithin s → AllWithin (next s i)
  unfolding count
  next-Within s i h all j k = elim (eq-cases i j) [
    | inl e ↦ rw (← e, assign_self s.threads i _) (settle-Within i (s.threads i) s.memory (all i h))
    | inr d ↦ rw (assign_other s.threads i j _ d) (all j k)
  ]

  tick-Within : (s : Now) (i : ℕ) → AllWithin s → AllWithin (tick malloc n elems s i)
  unfolding tick
  tick-Within s i all = elim (Bool-cases (ltb i n)) [
    | inl p ↦ rw p (next-Within s i (ltb→lt i n p) all)
    | inr p ↦ rw p all
  ]

  run-Within : (actions : List ℕ) (s : Now) → AllWithin s → AllWithin (run malloc n elems actions s)
  unfolding run
  run-Within [] s all = all
  run-Within (i ∷ rest) s all = run-Within rest (tick malloc n elems s i) (tick-Within s i all)

  not_done_below : (w : Thread) → is_done elems w ≡ false → Within w → w.round < elems
  not_done_below w d h = ground arith

  work : Now → ℕ
  work s = total (left elems) n s.threads

  attempts : Now → ℕ
  attempts s = total (λ (w : Thread). attempts_left s.memory.head w.place) n s.threads

  abbrev Nearer : Now → Now → Type 0
  Nearer s s' = (work s' < work s) ⊎ ((work s' ≡ work s) × (attempts s' < attempts s))

  tick-Nearer :
      (s : Now) (i : ℕ)
      → i < n
      → is_done elems (s.threads i) ≡ false
      → Within (s.threads i)
      → Nearer s (tick malloc n elems s i)
  unfolding tick work attempts count
  tick-Nearer s i h d within =
      rw (lt→ltb i n h)
        (elim (turn-Falls malloc n elems i (s.threads i).round (s.threads i).place s.memory
          (not_done_below (s.threads i) d within)) [
            | inl falls ↦ inl (omega (arith, falls, total-assign (left elems) n s.threads i w' h))
            | inr (same, (equal, falls)) ↦ inr (
              omega (arith, equal, total-assign (left elems) n s.threads i w' h),
              rw same (
                  omega (
                    arith,
                    falls,
                    total-assign (λ (w : Thread). attempts_left s.memory.head w.place) n s.threads i
                        w' h,
                  )),
            )
          ])
    where
      w' : Thread
      w' =
          settle malloc n elems (s.threads i).round (s.threads i).place
            (count malloc n elems i s).place

  -- All threads have left the loop.
  unfoldable pub all_done : ℕ → (ℕ → Thread) → Bool
  all_done zero ws = true
  all_done (suc m) ws = is_done elems (ws m) && all_done m ws

  both : (a b : Bool) → (a && b) ≡ true → (a ≡ true) × (b ≡ true)
  both a b h = ground arith

  all_done-intro :
      (m : ℕ) (ws : ℕ → Thread)
      → ((i : ℕ) → i < m → is_done elems (ws i) ≡ true)
      → all_done m ws ≡ true
  unfolding all_done
  all_done-intro zero ws h = refl
  all_done-intro (suc m) ws h =
      rw (h m (omega arith)) (all_done-intro m ws (λ i k. h i (omega arith)))

  pub all_done-elim :
      (m : ℕ) (ws : ℕ → Thread)
      → all_done m ws ≡ true
      → (i : ℕ) → i < m
      → is_done elems (ws i) ≡ true
  unfolding all_done
  all_done-elim zero ws h i k = absurd (omega arith)
  all_done-elim (suc m) ws h i k = elim (lt-cases i m) [
    | inl below ↦ all_done-elim m ws (both (is_done elems (ws m)) _ h).1 i below
    | inr last ↦ let e : i ≡ m = omega arith in rw e ((both (is_done elems (ws m)) _ h).0)
  ]

  progress :
      (s : Now)
      → AllWithin s
      → ((i : ℕ) × Nearer s (tick malloc n elems s i)) ⊎ (all_done n s.threads ≡ true)
  progress s all = elim (search_below (λ w. not (is_done elems w)) n s.threads) [
    | inl (i, h, p) ↦ inl (i, tick-Nearer s i h (ground arith) (all i h))
    | inr done ↦ inr (all_done-intro n s.threads (λ i h. ground (arith, done i h)))
  ]

  completes_within :
      (fuel tries : ℕ) (s : Now)
      → AllWithin s
      → work s < fuel
      → attempts s < tries
      → (rest : List ℕ) × (all_done n (run malloc n elems rest s).threads ≡ true)
  unfolding run
  completes_within zero tries s all h k = absurd (omega arith)
  completes_within (suc fuel) zero s all h k = absurd (omega arith)
  completes_within (suc fuel) (suc tries) s all h k = elim (progress s all) [
    | inl (i, inl falls) ↦
        let (rest, e) =
          completes_within fuel (suc (attempts (tick malloc n elems s i))) (tick malloc n elems s i)
            (tick-Within s i all) (omega arith) (omega arith) in
        (i ∷ rest, e)
    | inl (i, inr (same, falls)) ↦
        let (rest, e) =
          completes_within (suc fuel) tries (tick malloc n elems s i) (tick-Within s i all)
            (omega arith) (omega arith) in
        (i ∷ rest, e)
    | inr d ↦ ([], d)
  ]

  run-append :
      (xs ys : List ℕ) (s : Now)
      → run malloc n elems (xs ++ ys) s ≡ run malloc n elems ys (run malloc n elems xs s)
  unfolding run
  run-append [] ys s = refl
  run-append (x ∷ xs) ys s = run-append xs ys (tick malloc n elems s x)

  -- After any steps the threads can be run on until all have ended.
  pub completes :
      (actions : List ℕ)
      → (rest : List ℕ) × (all_done n
            (run malloc n elems (actions ++ rest) (create malloc n elems)).threads
          ≡ true)
  completes actions =
      let s = run malloc n elems actions (create malloc n elems) in
      let (rest, e) =
        completes_within (suc (work s)) (suc (attempts s)) s
          (run-Within actions (create malloc n elems) (λ i h. inl refl)) (omega arith)
          (omega arith) in
      (rest, rw (run-append actions rest (create malloc n elems)) e)
