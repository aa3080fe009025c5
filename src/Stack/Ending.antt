-- ===== src/Stack/Ending.antt =====
-- Every run can be continued until all threads have ended.
use concurrencia.Base.{
  ℕ, ◌+◌, ◌*◌, ◌-◌, ◌<◌, ◌≡◌, refl, ◌⊎◌, inl, inr, Bool, true, false, arith, leb, ◌==◌,
  if◌then◌else◌, Bool-cases,
}
use concurrencia.Stack.Defs.{
  Which, stack, free, Head, Memory, PopPlace, pop_load, look, take, PushPlace, push_load, link,
  publish, Place, top, popping, allocate, set_tid, set_c, pushing, error, Thread, after_pop,
  same_head, loaded, pop, push, turn, settle,
}

-- How far a thread is from the end of its round, the operation on a list left aside.
abbrev pub steps_left : Place → ℕ
steps_left top = 9
steps_left (popping free p) = 8
steps_left allocate = 7
steps_left (set_tid e) = 6
steps_left (set_c e) = 5
steps_left (pushing stack e p) = 4
steps_left (popping stack p) = 3
steps_left (pushing free e p) = 2
steps_left error = 1

-- How far an operation is from taking effect, while nobody changes the head.
abbrev pub pop_left : Head → PopPlace → ℕ
pop_left now pop_load = 3
pop_left now (look h) = if same_head now h then 2 else 5
pop_left now (take h x) = if same_head now h then 1 else 4

abbrev pub push_left : Head → PushPlace → ℕ
push_left now push_load = 3
push_left now (link h) = if same_head now h then 2 else 5
push_left now (publish h) = if same_head now h then 1 else 4

abbrev pub attempts_left : (Which → Head) → Place → ℕ
attempts_left head (popping w p) = pop_left (head w) p
attempts_left head (pushing w e p) = push_left (head w) p
attempts_left head _ = 0

abbrev pub is_done : ℕ → Thread → Bool
is_done elems w = elim w.place [ top ↦ leb elems w.round | _ ↦ false ]

abbrev pub left : ℕ → Thread → ℕ
left elems w = (elems - w.round) * 10 + steps_left w.place

module _ (malloc : ℕ → ℕ) (n elems : ℕ) where
  -- A step of a thread that has not ended brings its end nearer, or, with the heads as they were,
  -- the effect of its operation.
  abbrev pub Falls : Place → ℕ → (Which → Head) → Place → (Which → Head) → Type 0
  Falls p r head p' head' =
      (left elems (settle malloc n elems r p p') < left elems (record { place = p; round = r }))
      ⊎ ((head' ≡ head)
          × ((left elems (settle malloc n elems r p p')
                ≡ left elems (record { place = p; round = r }))
              × (attempts_left head p' < attempts_left head p)))

  loaded-Falls :
      (w : Which) (r : ℕ) (q : PopPlace) (m : Memory)
      → 2 < pop_left (m.head w) q
      → Falls
          (popping w q)
          r
          m.head
          (loaded w (m.head w) m).place
          (loaded w (m.head w) m).memory.head
  loaded-Falls stack r q m h = inr (refl, (refl, ground arith))
  loaded-Falls free r q m h = inr (refl, (refl, ground arith))

  pop_failed :
      (w : Which) (h : Head) (x : ℕ) (m : Memory)
      → same_head (m.head w) h ≡ false
      → pop w (take h x) m ≡ loaded w (m.head w) m
  unfolding pop
  pop_failed w h x m e = rw e refl

  failed_left : (now h : Head) (x : ℕ) → same_head now h ≡ false → 2 < pop_left now (take h x)
  failed_left now h x e = ground arith

  popped_place :
      (w : Which) (h : Head) (x : ℕ) (m : Memory)
      → same_head (m.head w) h ≡ true
      → (pop w (take h x) m).place ≡ after_pop w h.node
  unfolding pop
  popped_place w h x m e = rw e refl

  after_pop-left :
      (w : Which) (e r : ℕ) (q : PopPlace)
      → r < elems
      → left elems (settle malloc n elems r (popping w q) (after_pop w e))
        < left elems (record { place = popping w q; round = r })
  after_pop-left w e r q l = ground arith

  take-Falls :
      (w : Which) (r : ℕ) (h : Head) (x : ℕ) (m : Memory)
      → r < elems
      → Falls
          (popping w (take h x))
          r
          m.head
          (pop w (take h x) m).place
          (pop w (take h x) m).memory.head
  take-Falls w r h x m l = elim (Bool-cases (same_head (m.head w) h)) [
    | inl e ↦ inl (rw (popped_place w h x m e) (after_pop-left w h.node r (take h x) l))
    | inr e ↦
        rw (pop_failed w h x m e) (loaded-Falls w r (take h x) m (failed_left (m.head w) h x e))
  ]

  pop-Falls :
      (w : Which) (r : ℕ) (q : PopPlace) (m : Memory)
      → r < elems
      → Falls (popping w q) r m.head (pop w q m).place (pop w q m).memory.head
  unfolding pop
  pop-Falls w r pop_load m l = loaded-Falls w r pop_load m (omega arith)
  pop-Falls stack r (look h) m l = elim (Bool-cases (h.node == 0)) [
    | inl e ↦ rw e (inl (ground arith))
    | inr e ↦ rw e (inr (refl, (refl, ground arith)))
  ]
  pop-Falls free r (look h) m l = elim (Bool-cases (h.node == 0)) [
    | inl e ↦ rw e (inl (ground arith))
    | inr e ↦ rw e (inr (refl, (refl, ground arith)))
  ]
  pop-Falls w r (take h x) m l = take-Falls w r h x m l

  push-Falls :
      (w : Which) (e r : ℕ) (q : PushPlace) (m : Memory)
      → r < elems
      → Falls (pushing w e q) r m.head (push w e q m).place (push w e q m).memory.head
  unfolding push
  push-Falls stack e r push_load m l = inr (refl, (refl, ground arith))
  push-Falls free e r push_load m l = inr (refl, (refl, ground arith))
  push-Falls stack e r (link h) m l = inr (refl, (refl, ground arith))
  push-Falls free e r (link h) m l = inr (refl, (refl, ground arith))
  push-Falls stack e r (publish h) m l = elim (Bool-cases (same_head (m.head stack) h)) [
    | inl q ↦ rw q (inl (ground arith))
    | inr q ↦ rw q (inr (refl, (refl, ground arith)))
  ]
  push-Falls free e r (publish h) m l = elim (Bool-cases (same_head (m.head free) h)) [
    | inl q ↦ rw q (inl (ground arith))
    | inr q ↦ rw q (inr (refl, (refl, ground arith)))
  ]

  pub turn-Falls :
      (i r : ℕ) (p : Place) (m : Memory)
      → r < elems
      → Falls p r m.head
          (turn malloc n elems p i r m).place
          (turn malloc n elems p i r m).memory.head
  unfolding turn
  turn-Falls i r top m l = inl (ground arith)
  turn-Falls i r (popping w q) m l = pop-Falls w r q m l
  turn-Falls i r allocate m l = inl (ground arith)
  turn-Falls i r (set_tid e) m l = inl (ground arith)
  turn-Falls i r (set_c e) m l = inl (ground arith)
  turn-Falls i r (pushing w e q) m l = push-Falls w e r q m l
  turn-Falls i r error m l = inl (ground arith)
