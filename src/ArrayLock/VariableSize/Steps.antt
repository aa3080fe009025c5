-- ===== src/ArrayLock/VariableSize/Steps.antt =====
-- Every step of a thread keeps the queue behind the cells.
use concurrencia.Base.{
  ℕ, ◌+◌, ◌*◌, ◌%◌, ◌^◌, ◌≤◌, ◌<◌, ◌≡◌, ◌≢◌, refl, sym, ap, ◌∙◌, inl, inr, true, some, arith,
  assign, assign_self, assign_other, eq-cases, get_elem?, everywhere, length, snoc, length-snoc,
  get_elem?-snoc_new, get_elem?-snoc_old, total, total-assign, subst,
}
use concurrencia.Lock.Line.{Line, Line-alike, Line-snoc}
use concurrencia.ArrayLock.VariableSize.Defs.{Memory, Local, idle, waiting, index, next, Fits}
use concurrencia.ArrayLock.VariableSize.Cells.{index-cell, next-cell}
use concurrencia.ArrayLock.VariableSize.Invariant.{
  queues, owns, is_on, is_first, cell, Inv, on_queue,
}

module _ (padding n : ℕ) (fits : Fits padding) (few : n ≤ 4) where
  -- The cell after that of the last ticket.
  next-index : (tail : ℕ) → next padding (index padding tail) ≡ index padding ((tail + 1) % 2 ^ 16)
  next-index tail =
      ap (next padding) (index-cell padding fits tail)
      ∙ next-cell padding fits (tail % 4) (omega arith)
      ∙ ap (λ z. z * padding) (omega arith)
      ∙ sym (index-cell padding fits ((tail + 1) % 2 ^ 16))

  module _ (i : ℕ) (l : i < n) (s : Memory) (ps : ℕ → Local) (inv : Inv padding n s ps) where
    open inv use {queue, turn, turn_lt, line, counted, present, front, closed, one}

    pub recount :
        (p : Local) → total queues n (assign ps i p) + queues (ps i) ≡ total queues n ps + queues p
    recount p = total-assign queues n ps i p l

    pub reown : (p : Local) → total owns n (assign ps i p) + owns (ps i) ≡ total owns n ps + owns p
    reown p = total-assign owns n ps i p l

    -- A step of a thread that stays where it stands in the queue, or finds its cell set.
    pub kept :
        (flag' : ℕ → ℕ) (p' : Local)
        → cell p' ≡ cell (ps i)
        → is_on p' ≡ is_on (ps i)
        → queues p' ≡ queues (ps i)
        → (is_first p' ≡ true → get_elem? queue 0 ≡ some i)
        → ((y : ℕ) → y < 4 → y ≢ turn → flag' (y * padding) ≡ 0)
        → total owns n (assign ps i p') + flag' (turn * padding) ≡ 1
        → Inv padding n (record { tail = s.tail; flag = flag' }) (assign ps i p')
    kept flag' p' same_cell same_on same_queues front' closed' one' = record {
      queue = queue;
      turn = turn;
      turn_lt = turn_lt;
      line =
          Line-alike n (λ q. next padding (cell (ps q))) (λ q. cell (ps q)) (λ q. is_on (ps q))
            (index padding s.tail) (λ q. next padding (cell (assign ps i p' q)))
            (λ q. cell (assign ps i p' q)) (λ q. is_on (assign ps i p' q)) (turn * padding) queue
            (λ k q e. alike q) line;
      counted = omega (arith, counted, recount p', same_queues);
      present =
          everywhere (λ j p. is_on p ≡ true → (k : ℕ) × (get_elem? queue k ≡ some j)) n ps i p'
            (λ o. present i l (cc (o, same_on))) (λ j m d o. present j m o);
      front =
          everywhere (λ j p. is_first p ≡ true → get_elem? queue 0 ≡ some j) n ps i p' front'
            (λ j m d o. front j m o);
      closed = closed';
      one = one';
    }
      where
        alike :
            (q : ℕ)
            → (next padding (cell (assign ps i p' q)) ≡ next padding (cell (ps q)))
              × (cell (assign ps i p' q) ≡ cell (ps q))
              × (is_on (assign ps i p' q) ≡ is_on (ps q))
        alike q = elim (eq-cases i q) [
          | inl e ↦ rw (← e, assign_self ps i p') (ap (next padding) same_cell, same_cell, same_on)
          | inr d ↦ rw (assign_other ps i q p' d) (refl, refl, refl)
        ]

    pub joins :
        ps i ≡ idle
        → Inv padding n
            (record s { tail = (s.tail + 1) % 2 ^ 16 })
            (assign ps i (waiting (index padding s.tail)))
    joins e = record {
      queue = snoc queue i;
      turn = turn;
      turn_lt = turn_lt;
      line =
          subst
            (λ t.
              Line n (λ q. next padding (cell (assign ps i (waiting (index padding s.tail)) q)))
                (λ q. cell (assign ps i (waiting (index padding s.tail)) q))
                (λ q. is_on (assign ps i (waiting (index padding s.tail)) q)) t (turn * padding)
                (snoc queue i))
            (rw (assign_self ps i (waiting (index padding s.tail))) (next-index s.tail))
            (Line-snoc n (λ q. next padding (cell (assign ps i (waiting (index padding s.tail)) q)))
              (λ q. cell (assign ps i (waiting (index padding s.tail)) q))
              (λ q. is_on (assign ps i (waiting (index padding s.tail)) q)) (index padding s.tail)
              (turn * padding) queue i l
              (rw (assign_self ps i (waiting (index padding s.tail))) refl)
              (rw (assign_self ps i (waiting (index padding s.tail))) refl)
              (Line-alike n (λ q. next padding (cell (ps q))) (λ q. cell (ps q)) (λ q. is_on (ps q))
                (index padding s.tail)
                (λ q. next padding (cell (assign ps i (waiting (index padding s.tail)) q)))
                (λ q. cell (assign ps i (waiting (index padding s.tail)) q))
                (λ q. is_on (assign ps i (waiting (index padding s.tail)) q)) (turn * padding) queue
                alike line));
      counted = omega (
        arith,
        counted,
        length-snoc queue i,
        recount (waiting (index padding s.tail)),
        ap queues e,
      );
      present =
          everywhere (λ j p. is_on p ≡ true → (k : ℕ) × (get_elem? (snoc queue i) k ≡ some j)) n ps
            i (waiting (index padding s.tail)) (λ o. (length queue, get_elem?-snoc_new queue i))
            (λ j m d o. let (k, f) = present j m o in (k, get_elem?-snoc_old queue i k j f));
      front =
          everywhere (λ j p. is_first p ≡ true → get_elem? (snoc queue i) 0 ≡ some j) n ps i
            (waiting (index padding s.tail)) (λ o. absurd (cc o))
            (λ j m d o. get_elem?-snoc_old queue i 0 j (front j m o));
      closed = closed;
      one = omega (arith, one, reown (waiting (index padding s.tail)), ap owns e);
    }
      where
        alike :
            (k q : ℕ)
            → get_elem? queue k ≡ some q
            → (next padding (cell (assign ps i (waiting (index padding s.tail)) q))
                ≡ next padding (cell (ps q)))
              × (cell (assign ps i (waiting (index padding s.tail)) q) ≡ cell (ps q))
              × (is_on (assign ps i (waiting (index padding s.tail)) q) ≡ is_on (ps q))
        alike k q f = elim (eq-cases i q) [
          | inl g ↦
              let on = (on_queue padding n fits few s ps inv k q f).1 in
              absurd (cc (rw (← g, e) at on))
          | inr d ↦ rw (assign_other ps i q (waiting (index padding s.tail)) d) (refl, refl, refl)
        ]
