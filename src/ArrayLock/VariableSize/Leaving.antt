-- ===== src/ArrayLock/VariableSize/Leaving.antt =====
-- The store of `unlock` hands the turn to the next cell; with it every step keeps the queue.
use concurrencia.Base.{
  ℕ, zero, suc, ◌*◌, ◌%◌, ◌≤◌, ◌<◌, ◌≡◌, ◌≢◌, refl, sym, ap, ◌∙◌, inl, inr, true, some, List, [],
  ◌∷◌, arith, assign, assign_self, assign_other, eq-cases, get_elem?, everywhere, length, total,
  total_pos, weight-le-total, Bool-cases, lt-cases, ◌==◌, subst,
}
use concurrencia.Lock.Line.{Line-alike}
use concurrencia.ArrayLock.VariableSize.Defs.{
  Memory, Local, idle, waiting, clearing, held, step, index, next, Fits,
}
use concurrencia.ArrayLock.VariableSize.Cells.{cell-injective, next-cell}
use concurrencia.ArrayLock.VariableSize.Invariant.{
  queues, owns, is_on, is_first, cell, LineTo, Inv, placed, at_turn, found,
}
use concurrencia.ArrayLock.VariableSize.Steps.{recount, reown, kept, joins}

module _ (padding n : ℕ) (fits : Fits padding) (few : n ≤ 4) where
  module _ (i : ℕ) (l : i < n) (s : Memory) (ps : ℕ → Local) (inv : Inv padding n s ps) where
    open inv use {queue, turn, turn_lt, line, counted, present, front, closed, one}

    first_of : (queue : List ℕ) → get_elem? queue 0 ≡ some i → (rest : List ℕ) × (queue ≡ i ∷ rest)
    first_of [] e = absurd (cc e)
    first_of (x ∷ rest) e = (rest, cc e)

    -- The first thread waits at the cell of the turn.
    at_front : get_elem? queue 0 ≡ some i → cell (ps i) ≡ turn * padding
    at_front e =
        placed padding n fits few ps s.tail turn queue 0 i turn_lt line e
        ∙ ap (λ z. z * padding) (omega (arith, turn_lt))

    module _ (x : ℕ) (e : ps i ≡ held x) where
      front_here : get_elem? queue 0 ≡ some i
      front_here = front i l (rw e refl)

      cell_here : x ≡ turn * padding
      cell_here = cc (at_front front_here, ap cell e)

      next_here : next padding x ≡ (suc turn % 4) * padding
      next_here = ap (next padding) cell_here ∙ next-cell padding fits turn turn_lt

      -- The turn is with the thread, and so no cell is set.
      none_set : (y : ℕ) → y < 4 → s.flag (y * padding) ≡ 0
      none_set y h = elim (eq-cases y turn) [
        | inl f ↦ rw f (omega (arith, one, weight-le-total owns n ps i l, ap owns e))
        | inr d ↦ closed y h d
      ]

      leaves_front :
          (rest : List ℕ)
          → queue ≡ i ∷ rest
          → Inv padding n (record s { flag = assign s.flag (next padding x) 1 }) (assign ps i idle)
      leaves_front rest q = record {
        queue = rest;
        turn = suc turn % 4;
        turn_lt = omega arith;
        line =
            Line-alike n (λ q. next padding (cell (ps q))) (λ q. cell (ps q)) (λ q. is_on (ps q))
              (index padding s.tail) (λ q. next padding (cell (assign ps i idle q)))
              (λ q. cell (assign ps i idle q)) (λ q. is_on (assign ps i idle q))
              (suc turn % 4 * padding) rest alike
              (subst (λ z. LineTo n padding ps s.tail z rest)
                (ap (next padding) (ap cell e) ∙ next_here) (whole.1));
        counted = omega (
          arith,
          counted,
          ap length q,
          recount padding n fits few i l s ps inv idle,
          ap queues e,
        );
        present =
            everywhere (λ j p. is_on p ≡ true → (k : ℕ) × (get_elem? rest k ≡ some j)) n ps i idle
              (λ o. absurd (cc o)) (λ j m d o. later j d (present j m o));
        front =
            everywhere (λ j p. is_first p ≡ true → get_elem? rest 0 ≡ some j) n ps i idle
              (λ o. absurd (cc o)) (λ j m d o. absurd (d (same_first j (front j m o))));
        closed = λ y h d.
            rw
              (assign_other s.flag (next padding x) (y * padding) 1 (λ f.
                d (
                  cell-injective padding fits y (suc turn % 4) h (omega arith)
                    (cc (f, next_here)))))
              (none_set y h);
        one =
            rw (← next_here, assign_self s.flag (next padding x) 1)
              (omega (
                arith,
                one,
                reown padding n fits few i l s ps inv idle,
                ap owns e,
                none_set turn turn_lt,
              ));
      }
        where
          whole : LineTo n padding ps s.tail (turn * padding) (i ∷ rest)
          whole = subst (LineTo n padding ps s.tail (turn * padding)) q line

          same_first : (j : ℕ) → get_elem? queue 0 ≡ some j → i ≡ j
          same_first j f = cc (rw q at f)

          not_again : (k q' : ℕ) → get_elem? rest k ≡ some q' → i ≢ q'
          not_again k q' f g =
              let z : suc k ≡ 0 =
                at_turn padding n fits few s ps inv (suc k) q' (rw q f)
                  (rw (← g) (at_front front_here)) in
              absurd (omega (arith, z))

          alike :
              (k q' : ℕ)
              → get_elem? rest k ≡ some q'
              → (next padding (cell (assign ps i idle q')) ≡ next padding (cell (ps q')))
                × (cell (assign ps i idle q') ≡ cell (ps q'))
                × (is_on (assign ps i idle q') ≡ is_on (ps q'))
          alike k q' f = rw (assign_other ps i q' idle (not_again k q' f)) (refl, refl, refl)

          later :
              (j : ℕ)
              → i ≢ j
              → (k : ℕ) × (get_elem? queue k ≡ some j)
              → (k : ℕ) × (get_elem? rest k ≡ some j)
          later j d (zero, f) = absurd (d (same_first j f))
          later j d (suc k, f) = (k, rw q at f)

      leaves :
          Inv padding n (record s { flag = assign s.flag (next padding x) 1 }) (assign ps i idle)
      leaves = let (rest, q) = first_of queue front_here in leaves_front rest q

    -- Nobody is inside while the first thread clears its cell.
    clears :
        (x : ℕ)
        → ps i ≡ clearing x
        → Inv padding n (record s { flag = assign s.flag x 0 }) (assign ps i (held x))
    clears x e =
        kept padding n fits few i l s ps inv (assign s.flag x 0) (held x) (sym (ap cell e))
          (rw e refl) (rw e refl) (λ o. front_here) clear_others
          (rw (cell_here, assign_self s.flag (turn * padding) 0)
            (omega (
              arith,
              nobody,
              reown padding n fits few i l s ps inv (held (turn * padding)),
              ap owns e,
            )))
      where
        front_here : get_elem? queue 0 ≡ some i
        front_here = front i l (rw e refl)

        cell_here : x ≡ turn * padding
        cell_here = cc (at_front front_here, ap cell e)

        nobody : total owns n ps ≡ 0
        nobody = elim (lt-cases 0 (total owns n ps)) [
          | inr h ↦ omega (arith, h)
          | inl h ↦
              let (j, m, o) = total_pos owns n ps h in
              let same : i ≡ j = cc (front_here, front j m (first_owns (ps j) o)) in
              absurd (omega (arith, rw (← same, e) at o))
        ]
          where
            first_owns : (p : Local) → 0 < owns p → is_first p ≡ true
            first_owns p o = ground arith

        clear_others : (y : ℕ) → y < 4 → y ≢ turn → assign s.flag x 0 (y * padding) ≡ 0
        clear_others y h d = elim (eq-cases x (y * padding)) [
          | inl f ↦ rw (← f, assign_self s.flag x 0) refl
          | inr f ↦ rw (assign_other s.flag x (y * padding) 0 f) (closed y h d)
        ]

    watches :
        (x : ℕ)
        → ps i ≡ waiting x
        → (p' : Local) → cell p' ≡ x
        → is_on p' ≡ true
        → queues p' ≡ 1
        → owns p' ≡ 0
        → (is_first p' ≡ true → get_elem? queue 0 ≡ some i)
        → Inv padding n s (assign ps i p')
    watches x e p' same_cell on counts outside front' =
        kept padding n fits few i l s ps inv s.flag p' (same_cell ∙ sym (ap cell e)) (rw e on)
          (rw e counts) front' closed
          (omega (arith, one, reown padding n fits few i l s ps inv p', ap owns e, outside))

    finds : (x : ℕ) → ps i ≡ waiting x → s.flag x ≢ 0 → get_elem? queue 0 ≡ some i
    finds x e d = found padding n fits few s ps inv i l (rw e refl) (rw e d)

    pub keep :
        (c : ℕ) (p : Local)
        → ps i ≡ p
        → Inv padding n (step padding i c s p).0 (assign ps i (step padding i c s p).1)
    unfolding step
    keep c idle e = joins padding n fits few i l s ps inv e
    keep c (waiting x) e = elim (Bool-cases (s.flag x == 0)) [
      | inl f ↦ rw f (watches x e (waiting x) refl refl refl refl (λ o. absurd (cc o)))
      | inr f ↦
          rw f (watches x e (clearing x) refl refl refl refl (λ o. finds x e (ground (arith, f))))
    ]
    keep c (clearing x) e = clears x e
    keep c (held x) e = leaves x e
