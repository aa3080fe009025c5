-- ===== src/ArrayLock/VariableSize/Results.antt =====
-- The lock has the laws of a lock, if the cells fit and the memory for them is cleared.
use concurrencia.Base.{
  ℕ, ◌*◌, ◌≤◌, ◌<◌, ◌≡◌, refl, ◌⊎◌, true, false, some, List, [], ◌∷◌, arith, assign_other, total,
  total_const, get_elem?, sym, ◌∙◌,
}
use concurrencia.Lock.{inside, is_inside, is_busy, follows, Laws}
use concurrencia.Lock.Tokens.{lower_total}
use concurrencia.ArrayLock.VariableSize.Defs.{
  Memory, Local, waiting, clearing, step, phase, lock, Fits, Cleared,
}
use concurrencia.ArrayLock.VariableSize.Cells.{index-cell, cell-injective}
use concurrencia.ArrayLock.VariableSize.Invariant.{queues, owns, is_on, is_first, cell, LineTo, Inv}
use concurrencia.ArrayLock.VariableSize.Leaving.{keep}

-- How far a call is from its return, if it has the turn.
abbrev rank : Local → ℕ
rank (waiting x) = 2
rank (clearing x) = 1
rank _ = 0

module _ (padding n : ℕ) (malloc : ℕ → ℕ) (fits : Fits padding) (few : n ≤ 4) where
  zero_cell : 0 * padding ≡ 0
  zero_cell = omega arith

  Inv-first :
      Cleared malloc → Inv padding n (lock padding malloc).shared (lock padding malloc).local
  Inv-first cleared = record {
    queue = [];
    turn = 0;
    turn_lt = omega arith;
    line = index-cell padding fits 0;
    counted = sym (total_const queues n 0 _ (λ i l. refl) ∙ omega arith);
    present = λ i l o. absurd (cc o);
    front = λ i l o. absurd (cc o);
    closed = λ y h d.
        assign_other malloc 0 (y * padding) 1
          (λ e. d (sym (cell-injective padding fits 0 y (omega arith) h (zero_cell ∙ e))))
        ∙ cleared.zeros (y * padding);
    one =
        rw (total_const owns n 0 (lock padding malloc).local (λ i l. refl), zero_cell)
          (omega arith);
  }

  exclusive :
      (i j : ℕ) (s : Memory) (ps : ℕ → Local)
      → i < n
      → j < n
      → Inv padding n s ps
      → phase (ps i) ≡ inside
      → phase (ps j) ≡ inside
      → i ≡ j
  exclusive i j s ps h k inv p q =
      cc (inv.front i h (first_inside (ps i) p), inv.front j k (first_inside (ps j) q))
    where
      first_inside : (p : Local) → phase p ≡ inside → is_first p ≡ true
      first_inside p e = ground arith

  orderly :
      (i c : ℕ) (s : Memory) (p : Local) → follows (phase p) (phase (step padding i c s p).1) ≡ true
  unfolding step
  orderly i c s p = ground arith

  -- The thread at a set cell comes nearer to its return.
  nearer :
      (i : ℕ) (s : Memory) (p : Local)
      → s.flag (cell p) ≡ 1
      → is_on p ≡ true
      → is_inside (phase p) ≡ false
      → is_busy (phase p) ≡ true
        × ((is_busy (phase (step padding i 0 s p).1) ≡ false)
            ⊎ (rank (step padding i 0 s p).1 < rank p))
  unfolding step
  nearer i s p e o b = ground arith

  mover :
      (j : ℕ) (s : Memory) (ps : ℕ → Local)
      → j < n
      → Inv padding n s ps
      → ((i : ℕ) → i < n → is_inside (phase (ps i)) ≡ false)
      → is_busy (phase (ps j)) ≡ true
      → (i : ℕ) × (i < n)
        × (is_busy (phase (ps i)) ≡ true)
        × ((is_busy (phase (step padding i 0 s (ps i)).1) ≡ false)
            ⊎ (rank (step padding i 0 s (ps i)).1 < rank (ps i)))
  mover j s ps h inv nobody b = by_queue inv.queue inv.line (inv.present j h (busy_on (ps j) b))
    where
      busy_on : (p : Local) → is_busy (phase p) ≡ true → is_on p ≡ true
      busy_on p b = ground arith

      not_inside : (p : Local) → is_inside (phase p) ≡ false → owns p ≡ 0
      not_inside p e = ground arith

      set : s.flag (inv.turn * padding) ≡ 1
      set = omega (arith, inv.one, total_const owns n 0 ps (λ i l. not_inside (ps i) (nobody i l)))

      by_queue :
          (queue : List ℕ)
          → LineTo n padding ps s.tail (inv.turn * padding) queue
          → (k : ℕ) × (get_elem? queue k ≡ some j)
          → (i : ℕ) × (i < n)
            × (is_busy (phase (ps i)) ≡ true)
            × ((is_busy (phase (step padding i 0 s (ps i)).1) ≡ false)
                ⊎ (rank (step padding i 0 s (ps i)).1 < rank (ps i)))
      by_queue [] line (k, e) = absurd (cc e)
      by_queue (i ∷ rest) ((l, o, p), line) at_j =
          let (busy, near) = nearer i s (ps i) (rw p set) o (nobody i l) in (i, l, busy, near)

  pub lock_laws : Cleared malloc → Laws n (lock padding malloc)
  lock_laws cleared = record {
    Inv = Inv padding n;
    init = Inv-first cleared;
    begins = λ i. refl;
    keep = λ i c s ps h inv. keep padding n fits few i h s ps inv c (ps i) refl;
    exclusive = exclusive;
    orderly = orderly;
    measure = λ s ps. total rank n ps;
    advance = λ j s ps h inv nobody b.
        let (i, l, busy, near) = mover j s ps h inv nobody b in
        (i, 0, l, busy, lower_total n (lock padding malloc) rank i 0 s ps l near);
  }
