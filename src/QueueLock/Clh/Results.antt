-- ===== src/QueueLock/Clh/Results.antt =====
-- The lock of spinlocks/clh_spinlock.c has the laws of a lock.
use concurrencia.Base.{
  ℕ, ◌<◌, ◌≡◌, refl, ◌⊎◌, inr, Bool, true, false, some, List, [], ◌∷◌, arith, total, get_elem?,
}
use concurrencia.Lock.{inside, is_inside, is_busy, follows, Laws}
use concurrencia.Lock.Tokens.{lower_total}
use concurrencia.QueueLock.Clh.Defs.{
  Malloc, Fresh, lock_node, Memory, Local, marked, linking, spinning, freeing, step, phase, lock,
  pred, is_on, is_first,
}
use concurrencia.QueueLock.Clh.Invariant.{Inv, LineOf}
use concurrencia.QueueLock.Clh.Steps.{keep}

-- How far a call is from its return, if its turn has come.
abbrev rank : Local → ℕ
rank (marked x) = 3
rank (linking x p) = 2
rank (spinning x p) = 1
rank (freeing x p) = 1
rank _ = 0

module _ (n : ℕ) (m : Malloc) (fresh : Fresh m) where
  Inv-first : Inv n (lock m).shared (lock m).local
  Inv-first = record {
    queue = [];
    spare = lock_node;
    line = refl;
    present = λ i l o. absurd (cc o);
    front = λ i l o. absurd (cc o);
    apart = λ i j k l d. fresh.apart i j d;
    spared = λ i l. fresh.unused i;
    shut = λ i l o. absurd (cc o);
    opened = refl;
    tied = λ i l. tt;
  }

  exclusive :
      (i j : ℕ) (s : Memory) (ps : ℕ → Local)
      → i < n
      → j < n
      → Inv n s ps
      → phase (ps i) ≡ inside
      → phase (ps j) ≡ inside
      → i ≡ j
  exclusive i j s ps h k inv p q =
      cc (inv.front i h (first_inside (ps i) p), inv.front j k (first_inside (ps j) q))
    where
      first_inside : (p : Local) → phase p ≡ inside → is_first p ≡ true
      first_inside p e = ground arith

  orderly : (i c : ℕ) (s : Memory) (p : Local) → follows (phase p) (phase (step i c s p).1) ≡ true
  unfolding step
  orderly i c s p = ground arith

  -- The thread that stands first follows an open node, and comes nearer to its return.
  nearer :
      (i : ℕ) (s : Memory) (p : Local)
      → s.locked (pred s.prev p) ≡ 0
      → is_on p ≡ true
      → is_inside (phase p) ≡ false
      → is_busy (phase p) ≡ true
        × ((is_busy (phase (step i 0 s p).1) ≡ false) ⊎ (rank (step i 0 s p).1 < rank p))
  unfolding step
  nearer i s p e o b = ground arith

  marks :
      (i : ℕ) (s : Memory) (p : Local)
      → is_on p ≡ false
      → is_busy (phase p) ≡ true
      → rank (step i 0 s p).1 < rank p
  unfolding step
  marks i s p o b = ground arith

  -- A thread whose step brings its call nearer to the return: the first of the queue, or `j` while the
  -- queue is empty.
  mover :
      (j : ℕ) (s : Memory) (ps : ℕ → Local)
      → j < n
      → Inv n s ps
      → ((i : ℕ) → i < n → is_inside (phase (ps i)) ≡ false)
      → is_busy (phase (ps j)) ≡ true
      → (i : ℕ) × (i < n)
        × (is_busy (phase (ps i)) ≡ true)
        × ((is_busy (phase (step i 0 s (ps i)).1) ≡ false)
            ⊎ (rank (step i 0 s (ps i)).1 < rank (ps i)))
  mover j s ps h inv nobody b = by_queue inv.queue inv.line (λ o. (inv.present j h o))
    where
      by_queue :
          (queue : List ℕ)
          → LineOf n s ps inv.spare queue
          → (is_on (ps j) ≡ true → (k : ℕ) × (get_elem? queue k ≡ some j))
          → (i : ℕ) × (i < n)
            × (is_busy (phase (ps i)) ≡ true)
            × ((is_busy (phase (step i 0 s (ps i)).1) ≡ false)
                ⊎ (rank (step i 0 s (ps i)).1 < rank (ps i)))
      by_queue [] line present =
          (j, h, b, inr (marks j s (ps j) (off (is_on (ps j)) (λ o. cc ((present o).1))) b))
        where
          off : (x : Bool) → (x ≡ true → ⊥) → x ≡ false
          off true f = absurd (f refl)
          off false f = refl
      by_queue (i ∷ rest) ((l, o, p), line) present =
          let (busy, near) = nearer i s (ps i) (rw p inv.opened) o (nobody i l) in
          (i, l, busy, near)

  pub lock_laws : Laws n (lock m)
  lock_laws = record {
    Inv = Inv n;
    init = Inv-first;
    begins = λ i. refl;
    keep = λ i c s ps h inv. keep n i h s ps inv c (ps i) refl;
    exclusive = exclusive;
    orderly = orderly;
    measure = λ s ps. total rank n ps;
    advance = λ j s ps h inv nobody b.
        let (i, l, busy, near) = mover j s ps h inv nobody b in
        (i, 0, l, busy, lower_total n (lock m) rank i 0 s ps l near);
  }

  pub laws-Inv : (s : Memory) (ps : ℕ → Local) → lock_laws.Inv s ps → Inv n s ps
  unfolding lock_laws
  laws-Inv s ps inv = inv
