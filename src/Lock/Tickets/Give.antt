-- ===== src/Lock/Tickets/Give.antt =====
-- The thread that ends its turn leaves the queue.
use concurrencia.Base.{
  ℕ, zero, suc, ◌+◌, ◌≤◌, ◌<◌, ◌≡◌, sym, ap, ◌∙◌, ◌≢◌, inl, inr, true, false, none, some, arith,
  assign, assign_self, assign_other, eq-cases, length, get_elem?, get_elem?-lt, eq_of_some, rest,
  get_elem?-rest, length-rest,
}
use concurrencia.Lock.Defs.{Lock}
use concurrencia.Lock.Tickets.Defs.{after, Tickets}
use concurrencia.Lock.Tickets.Queue.{one_if_some, Queued, length-le, place_of, recount}

module _ (n m : ℕ) (l : Lock) (t : Tickets m l) (few : n ≤ m) where
  open l use {Shared, Local}
  open t use {number, turn, ticket, served}

  module _ (s : Shared) (ps : ℕ → Local) (q : Queued n m l t s ps) where
    open q use {queue, turn_lt, number_eq, counted, placed, present, attending}

    module _ (i : ℕ) (below : i < n) (s' : Shared) (p' : Local) where
      -- The first thread leaves the queue, and the turn goes on.
      pub give-Queued :
          served (ps i) ≡ true
          → ticket p' ≡ none
          → number s' ≡ number s
          → turn s' ≡ after m (turn s) 1
          → served p' ≡ false
          → Queued n m l t s' (assign ps i p')
      give-Queued serving without e f not_now = record {
        queue = rest queue;
        turn_lt = rw f (ground (arith, turn_lt));
        number_eq = rw (e, f, number_eq, longer) (ground (arith, turn_lt, length_le'));
        counted = omega (arith, recount n m l t few s ps q i below p', counted, longer, lost);
        placed = placed';
        present = present';
        attending = attending';
      }
        where
          at_first : get_elem? queue 0 ≡ some i
          at_first = attending i below serving

          mine : ticket (ps i) ≡ some (after m (turn s) 0)
          mine = (placed 0 i at_first).1

          lost : one_if_some (ticket (ps i)) ≡ one_if_some (ticket p') + 1
          lost = rw (mine, without) (omega arith)

          longer : length queue ≡ length (rest queue) + 1
          longer = length-rest queue i at_first

          length_le' : length (rest queue) + 1 ≤ m
          length_le' = omega (arith, longer, length-le n m l t few s ps q)

          other : (j : ℕ) → (i ≢ j) → assign ps i p' j ≡ ps j
          other j d = assign_other ps i j p' d

          further : (k : ℕ) → k + 1 < m → after m (after m (turn s) 1) k ≡ after m (turn s) (suc k)
          further k h = ground (arith, turn_lt)

          placed' :
              (k j : ℕ)
              → get_elem? (rest queue) k ≡ some j
              → (j < n) × (ticket (assign ps i p' j) ≡ some (after m (turn s') k))
          placed' k j at =
              let old : get_elem? queue (suc k) ≡ some j = sym (get_elem?-rest queue k) ∙ at in
              let short : k + 1 < m =
                omega (arith, get_elem?-lt queue (suc k) j old, length-le n m l t few s ps q) in
              let distinct : i ≢ j = λ d. absurd (
                omega (
                  arith,
                  place_of n m l t few s ps q (suc k) i 0 (old ∙ ap some (sym d)) mine
                      (omega arith),
                )) in
              rw (f, other j distinct, further k short) (placed (suc k) j old)

          present' :
              (j x : ℕ)
              → j < n
              → ticket (assign ps i p' j) ≡ some x
              → (k : ℕ) × (get_elem? (rest queue) k ≡ some j)
          present' j x h at = elim (eq-cases i j) [
            | inl d ↦
                absurd (cc (at, without, ap ticket (ap (assign ps i p') d), assign_self ps i p'))
            | inr d ↦ behind j d (present j x h (rw (other j d) at at))
          ]
            where
              behind :
                  (j : ℕ)
                  → i ≢ j
                  → (k : ℕ) × (get_elem? queue k ≡ some j)
                  → (k : ℕ) × (get_elem? (rest queue) k ≡ some j)
              behind j d (zero, at) = absurd (d (eq_of_some (sym at_first ∙ at)))
              behind j d (suc k, at) = (k, get_elem?-rest queue k ∙ at)

          attending' :
              (j : ℕ) → j < n → served (assign ps i p' j) ≡ true → get_elem? (rest queue) 0 ≡ some j
          attending' j h at = elim (eq-cases i j) [
            | inl d ↦ absurd (cc (at, not_now, ap (assign ps i p') d, assign_self ps i p'))
            | inr d ↦ absurd (d (eq_of_some (sym at_first ∙ attending j h (rw (other j d) at at))))
          ]
