-- ===== src/Lock/Tickets/Steps.antt =====
-- A thread that keeps its ticket, or takes one, keeps the queue's invariant.
use concurrencia.Base.{
  ℕ, ◌+◌, ◌≤◌, ◌<◌, ◌≡◌, ap, subst, ◌∙◌, ◌≢◌, ◌⊎◌, inl, inr, true, false, none, some, arith, assign,
  assign_self, assign_other, total-le, eq-cases, length, get_elem?, snoc, length-snoc,
  get_elem?-snoc, get_elem?-snoc_old, get_elem?-snoc_new,
}
use concurrencia.Lock.Defs.{Lock}
use concurrencia.Lock.Tickets.Defs.{after, Tickets}
use concurrencia.Lock.Tickets.Queue.{one_if_some, holds, holds-le, Queued, first_of_turn, recount}

module _ (n m : ℕ) (l : Lock) (t : Tickets m l) (few : n ≤ m) where
  open l use {Shared, Local}
  open t use {number, turn, ticket, served}

  module _ (s : Shared) (ps : ℕ → Local) (q : Queued n m l t s ps) where
    open q use {queue, turn_lt, number_eq, counted, placed, present, attending}

    module _ (i : ℕ) (below : i < n) (s' : Shared) (p' : Local) where
      -- Tickets and turn stay.
      pub stay-Queued :
          ticket p' ≡ ticket (ps i)
          → number s' ≡ number s
          → turn s' ≡ turn s
          → (served p' ≡ true → (served (ps i) ≡ true) ⊎ (ticket (ps i) ≡ some (turn s)))
          → Queued n m l t s' (assign ps i p')
      stay-Queued same e f may = record {
        queue = queue;
        turn_lt = omega arith;
        number_eq = rw (e, f) number_eq;
        counted =
            omega (arith, recount n m l t few s ps q i below p', counted, ap one_if_some same);
        placed = λ k j at. rw (tickets_kept j, f) (placed k j at);
        present = λ j x h at. present j x h (rw (tickets_kept j) at at);
        attending = attending';
      }
        where
          tickets_kept : (j : ℕ) → ticket (assign ps i p' j) ≡ ticket (ps j)
          tickets_kept j = elim (eq-cases i j) [
            | inl d ↦ rw (← d, assign_self ps i p') same
            | inr d ↦ rw (assign_other ps i j p' d)
          ]

          attending' :
              (j : ℕ) → j < n → served (assign ps i p' j) ≡ true → get_elem? queue 0 ≡ some j
          attending' j h at = elim (eq-cases i j) [
            | inl d ↦
                elim (may (subst (λ x. served x ≡ true) (assign_self ps i p') (rw (← d) at at))) [
                  | inl old ↦ rw (← d) (attending i below old)
                  | inr now ↦ rw (← d) (first_of_turn n m l t few s ps q i below now)
                ]
            | inr d ↦ attending j h (rw (assign_other ps i j p' d) at at)
          ]

      -- The mover takes the next ticket and stands at the end.
      pub take-Queued :
          ticket (ps i) ≡ none
          → ticket p' ≡ some (number s)
          → number s' ≡ after m (number s) 1
          → turn s' ≡ turn s
          → served p' ≡ false
          → Queued n m l t s' (assign ps i p')
      take-Queued without mine e f not_yet = record {
        queue = snoc queue i;
        turn_lt = omega arith;
        number_eq = rw (f, e, number_eq, length-snoc queue i) (ground (arith, turn_lt, length_lt));
        counted =
            omega
              (arith, recount n m l t few s ps q i below p', counted, length-snoc queue i, gained);
        placed = placed';
        present = present';
        attending = attending';
      }
        where
          gained : one_if_some (ticket p') ≡ one_if_some (ticket (ps i)) + 1
          gained = rw (mine, without) (omega arith)

          length_lt : length queue + 1 ≤ m
          length_lt = omega (
            arith,
            recount n m l t few s ps q i below p',
            counted,
            gained,
            few,
            total-le (holds m l t) (holds-le m l t) n (assign ps i p'),
          )

          other : (j : ℕ) → (i ≢ j) → assign ps i p' j ≡ ps j
          other j d = assign_other ps i j p' d

          placed' :
              (k j : ℕ)
              → get_elem? (snoc queue i) k ≡ some j
              → (j < n) × (ticket (assign ps i p' j) ≡ some (after m (turn s') k))
          placed' k j at = elim (get_elem?-snoc queue i k j at) [
            | inl old ↦
                rw (f, other j (λ d. absurd (cc ((placed k j old).1, without, d)))) (placed k j old)
            | inr (a, b) ↦ rw (a, b, f) (below, rw (assign_self ps i p') (mine ∙ ap some number_eq))
          ]

          present' :
              (j x : ℕ)
              → j < n
              → ticket (assign ps i p' j) ≡ some x
              → (k : ℕ) × (get_elem? (snoc queue i) k ≡ some j)
          present' j x h at = elim (eq-cases i j) [
            | inl d ↦ (length queue, rw (← d) (get_elem?-snoc_new queue i))
            | inr d ↦
                let (k, old) = present j x h (rw (other j d) at at) in
                (k, get_elem?-snoc_old queue i k j old)
          ]

          attending' :
              (j : ℕ)
              → j < n
              → served (assign ps i p' j) ≡ true
              → get_elem? (snoc queue i) 0 ≡ some j
          attending' j h at = elim (eq-cases i j) [
            | inl d ↦ absurd (cc (at, not_yet, ap (assign ps i p') d, assign_self ps i p'))
            | inr d ↦ get_elem?-snoc_old queue i 0 j (attending j h (rw (other j d) at at))
          ]
