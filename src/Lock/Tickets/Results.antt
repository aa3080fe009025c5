-- ===== src/Lock/Tickets/Results.antt =====
-- A lock with tickets is a lock.
use concurrencia.Base.{
  ℕ, ◌≤◌, ◌<◌, ◌≡◌, sym, ◌∙◌, ◌⊎◌, inl, inr, true, false, none, some, [], arith, assign, total,
  total-assign, total_const, get_elem?-lt, get_elem?-some, Option-cases, eq_of_some,
}
use concurrencia.Lock.Defs.{inside, is_inside, is_busy, Lock, Laws}
use concurrencia.Lock.Tickets.Defs.{Tickets, Kind, take, stay, give, TicketLaws}
use concurrencia.Lock.Tickets.Queue.{holds, Queued, number_lt}
use concurrencia.Lock.Tickets.Steps.{stay-Queued, take-Queued}
use concurrencia.Lock.Tickets.Give.{give-Queued}

module _ (n m : ℕ) (l : Lock) (t : Tickets m l) (laws : TicketLaws m l t) (few : n ≤ m) where
  open l use {Shared, Local, shared, local, step, phase}
  open t use {number, turn, ticket, served}
  open laws use {kind, first_turn, first_local, outside_ticket, inside_served, nearer}

  moved-Queued :
      (s : Shared) (ps : ℕ → Local) (q : Queued n m l t s ps) (i : ℕ) (below : i < n) (s' : Shared)
      (p' : Local)
      → Kind m l t s (ps i) s' p'
      → Queued n m l t s' (assign ps i p')
  moved-Queued s ps q i h s' p' (take a b c d e) =
      take-Queued n m l t few s ps q i h s' p' a b c d e
  moved-Queued s ps q i h s' p' (stay a b c d) = stay-Queued n m l t few s ps q i h s' p' a b c d
  moved-Queued s ps q i h s' p' (give a b c d e) =
      give-Queued n m l t few s ps q i h s' p' a b c d e

  first-Queued : Queued n m l t shared local
  first-Queued = record {
    queue = [];
    turn_lt = first_turn.0;
    number_eq = first_turn.1 ∙ ground (arith, first_turn);
    counted = sym (total_const (holds m l t) n 0 local (λ i h. rw (no_ticket i)) ∙ omega arith);
    placed = λ k i at. absurd (cc at);
    present = λ i x h at. absurd (cc (at, no_ticket i));
    attending = λ i h at. absurd (cc (at, (first_local i).1));
  }
    where
      no_ticket : (i : ℕ) → ticket (local i) ≡ none
      no_ticket i = outside_ticket (local i) (first_local i).0

  step-Queued :
      (i c : ℕ) (s : Shared) (ps : ℕ → Local)
      → i < n
      → Queued n m l t s ps
      → Queued n m l t (step i c s (ps i)).0 (assign ps i (step i c s (ps i)).1)
  step-Queued i c s ps h q =
      moved-Queued s ps q i h _ _ (kind i c s (ps i) (number_lt n m l t few s ps q) q.turn_lt)

  one_served :
      (i j : ℕ) (s : Shared) (ps : ℕ → Local)
      → i < n
      → j < n
      → Queued n m l t s ps
      → phase (ps i) ≡ inside
      → phase (ps j) ≡ inside
      → i ≡ j
  one_served i j s ps h k q a b =
      eq_of_some
        (sym (q.attending i h (inside_served (ps i) a)) ∙ q.attending j k (inside_served (ps j) b))

  lower :
      (i c : ℕ) (s : Shared) (ps : ℕ → Local)
      → i < n
      → laws.rank (step i c s (ps i)).1 < laws.rank (ps i)
      → total laws.rank n (assign ps i (step i c s (ps i)).1) < total laws.rank n ps
  lower i c s ps h falls =
      omega (arith, falls, total-assign laws.rank n ps i (step i c s (ps i)).1 h)

  -- The thread that stands first, or one without a ticket, can go on.
  queue_advances :
      (j : ℕ) (s : Shared) (ps : ℕ → Local)
      → j < n
      → Queued n m l t s ps
      → ((i : ℕ) → i < n → is_inside (phase (ps i)) ≡ false)
      → is_busy (phase (ps j)) ≡ true
      → (i c : ℕ) × (i < n)
        × (is_busy (phase (ps i)) ≡ true)
        × ((is_busy (phase (step i c s (ps i)).1) ≡ false)
            ⊎ (total laws.rank n (assign ps i (step i c s (ps i)).1) < total laws.rank n ps))
  queue_advances j s ps h q nobody busy = elim (Option-cases (ticket (ps j))) [
    | inl without ↦
        let (c, falls) = nearer j s (ps j) busy (inl without) in
        (j, c, h, busy, inr (lower j c s ps h falls))
    | inr (x, mine) ↦
        let (k, at) = q.present j x h mine in
        let (i, first) = get_elem?-some q.queue 0 (omega (arith, get_elem?-lt q.queue k j at)) in
        let (below, his) = q.placed 0 i first in
        let on_turn : ticket (ps i) ≡ some (turn s) = his ∙ ground (arith, q.turn_lt) in
        let calling : is_busy (phase (ps i)) ≡ true =
          ground (arith, nobody i below, outside_ticket (ps i)) in
        let (c, falls) = nearer i s (ps i) calling (inr on_turn) in
        (i, c, below, calling, inr (lower i c s ps below falls))
  ]

  -- A lock with tickets has the laws of a lock, for as many threads as there are tickets.
  pub ticket_laws : Laws n l
  ticket_laws = record {
    Inv = Queued n m l t;
    init = first-Queued;
    begins = λ i. (first_local i).0;
    keep = step-Queued;
    exclusive = one_served;
    orderly = laws.orderly;
    measure = λ s ps. total laws.rank n ps;
    advance = queue_advances;
  }

  pub laws-Queued : (s : Shared) (ps : ℕ → Local) → ticket_laws.Inv s ps → Queued n m l t s ps
  unfolding ticket_laws
  laws-Queued s ps q = q
