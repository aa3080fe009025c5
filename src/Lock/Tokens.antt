-- ===== src/Lock/Tokens.antt =====
-- Locks of one word: the lock hands out a single token, which lies in the shared variables or with
-- one thread. Every step hands it on, so two threads inside are one; and if a call that can have the
-- token comes nearer to its return, the lock's laws follow.
use concurrencia.Base.{
  ℕ, ◌+◌, ◌≤◌, ◌<◌, ◌≡◌, ◌⊎◌, ◌≢◌, inl, inr, true, false, arith, assign, assign_self, assign_other,
  total, total-assign, weight-le-total, weight-weight-le-total, total_const, total_pos, eq-cases,
  lt-cases,
}
use concurrencia.Lock.Defs.{outside, inside, is_inside, is_busy, follows, Lock, Laws}

module _ (l : Lock) where
  open l use {Shared, Local, shared, local, step, phase}

  pub record Token : Type 1 where
    -- what the local variables hold at each place
    pub Fit : Local → Type 0
    pub fit_first : (i : ℕ) → Fit (local i)
    pub fit_step : (i c : ℕ) (s : Shared) (p : Local) → Fit p → Fit (step i c s p).1
    -- 1 for a thread that has the token, and for a lock that has it
    pub owns : Local → ℕ
    pub free : Shared → ℕ
    pub conserve :
        (i c : ℕ) (s : Shared) (p : Local)
        → Fit p
        → owns p + free s ≤ 1
        → owns (step i c s p).1 + free (step i c s p).0 ≡ owns p + free s
    pub free_first : free shared ≡ 1
    pub outside_first : (i : ℕ) → phase (local i) ≡ outside
    pub outside_owns : (p : Local) → phase p ≡ outside → owns p ≡ 0
    pub inside_owns : (p : Local) → phase p ≡ inside → owns p ≡ 1
    pub orderly :
        (i c : ℕ) (s : Shared) (p : Local) → follows (phase p) (phase (step i c s p).1) ≡ true

  pub record TokenLaws : Type 1 where
    -- what the local variables hold at each place
    pub Fit : Local → Type 0
    pub fit_first : (i : ℕ) → Fit (local i)
    pub fit_step : (i c : ℕ) (s : Shared) (p : Local) → Fit p → Fit (step i c s p).1
    -- 1 for a thread that has the token, and for a lock that has it
    pub owns : Local → ℕ
    pub free : Shared → ℕ
    pub conserve :
        (i c : ℕ) (s : Shared) (p : Local)
        → Fit p
        → owns p + free s ≤ 1
        → owns (step i c s p).1 + free (step i c s p).0 ≡ owns p + free s
    pub free_first : free shared ≡ 1
    pub outside_first : (i : ℕ) → phase (local i) ≡ outside
    pub outside_owns : (p : Local) → phase p ≡ outside → owns p ≡ 0
    pub inside_owns : (p : Local) → phase p ≡ inside → owns p ≡ 1
    pub orderly :
        (i c : ℕ) (s : Shared) (p : Local) → follows (phase p) (phase (step i c s p).1) ≡ true
    pub rank : Local → ℕ
    pub worst : ℕ
    pub rank-le : (p : Local) → rank p ≤ worst
    -- A call comes nearer to its return if it can have the token.
    pub nearer :
        (i : ℕ) (s : Shared) (p : Local)
        → Fit p
        → is_busy (phase p) ≡ true
        → owns p + free s ≡ 1
        → (c : ℕ) × (rank (step i c s p).1 < rank p)

  abbrev pub token_of : TokenLaws → Token
  token_of t = record {
    Fit = t.Fit;
    fit_first = t.fit_first;
    fit_step = t.fit_step;
    owns = t.owns;
    free = t.free;
    conserve = t.conserve;
    free_first = t.free_first;
    outside_first = t.outside_first;
    outside_owns = t.outside_owns;
    inside_owns = t.inside_owns;
    orderly = t.orderly;
  }

module _ (n : ℕ) (l : Lock) (t : Token l) where
  open l use {Shared, Local, shared, local, step, phase}
  open t use {
    Fit, fit_first, fit_step, owns, free, conserve, free_first, outside_first, outside_owns,
    inside_owns, orderly,
  }

  pub record OneToken (s : Shared) (ps : ℕ → Local) : Type 0 where
    pub one : total owns n ps + free s ≡ 1
    pub fits : (i : ℕ) → i < n → Fit (ps i)

  pub OneToken-first : OneToken shared local
  OneToken-first = record {
    one =
        omega
          (arith, total_const owns n 0 local (λ i h. outside_owns _ (outside_first i)), free_first);
    fits = λ i h. fit_first i;
  }

  module _ (i c : ℕ) (s : Shared) (ps : ℕ → Local) (h : i < n) (token : OneToken s ps) where
    open token use {one, fits}

    small : owns (ps i) + free s ≤ 1
    small = omega (arith, weight-le-total owns n ps i h, one)

    step_fits : (j : ℕ) → j < n → Fit (assign ps i (step i c s (ps i)).1 j)
    step_fits j k = elim (eq-cases i j) [
      | inl e ↦ rw (← e, assign_self ps i _) (fit_step i c s (ps i) (fits i h))
      | inr d ↦ rw (assign_other ps i j _ d) (fits j k)
    ]

    pub OneToken-step : OneToken (step i c s (ps i)).0 (assign ps i (step i c s (ps i)).1)
    OneToken-step = record {
      one = omega (
        arith,
        total-assign owns n ps i (step i c s (ps i)).1 h,
        conserve i c s (ps i) (fits i h) small,
        one,
      );
      fits = step_fits;
    }

  pub one_inside :
      (i j : ℕ) (s : Shared) (ps : ℕ → Local)
      → i < n
      → j < n
      → OneToken s ps
      → phase (ps i) ≡ inside
      → phase (ps j) ≡ inside
      → i ≡ j
  one_inside i j s ps h k token p q = elim (eq-cases i j) [
    | inl e ↦ e
    | inr d ↦ absurd (
        omega (
          arith,
          token.one,
          weight-weight-le-total owns n ps i j h k d,
          inside_owns (ps i) p,
          inside_owns (ps j) q,
        ))
  ]

-- A step that lowers a thread's rank lowers the sum of the ranks.
module _ (n : ℕ) (l : Lock) where
  open l use {Shared, Local, step, phase}

  pub lower_total :
      (rank : Local → ℕ) (i c : ℕ) (s : Shared) (ps : ℕ → Local)
      → i < n
      → (is_busy (phase (step i c s (ps i)).1) ≡ false) ⊎ (rank (step i c s (ps i)).1 < rank (ps i))
      → (is_busy (phase (step i c s (ps i)).1) ≡ false)
        ⊎ (total rank n (assign ps i (step i c s (ps i)).1) < total rank n ps)
  lower_total rank i c s ps h (inl returns) = inl returns
  lower_total rank i c s ps h (inr falls) =
      inr (omega (arith, falls, total-assign rank n ps i (step i c s (ps i)).1 h))

module _ (n : ℕ) (l : Lock) (laws : TokenLaws l) where
  open l use {Shared, Local, shared, local, step, phase}
  open laws use {owns, free, outside_first, outside_owns, orderly, rank, nearer}

  abbrev t : Token l
  t = token_of l laws

  busy_of : (p : Local) → is_inside (phase p) ≡ false → owns p ≢ 0 → is_busy (phase p) ≡ true
  busy_of p h d = ground (arith, outside_owns p)

  module _ (s : Shared) (ps : ℕ → Local) (token : OneToken n l t s ps) where
    open token use {one, fits}

    lower :
        (i c : ℕ)
        → i < n
        → rank (step i c s (ps i)).1 < rank (ps i)
        → total rank n (assign ps i (step i c s (ps i)).1) < total rank n ps
    lower i c h falls = omega (arith, falls, total-assign rank n ps i (step i c s (ps i)).1 h)

    token_advances :
        (j : ℕ)
        → j < n
        → ((i : ℕ) → i < n → is_inside (phase (ps i)) ≡ false)
        → is_busy (phase (ps j)) ≡ true
        → (i c : ℕ) × (i < n)
          × (is_busy (phase (ps i)) ≡ true)
          × ((is_busy (phase (step i c s (ps i)).1) ≡ false)
              ⊎ (total rank n (assign ps i (step i c s (ps i)).1) < total rank n ps))
    token_advances j h nobody busy = elim (lt-cases 0 (total owns n ps)) [
      | inl taken ↦
          let (i, below, some_token) = total_pos owns n ps taken in
          let owner : is_busy (phase (ps i)) ≡ true =
            busy_of (ps i) (nobody i below) (omega arith) in
          let (c, falls) =
            nearer i s (ps i) (fits i below) owner
              (omega (arith, one, weight-le-total owns n ps i below)) in
          (i, c, below, owner, inr (lower i c below falls))
      | inr not_taken ↦
          let (c, falls) =
            nearer j s (ps j) (fits j h) busy (omega (arith, one, weight-le-total owns n ps j h)) in
          (j, c, h, busy, inr (lower j c h falls))
    ]

  -- A lock that hands out one token has the laws of a lock, for any number of threads.
  pub token_laws : Laws n l
  token_laws = record {
    Inv = OneToken n l t;
    init = OneToken-first n l t;
    begins = outside_first;
    keep = OneToken-step n l t;
    exclusive = one_inside n l t;
    orderly = orderly;
    measure = λ s ps. total rank n ps;
    advance = λ j s ps h token. token_advances s ps token j h;
  }
