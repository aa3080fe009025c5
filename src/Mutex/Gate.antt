-- ===== src/Mutex/Gate.antt =====
-- A critical section between a call that may block and a call that does not, and the laws of a lock
-- for it, if there is room for one thread.
use concurrencia.Base.{
  ℕ, ◌+◌, ◌≤◌, ◌<◌, ◌≡◌, refl, inl, inr, true, Option, none, some, arith, lt-cases,
}
use concurrencia.Lock.{Phase, outside, entering, inside, is_busy, follows, Lock, Laws}
use concurrencia.Lock.Tokens.{TokenLaws, token_laws}

-- `enter` is the call that may block, `leave` the other one; `room` is how many threads may enter.
pub record Gate : Type 1 where
  pub State : Type 0
  pub first : State
  pub room : State → ℕ
  pub enter : ℕ → State → Option State
  pub leave : State → State

pub record OneAtATime (g : Gate) : Type 0 where
  pub room-first : g.room g.first ≡ 1
  pub enter-shut : (c : ℕ) (s : g.State) → g.room s ≡ 0 → g.enter c s ≡ none
  pub enter-open :
      (c : ℕ) (s : g.State)
      → g.room s ≡ 1
      → (s' : g.State) × (g.enter c s ≡ some s') × (g.room s' ≡ 0)
  pub room-leave : (s : g.State) → g.room s ≡ 0 → g.room (g.leave s) ≡ 1

-- Outside, in the call that blocks, and between the calls.
pub data Local : Type 0 where
  idle blocked held : Local

abbrev pub phase : Local → Phase
phase idle = outside
phase blocked = entering
phase held = inside

module _ (g : Gate) where
  open g use {State, first, room, enter, leave}

  abbrev pub entered : State → Option State → State × Local
  entered s none = (s, blocked)
  entered s (some s') = (s', held)

  unfoldable pub step : ℕ → ℕ → State → Local → State × Local
  step i c s idle = entered s (enter c s)
  step i c s blocked = entered s (enter c s)
  step i c s held = (leave s, idle)

  abbrev pub lock : Lock
  lock = record {
    Shared = State;
    Local = Local;
    shared = first;
    local = λ i. idle;
    step = step;
    phase = phase;
  }

  abbrev owns : Local → ℕ
  owns held = 1
  owns _ = 0

  abbrev rank : Local → ℕ
  rank blocked = 1
  rank _ = 0

  rank-le : (p : Local) → rank p ≤ 1
  rank-le p = ground arith

  entered-follows :
      (s : State) (x : Option State)
      → (follows outside (phase (entered s x).1) ≡ true)
        × (follows entering (phase (entered s x).1) ≡ true)
  entered-follows s none = (refl, refl)
  entered-follows s (some s') = (refl, refl)

  orderly : (i c : ℕ) (s : State) (p : Local) → follows (phase p) (phase (step i c s p).1) ≡ true
  unfolding step
  orderly i c s idle = (entered-follows s (enter c s)).0
  orderly i c s blocked = (entered-follows s (enter c s)).1
  orderly i c s held = refl

  module _ (one : OneAtATime g) where
    entered-owns :
        (c : ℕ) (s : State)
        → room s ≤ 1
        → owns (entered s (enter c s)).1 + room (entered s (enter c s)).0 ≡ room s
    entered-owns c s h = elim (lt-cases 0 (room s)) [
      | inl open_now ↦
          let (s', e, f) = one.enter-open c s (omega (arith, h, open_now)) in
          rw e (omega (arith, h, open_now, f))
      | inr shut ↦ rw (one.enter-shut c s (omega (arith, shut))) (omega arith)
    ]

    conserve :
        (i c : ℕ) (s : State) (p : Local)
        → owns p + room s ≤ 1
        → owns (step i c s p).1 + room (step i c s p).0 ≡ owns p + room s
    unfolding step
    conserve i c s idle h = omega (arith, entered-owns c s (omega (arith, h)))
    conserve i c s blocked h = omega (arith, entered-owns c s (omega (arith, h)))
    conserve i c s held h =
        let empty : room s ≡ 0 = omega (arith, h) in omega (arith, one.room-leave s empty, empty)

    -- With room for one thread a call that blocked goes on.
    nearer :
        (i : ℕ) (s : State) (p : Local)
        → is_busy (phase p) ≡ true
        → owns p + room s ≡ 1
        → (c : ℕ) × (rank (step i c s p).1 < rank p)
    unfolding step
    nearer i s idle b h = absurd (cc b)
    nearer i s blocked b h =
        let (s', e, f) = one.enter-open 0 s (omega (arith, h)) in (0, rw e (omega arith))
    nearer i s held b h = absurd (cc b)

    laws : TokenLaws lock
    laws = record {
      Fit = λ p. Unit;
      fit_first = λ i. tt;
      fit_step = λ i c s p f. tt;
      owns = owns;
      free = room;
      conserve = λ i c s p f h. conserve i c s p h;
      free_first = one.room-first;
      outside_first = λ i. refl;
      outside_owns = λ p h. ground arith;
      inside_owns = λ p h. ground arith;
      orderly = orderly;
      rank = rank;
      worst = 1;
      rank-le = rank-le;
      nearer = λ i s p f b h. nearer i s p b h;
    }

    pub lock_laws : (n : ℕ) → Laws n lock
    lock_laws n = token_laws n lock laws
