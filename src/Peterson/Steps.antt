-- ===== src/Peterson/Steps.antt =====
-- What one step of a thread keeps.
use concurrencia.Base.{ℕ, suc, ◌+◌, ◌*◌, ◌-◌, ◌≤◌, ◌<◌, ◌≡◌, ◌⊎◌, arith, ◌==◌, if◌then◌else◌}
use concurrencia.Peterson.Defs.{
  Place, top, raised, checking, turning, held, loaded, stored, Move, other, move,
}

-- The value of `states[i]` at each place of thread `i`.
abbrev pub raises : Place → ℕ
raises top = 0
raises _ = 1

-- 1 for a thread between `lock` and `unlock`.
abbrev pub holds : Place → ℕ
holds held = 1
holds (loaded _) = 1
holds stored = 1
holds _ = 0

-- 1 for a thread that has stored `turn`.
abbrev pub contends : Place → ℕ
contends top = 0
contends raised = 0
contends _ = 1

abbrev pub Fits : ℕ → ℕ → Place → ℕ → Type 0
Fits max k top r = r ≤ max
Fits max k (loaded v) r = (v ≡ k) × (r < max)
Fits max k _ r = r < max

abbrev pub stores : Place → ℕ → ℕ
stores stored r = suc r
stores _ r = r

-- How far a thread is from its end, the wait left aside.
abbrev pub steps_left : Place → ℕ
steps_left top = 8
steps_left raised = 7
steps_left checking = 6
steps_left turning = 6
steps_left held = 5
steps_left (loaded _) = 4
steps_left stored = 3

abbrev pub coarse : ℕ → Place → ℕ → ℕ
coarse max p r = (max - r) * 10 + steps_left p

-- How far a thread is from the end of its wait, by the other's state.
abbrev pub fine : ℕ → Place → ℕ
fine theirs checking = if theirs == 0 then 1 else 2
fine theirs turning = if theirs == 0 then 2 else 1
fine theirs _ = 0

module _ (max i mine theirs t k r : ℕ) where
  abbrev next : Place → Move
  next p = move max p i mine theirs t k r

  pub move-raises : (p : Place) → mine ≡ raises p → (next p).state ≡ raises (next p).thread.place
  unfolding move
  move-raises p h = ground arith

  pub move-turn : (p : Place) → t < 2 → (next p).turn < 2
  unfolding move
  move-turn p h = ground arith

  pub move-holds_turn : (p : Place) → holds p ≡ 1 → (next p).turn ≡ t
  unfolding move
  move-holds_turn p h = ground arith

  -- A thread enters when the other's state is clear, or the turn is its own.
  pub move-holds :
      (p : Place)
      → t < 2
      → i < 2
      → holds (next p).thread.place ≡ 1
      → (holds p ≡ 1) ⊎ (((theirs ≡ 0) ⊎ (t ≡ i)) × ((contends p ≡ 1) × ((next p).turn ≡ t)))
  unfolding move
  move-holds p h l e = ground arith

  -- A thread that begins to contend gives the turn away.
  pub move-contends :
      (p : Place)
      → contends (next p).thread.place ≡ 1
      → ((contends p ≡ 1) × ((next p).turn ≡ t))
        ⊎ (((next p).turn ≡ other i) × (holds (next p).thread.place ≡ 0))
  unfolding move
  move-contends p e = ground arith

  pub move-Fits :
      (p : Place)
      → Fits max k p r
      → Fits max (next p).counter (next p).thread.place (next p).thread.round
  unfolding move
  move-Fits p f = ground arith

  pub move-counter : (p : Place) → holds p ≡ 0 → (next p).counter ≡ k
  unfolding move
  move-counter p h = ground arith

  pub move-stores :
      (p : Place)
      → Fits max k p r
      → (next p).counter + stores p r ≡ k + stores (next p).thread.place (next p).thread.round
  unfolding move
  move-stores p f = ground arith

  -- A step of a thread that has the turn, or whose other is outside, brings its end nearer, or the
  -- end of its wait.
  pub move-nearer :
      (p : Place)
      → Fits max k p r
      → r < max
      → i < 2
      → (theirs ≡ 0) ⊎ (t ≡ i)
      → (coarse max (next p).thread.place (next p).thread.round < coarse max p r)
        ⊎ ((coarse max (next p).thread.place (next p).thread.round ≡ coarse max p r)
            × (((next p).state ≡ mine) × (fine theirs (next p).thread.place < fine theirs p)))
  unfolding move
  move-nearer p f below l free = ground arith
