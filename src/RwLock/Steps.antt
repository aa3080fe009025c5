-- ===== src/RwLock/Steps.antt =====
-- What one step of a thread keeps.
use concurrencia.Base.{
  ℕ, ◌+◌, ◌*◌, ◌-◌, ◌/◌, ◌%◌, ◌^◌, ◌≤◌, ◌<◌, ◌≡◌, ◌⊎◌, ◌≢◌, arith, ◌==◌, if◌then◌else◌,
}
use concurrencia.RwLock.Defs.{
  Place, top, reader_spin, reader_load, reader_swap, reading, copied, writer_spin, writer_load,
  writer_swap, draining, writing, loaded, stored, turn,
}

-- 1 for a reader that has the lock, for a writer that has set the top bit, and for a writer that is
-- alone.
abbrev pub reads : Place → ℕ
reads reading = 1
reads (copied _) = 1
reads _ = 0

abbrev pub writes : Place → ℕ
writes draining = 1
writes writing = 1
writes (loaded _) = 1
writes stored = 1
writes _ = 0

abbrev pub writes_alone : Place → ℕ
writes_alone writing = 1
writes_alone (loaded _) = 1
writes_alone stored = 1
writes_alone _ = 0

-- What place and round of a thread say, over the counter.
abbrev pub Fits : ℕ → ℕ → Place → ℕ → Type 0
Fits max k top r = r ≤ max
Fits max k reader_spin r = (r < max) × (r % 10 ≢ 0)
Fits max k reader_load r = (r < max) × (r % 10 ≢ 0)
Fits max k (reader_swap old) r = (r < max) × (r % 10 ≢ 0) × (old < 2 ^ 31)
Fits max k reading r = (r < max) × (r % 10 ≢ 0)
Fits max k (copied c) r = (r < max) × (r % 10 ≢ 0)
Fits max k writer_spin r = (r < max) × (r % 10 ≡ 0)
Fits max k writer_load r = (r < max) × (r % 10 ≡ 0)
Fits max k (writer_swap old) r = (r < max) × (r % 10 ≡ 0) × (old < 2 ^ 31)
Fits max k draining r = (r < max) × (r % 10 ≡ 0)
Fits max k writing r = (r < max) × (r % 10 ≡ 0)
Fits max k (loaded v) r = (r < max) × (r % 10 ≡ 0) × (v ≡ k)
Fits max k stored r = (r < max) × (r % 10 ≡ 0)

-- How often a thread has stored: in one round of ten.
abbrev pub stores : Place → ℕ → ℕ
stores stored r = (r + 10) / 10
stores _ r = (r + 9) / 10

-- How far a thread is from its end, trying to get the lock left aside.
abbrev pub steps_left : Place → ℕ
steps_left top = 8
steps_left reading = 5
steps_left (copied _) = 4
steps_left draining = 6
steps_left writing = 5
steps_left (loaded _) = 4
steps_left stored = 3
steps_left _ = 7

abbrev pub coarse : ℕ → Place → ℕ → ℕ
coarse max p r = (max - r) * 10 + steps_left p

-- How far a thread is from getting the lock, while nobody changes the word.
abbrev pub fine : ℕ → Place → ℕ
fine x reader_spin = 3
fine x reader_load = 2
fine x (reader_swap old) = if x == old then 1 else 4
fine x writer_spin = 3
fine x writer_load = 2
fine x (writer_swap old) = if x == old then 1 else 4
fine x _ = 0

module _ (n max : ℕ) where
  module _ (x k r : ℕ) where
    -- The word counts readers and writer, if it counted them before.
    pub turn-word :
        (p : Place)
        → Fits max k p r
        → reads p + 2 ^ 31 * writes p ≤ x
        → x < 2 ^ 32
        → x % 2 ^ 31 + 1 < 2 ^ 31
        → (writes_alone p ≡ 1 → x ≡ 2 ^ 31)
        → (turn n max p x k r).rw_lock + (reads p + 2 ^ 31 * writes p)
          ≡ x
            + (reads (turn n max p x k r).thread.place
                + 2 ^ 31 * writes (turn n max p x k r).thread.place)
    unfolding turn
    turn-word p f low high few alone = ground arith

    -- While the top bit is set, nobody gets the lock.
    pub turn-barred :
        (p : Place)
        → Fits max k p r
        → 2 ^ 31 ≤ x
        → (reads (turn n max p x k r).thread.place ≤ reads p)
          × (writes (turn n max p x k r).thread.place ≤ writes p)
    unfolding turn
    turn-barred p f h = ground arith

    -- A writer takes one bit, and is alone when there is no reader.
    pub turn-alone :
        (p : Place)
        → writes_alone (turn n max p x k r).thread.place ≡ 1
        → (writes_alone p ≡ 1) ⊎ (x % 2 ^ 31 ≡ 0 × writes p ≡ 1)
    unfolding turn
    turn-alone p h = ground arith

    pub turn-Fits :
        (p : Place)
        → Fits max k p r
        → Fits max
            (turn n max p x k r).counter
            (turn n max p x k r).thread.place
            (turn n max p x k r).thread.round
    unfolding turn
    turn-Fits p f = ground arith

    pub turn-counter : (p : Place) → writes_alone p ≡ 0 → (turn n max p x k r).counter ≡ k
    unfolding turn
    turn-counter p h = ground arith

    pub turn-stores :
        (p : Place)
        → Fits max k p r
        → (turn n max p x k r).counter + stores p r
          ≡ k + stores (turn n max p x k r).thread.place (turn n max p x k r).thread.round
    unfolding turn
    turn-stores p f = ground arith

    -- A step brings the thread nearer to its end, or, with the word as it was, nearer to the lock:
    -- of a reader that has the lock, of a writer that has set the bit when the readers have gone,
    -- or of a thread that has nothing while the bit is clear.
    pub turn-nearer :
        (p : Place)
        → Fits max k p r
        → r < max
        → (reads p ≡ 1) ⊎ (((x % 2 ^ 31 ≡ 0) × (writes p ≡ 1)) ⊎ ((x < 2 ^ 31) × (writes p ≡ 0)))
        → (coarse max (turn n max p x k r).thread.place (turn n max p x k r).thread.round
            < coarse max p r)
          ⊎ (((turn n max p x k r).rw_lock ≡ x)
              × ((coarse max (turn n max p x k r).thread.place (turn n max p x k r).thread.round
                    ≡ coarse max p r)
                  × (fine x (turn n max p x k r).thread.place < fine x p)))
    unfolding turn
    turn-nearer p f below free = ground arith
