-- ===== src/RwLock/Exclusion.antt =====
-- Readers and writers exclude each other.
use concurrencia.Base.{
  ℕ, ◌+◌, ◌^◌, ◌<◌, ◌≡◌, inl, inr, Bool, true, false, ◌&&◌, List, arith, weight-le-total,
  weight-weight-le-total, ltb, ◌==◌, Bool-cases, eq-cases,
}
use concurrencia.Worker.{Action}
use concurrencia.RwLock.Defs.{System, run}
use concurrencia.RwLock.Steps.{reads, writes_alone}
use concurrencia.RwLock.Invariant.{reader, writer, alone-writes, Good, first, after}

-- Thread `i` is between the return of `writer_lock` and the call of `writer_unlock`.
unfoldable pub is_writing : ℕ → ℕ → List Action → ℕ → Bool
is_writing n max actions i =
    ltb i n && (writes_alone ((run n max actions (first n max)).threads i).place == 1)

-- Thread `i` is between the return of `reader_lock` and the call of `reader_unlock`.
unfoldable pub is_reading : ℕ → ℕ → List Action → ℕ → Bool
is_reading n max actions i =
    ltb i n && (reads ((run n max actions (first n max)).threads i).place == 1)

module _ (n max : ℕ) (few : n + 1 < 2 ^ 31) (actions : List Action) where
  writing-elim :
      (i : ℕ)
      → is_writing n max actions i ≡ true
      → (i < n) × (writes_alone ((run n max actions (first n max)).threads i).place ≡ 1)
  unfolding is_writing
  writing-elim i p = ground arith

  reading-elim :
      (i : ℕ)
      → is_reading n max actions i ≡ true
      → (i < n) × (reads ((run n max actions (first n max)).threads i).place ≡ 1)
  unfolding is_reading
  reading-elim i p = ground arith

  -- A writer excludes the other writers and the readers.
  pub excludes :
      (i j : ℕ)
      → is_writing n max actions i ≡ true
      → (is_writing n max actions j ≡ true → i ≡ j) × (is_reading n max actions j ≡ false)
  excludes i j p = (
    one,
    elim (Bool-cases (is_reading n max actions j)) [
      | inl q ↦
          let (k, b) = reading-elim j q in
          absurd (omega (arith, g.alone i h a, b, weight-le-total reader n s.threads j k))
      | inr q ↦ q
    ],
  )
    where
      s : System
      s = run n max actions (first n max)

      g : Good n max s
      g = after n max few actions

      h : i < n
      h = (writing-elim i p).0

      a : writes_alone (s.threads i).place ≡ 1
      a = (writing-elim i p).1

      one : is_writing n max actions j ≡ true → i ≡ j
      one q =
          let (k, b) = writing-elim j q in
          elim (eq-cases i j) [
            | inl e ↦ e
            | inr d ↦ absurd (
                omega (
                  arith,
                  g.one_writer,
                  a,
                  b,
                  alone-writes (s.threads i).place,
                  alone-writes (s.threads j).place,
                  weight-weight-le-total writer n s.threads i j h k d,
                ))
          ]
