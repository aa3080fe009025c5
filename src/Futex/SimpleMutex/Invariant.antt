-- ===== src/Futex/SimpleMutex/Invariant.antt =====
-- futex/simple_mutex.c: the lock's token, the threads that sleep and those on their way, and that every step
-- keeps them.
use concurrencia.Base.{
  ℕ, ◌+◌, ◌-◌, ◌≤◌, ◌<◌, ◌≡◌, refl, inl, inr, Bool, true, false, ◌&&◌, not, arith, assign,
  assign_self, assign_other, total, total-assign, total_pos, weight-le-total, ◌==◌, if◌then◌else◌,
  Bool-cases, eq-cases, lt-cases, lt→ltb, not_lt,
}
use concurrencia.Lock.{outside, inside, follows}
use concurrencia.Lock.Tokens.{Token, OneToken, OneToken-step}
use concurrencia.Futex.Calls.{Kernel, Documented}
use concurrencia.Futex.Sleepers
use concurrencia.Futex.SimpleMutex.Defs.{
  Local, idle, trying, adding, waiting, sleeping, removing, held, releasing, waking, SimpleFutex,
  step, phase, lock,
}

abbrev pub owns : Local → ℕ
owns held = 1
owns _ = 0

abbrev pub dozes : Local → Bool
dozes sleeping = true
dozes _ = false

abbrev pub is_on : Local → Bool
is_on idle = false
is_on _ = true

-- 1 for a thread that `waiters` counts.
abbrev pub waits : Local → ℕ
waits waiting = 1
waits sleeping = 1
waits removing = 1
waits _ = 0

-- How far a call is from its return, while the lock is free.
abbrev pub rank : Local → ℕ
rank adding = 5
rank waiting = 4
rank sleeping = 3
rank removing = 2
rank trying = 1
rank releasing = 2
rank waking = 1
rank _ = 0

pub outside_owns : (p : Local) → phase p ≡ outside → owns p ≡ 0
outside_owns p h = ground arith

pub inside_owns : (p : Local) → phase p ≡ inside → owns p ≡ 1
inside_owns p h = ground arith

module _ (kernel : Kernel) where
  open kernel use {Queue, empty, asleep, sleep, wake, leave, interrupted}

  abbrev pub free : SimpleFutex kernel → ℕ
  free s = 1 - s.locked

  pub conserve :
      (i c : ℕ) (s : SimpleFutex kernel) (p : Local)
      → owns p + free s ≤ 1
      → owns (step kernel i c s p).1 + free (step kernel i c s p).0 ≡ owns p + free s
  unfolding step
  conserve i c s p h = ground arith

  pub orderly :
      (i c : ℕ) (s : SimpleFutex kernel) (p : Local)
      → follows (phase p) (phase (step kernel i c s p).1) ≡ true
  unfolding step
  orderly i c s p = ground arith

  abbrev pub token : Token (lock kernel)
  token = record {
    Fit = λ p. Unit;
    fit_first = λ i. tt;
    fit_step = λ i c s p f. tt;
    owns = owns;
    free = free;
    conserve = λ i c s p f h. conserve i c s p h;
    free_first = refl;
    outside_first = λ i. refl;
    outside_owns = outside_owns;
    inside_owns = inside_owns;
    orderly = orderly;
  }

  step-Stirs :
      (i c : ℕ) (s : SimpleFutex kernel) (p : Local)
      → Sleepers.Stirs kernel dozes i s.queue p
          (step kernel i c s p).0.queue
          (step kernel i c s p).1
  unfolding step
  step-Stirs i c s idle = Sleepers.Stirs.keeps refl (λ e. absurd (cc e))
  step-Stirs i c s trying = Sleepers.Stirs.keeps refl (λ e. absurd (cc e))
  step-Stirs i c s adding = Sleepers.Stirs.keeps refl (λ e. absurd (cc e))
  step-Stirs i c s waiting = elim (Bool-cases (s.locked == 1)) [
    | inl e ↦ rw e (Sleepers.Stirs.falls refl refl)
    | inr e ↦ rw e (Sleepers.Stirs.keeps refl (λ f. absurd (cc f)))
  ]
  step-Stirs i c s sleeping = elim (Bool-cases (asleep s.queue i && not (interrupted c))) [
    | inl e ↦ rw e (Sleepers.Stirs.keeps refl (λ f. refl))
    | inr e ↦ rw e (Sleepers.Stirs.rises refl)
  ]
  step-Stirs i c s removing = Sleepers.Stirs.keeps refl (λ e. absurd (cc e))
  step-Stirs i c s held = Sleepers.Stirs.keeps refl (λ e. absurd (cc e))
  step-Stirs i c s releasing = Sleepers.Stirs.keeps refl (λ e. absurd (cc e))
  step-Stirs i c s waking = Sleepers.Stirs.rouses 1 c (omega arith) refl refl refl

  module _ (n : ℕ) (documented : Documented kernel) where
    pub record Inv (s : SimpleFutex kernel) (ps : ℕ → Local) : Type 0 where
      pub one : OneToken n (lock kernel) token s ps
      pub tucked : Sleepers.Tucked kernel dozes n documented s.queue ps
      pub counted : s.waiters ≡ total waits n ps
      pub live : Sleepers.Live kernel dozes n documented is_on s.queue ps

    -- A thread that the exchange finds before it holds the lock.
    holder :
        (s : SimpleFutex kernel) (ps : ℕ → Local)
        → OneToken n (lock kernel) token s ps
        → s.locked ≡ 1
        → (j : ℕ) × (j < n) × (ps j ≡ held)
    holder s ps one e =
        let (j, h, p) = total_pos owns n ps (omega (arith, one.one, e)) in (j, h, held_of (ps j) p)
      where
        held_of : (p : Local) → 0 < owns p → p ≡ held
        held_of p h = ground arith

    module _ (i c : ℕ) (h : i < n) (s : SimpleFutex kernel) (ps : ℕ → Local) (inv : Inv s ps) where
      -- The threads on their way after a step from `p`.
      abbrev LiveAfter : Local → Type 0
      LiveAfter p =
          Sleepers.Live kernel dozes n documented is_on (step kernel i c s p).0.queue
            (assign ps i (step kernel i c s p).1)

      nobody_asleep : s.waiters ≡ 0 → (k : ℕ) → k < n → dozes (ps k) ≡ true → ⊥
      nobody_asleep e k l a =
          let one : waits (ps k) ≡ 1 = waits_of (ps k) a in
          omega (arith, inv.counted, e, weight-le-total waits n ps k l, one)
        where
          waits_of : (p : Local) → dozes p ≡ true → waits p ≡ 1
          waits_of p a = ground arith

      step_live : (p : Local) → ps i ≡ p → LiveAfter p
      unfolding step
      step_live idle e =
          Sleepers.self-Live kernel dozes n documented i h s.queue s.queue ps
            (if s.locked == 0 then held else adding) inv.tucked is_on (ground arith) (ground arith)
      step_live trying e =
          Sleepers.self-Live kernel dozes n documented i h s.queue s.queue ps
            (if s.locked == 0 then held else adding) inv.tucked is_on (ground arith) (ground arith)
      step_live adding e =
          Sleepers.self-Live kernel dozes n documented i h s.queue s.queue ps waiting inv.tucked
            is_on refl refl
      step_live waiting e = elim (Bool-cases (s.locked == 1)) [
        | inl f ↦
            let (j, l, q) = holder s ps inv.one (ground (arith, f)) in
            rw f (
              Sleepers.other-Live kernel dozes n documented i h s.queue (sleep i s.queue) ps
                sleeping inv.tucked is_on j l (λ g. cc (rw g at e, q)) (rw q refl) (rw q refl))
        | inr f ↦ rw f (
            Sleepers.self-Live kernel dozes n documented i h s.queue s.queue ps removing inv.tucked
              is_on refl refl)
      ]
      step_live sleeping e = elim (Bool-cases (asleep s.queue i && not (interrupted c))) [
        | inl f ↦ rw f (
            Sleepers.same-Live kernel dozes n documented i h s.queue s.queue ps sleeping inv.tucked
              is_on e inv.live)
        | inr f ↦ rw f (
            Sleepers.self-Live kernel dozes n documented i h s.queue (leave i s.queue) ps removing
              inv.tucked is_on refl refl)
      ]
      step_live removing e =
          Sleepers.self-Live kernel dozes n documented i h s.queue s.queue ps trying inv.tucked
            is_on refl refl
      step_live held e =
          Sleepers.self-Live kernel dozes n documented i h s.queue s.queue ps releasing inv.tucked
            is_on refl refl
      step_live releasing e = elim (lt-cases 0 s.waiters) [
        | inl f ↦ rw (lt→ltb _ _ f) (
            Sleepers.self-Live kernel dozes n documented i h s.queue s.queue ps waking inv.tucked
              is_on refl refl)
        | inr f ↦ rw (not_lt 0 s.waiters f) (λ k l a. absurd (asleep_then (omega arith) k l a))
      ]
        where
          asleep_then :
              s.waiters ≡ 0
              → (k : ℕ) → k < n
              → Sleepers.is_asleep kernel dozes s.queue k (assign ps i idle k) ≡ true
              → ⊥
          asleep_then none_waits k l a = elim (eq-cases i k) [
            | inl g ↦ cc (rw (← g, assign_self ps i idle) at a)
            | inr g ↦ nobody_asleep none_waits k l (
                Sleepers.dozes_of kernel dozes s.queue k (ps k)
                  (rw (assign_other ps i k idle g) at a))
          ]
      step_live waking e =
          Sleepers.rouses-Live kernel dozes n documented i h s.queue (wake 1 c s.queue) ps idle
            inv.tucked is_on 1 c (omega arith) refl (rw e refl) refl (λ p d. on_of p d)
        where
          on_of : (p : Local) → dozes p ≡ true → is_on p ≡ true
          on_of p d = ground arith

      step_counted :
          (step kernel i c s (ps i)).0.waiters + waits (ps i)
          ≡ s.waiters + waits (step kernel i c s (ps i)).1
      step_counted = counted_of (ps i) (omega (arith, inv.counted, weight-le-total waits n ps i h))
        where
          counted_of :
              (p : Local)
              → waits p ≤ s.waiters
              → (step kernel i c s p).0.waiters + waits p
                ≡ s.waiters + waits (step kernel i c s p).1
          counted_of p l = unfold step in ground arith

      pub keep : Inv (step kernel i c s (ps i)).0 (assign ps i (step kernel i c s (ps i)).1)
      keep = record {
        one = OneToken-step n (lock kernel) token i c s ps h inv.one;
        tucked =
            Sleepers.Tucked-step kernel dozes n documented i h s.queue
              (step kernel i c s (ps i)).0.queue ps (step kernel i c s (ps i)).1 inv.tucked
              (step-Stirs i c s (ps i));
        counted = omega (
          arith,
          inv.counted,
          step_counted,
          total-assign waits n ps i (step kernel i c s (ps i)).1 h,
        );
        live = step_live (ps i) refl;
      }
