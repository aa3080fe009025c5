-- ===== src/Futex/Drepper/Invariant.antt =====
-- futex/mutex_drepper.c: the lock's token, the threads that sleep and those on their way, and that every step
-- keeps them.
use concurrencia.Base.{
  ℕ, ◌+◌, ◌-◌, ◌≤◌, ◌<◌, ◌≡◌, refl, ◌≢◌, inl, inr, Bool, true, false, ◌&&◌, not, arith, assign,
  total_pos, weight-le-total, weight-weight-le-total, ◌==◌, if◌then◌else◌, Bool-cases,
}
use concurrencia.Lock.{outside, inside, follows}
use concurrencia.Lock.Tokens.{Token, OneToken, OneToken-step}
use concurrencia.Futex.Calls.{Kernel, Documented}
use concurrencia.Futex.Sleepers
use concurrencia.Futex.Drepper.Defs.{
  Local, idle, swapping, waiting, sleeping, again, held, releasing, waking, Mutex, step, phase,
  lock,
}

abbrev pub owns : Local → ℕ
owns held = 1
owns releasing = 1
owns _ = 0

abbrev pub dozes : Local → Bool
dozes sleeping = true
dozes _ = false

-- A thread on its way to wake a sleeper, or to a lock whose word tells of sleepers.
abbrev pub is_on : ℕ → Local → Bool
is_on x idle = false
is_on x held = x == 2
is_on x _ = true

-- How far a call is from its return, while the lock is free.
abbrev pub rank : Local → ℕ
rank waiting = 3
rank sleeping = 2
rank again = 1
rank releasing = 2
rank waking = 1
rank _ = 0

pub outside_owns : (p : Local) → phase p ≡ outside → owns p ≡ 0
outside_owns p h = ground arith

pub inside_owns : (p : Local) → phase p ≡ inside → owns p ≡ 1
inside_owns p h = ground arith

module _ (kernel : Kernel) where
  open kernel use {Queue, empty, asleep, sleep, wake, leave, interrupted}

  abbrev pub free : Mutex kernel → ℕ
  free s = 1 - s.futex

  pub conserve :
      (i c : ℕ) (s : Mutex kernel) (p : Local)
      → owns p + free s ≤ 1
      → owns (step kernel i c s p).1 + free (step kernel i c s p).0 ≡ owns p + free s
  unfolding step
  conserve i c s p h = ground arith

  pub orderly :
      (i c : ℕ) (s : Mutex kernel) (p : Local)
      → follows (phase p) (phase (step kernel i c s p).1) ≡ true
  unfolding step
  orderly i c s p = ground arith

  abbrev pub token : Token (lock kernel)
  token = record {
    Fit = λ p. Unit;
    fit_first = λ i. tt;
    fit_step = λ i c s p f. tt;
    owns = owns;
    free = free;
    conserve = λ i c s p f h. conserve i c s p h;
    free_first = refl;
    outside_first = λ i. refl;
    outside_owns = outside_owns;
    inside_owns = inside_owns;
    orderly = orderly;
  }

  step-Stirs :
      (i c : ℕ) (s : Mutex kernel) (p : Local)
      → Sleepers.Stirs kernel dozes i s.queue p
          (step kernel i c s p).0.queue
          (step kernel i c s p).1
  unfolding step
  step-Stirs i c s idle = elim (Bool-cases (s.futex == 0)) [
    | inl e ↦ rw e (Sleepers.Stirs.keeps refl (λ f. absurd (cc f)))
    | inr e ↦ rw e (Sleepers.Stirs.keeps refl (λ f. absurd (cc f)))
  ]
  step-Stirs i c s swapping = Sleepers.Stirs.keeps refl (λ e. absurd (cc e))
  step-Stirs i c s waiting = elim (Bool-cases (s.futex == 2)) [
    | inl e ↦ rw e (Sleepers.Stirs.falls refl refl)
    | inr e ↦ rw e (Sleepers.Stirs.keeps refl (λ f. absurd (cc f)))
  ]
  step-Stirs i c s sleeping = elim (Bool-cases (asleep s.queue i && not (interrupted c))) [
    | inl e ↦ rw e (Sleepers.Stirs.keeps refl (λ f. refl))
    | inr e ↦ rw e (Sleepers.Stirs.rises refl)
  ]
  step-Stirs i c s again = Sleepers.Stirs.keeps refl (λ e. absurd (cc e))
  step-Stirs i c s held = Sleepers.Stirs.keeps refl (λ e. absurd (cc e))
  step-Stirs i c s releasing = Sleepers.Stirs.keeps refl (λ e. absurd (cc e))
  step-Stirs i c s waking = Sleepers.Stirs.rouses 1 c (omega arith) refl refl refl

  module _ (n : ℕ) (documented : Documented kernel) where
    pub record Inv (s : Mutex kernel) (ps : ℕ → Local) : Type 0 where
      pub one : OneToken n (lock kernel) token s ps
      pub tucked : Sleepers.Tucked kernel dozes n documented s.queue ps
      pub live : Sleepers.Live kernel dozes n documented (is_on s.futex) s.queue ps

    -- The thread that has the lock is on its way while the word is 2.
    holder :
        (s : Mutex kernel) (ps : ℕ → Local)
        → OneToken n (lock kernel) token s ps
        → s.futex ≡ 2
        → (j : ℕ) × (j < n)
          × ((is_on s.futex (ps j) ≡ true) × ((dozes (ps j) ≡ false) × (owns (ps j) ≡ 1)))
    holder s ps one e =
        let (j, h, p) = total_pos owns n ps (omega (arith, one.one, e)) in (j, h, on_of (ps j) p)
      where
        on_of :
            (p : Local) → 0 < owns p → (is_on s.futex p ≡ true) × ((dozes p ≡ false) × (owns p ≡ 1))
        on_of p h = ground (arith, e)

    module _ (i c : ℕ) (h : i < n) (s : Mutex kernel) (ps : ℕ → Local) (inv : Inv s ps) where
      -- The threads on their way after a step from `p`.
      abbrev LiveAfter : Local → Type 0
      LiveAfter p =
          Sleepers.Live kernel dozes n documented (is_on (step kernel i c s p).0.futex)
            (step kernel i c s p).0.queue (assign ps i (step kernel i c s p).1)

      -- Another thread on its way still is, if it has not the lock.
      stays_on :
          (x : ℕ) (j : ℕ) → owns (ps j) ≡ 0 → is_on s.futex (ps j) ≡ true → is_on x (ps j) ≡ true
      stays_on x j o a = of_place (ps j) o a
        where
          of_place : (p : Local) → owns p ≡ 0 → is_on s.futex p ≡ true → is_on x p ≡ true
          of_place p o a = ground arith

      no_owner_left : s.futex ≡ 0 → (j : ℕ) → j < n → owns (ps j) ≡ 0
      no_owner_left e j l = omega (arith, inv.one.one, e, weight-le-total owns n ps j l)

      no_other_owner : owns (ps i) ≡ 1 → (j : ℕ) → j < n → i ≢ j → owns (ps j) ≡ 0
      no_other_owner o j l d =
          omega (arith, inv.one.one, o, weight-weight-le-total owns n ps i j h l d)

      step_live : (p : Local) → ps i ≡ p → LiveAfter p
      unfolding step
      step_live idle e = elim (Bool-cases (s.futex == 0)) [
        | inl f ↦ rw f (
            Sleepers.kept-Live kernel dozes n documented i h s.queue s.queue ps held inv.tucked
              (is_on s.futex) (is_on 1) refl (inl (rw e refl)) refl
              (λ j l d a. stays_on 1 j (no_owner_left (ground arith) j l) a) inv.live)
        | inr f ↦ rw f (
            Sleepers.self-Live kernel dozes n documented i h s.queue s.queue ps
              (if s.futex == 2 then waiting else swapping) inv.tucked (is_on s.futex) (ground arith)
              (ground arith))
      ]
      step_live swapping e =
          Sleepers.self-Live kernel dozes n documented i h s.queue s.queue ps
            (if s.futex == 0 then held else waiting) inv.tucked (is_on 2) (ground arith)
            (ground arith)
      step_live again e =
          Sleepers.self-Live kernel dozes n documented i h s.queue s.queue ps
            (if s.futex == 0 then held else waiting) inv.tucked (is_on 2) (ground arith)
            (ground arith)
      step_live waiting e = elim (Bool-cases (s.futex == 2)) [
        | inl f ↦
            let (j, l, (on, (awake, o))) = holder s ps inv.one (ground (arith, f)) in
            rw f (
              Sleepers.other-Live kernel dozes n documented i h s.queue (sleep i s.queue) ps
                sleeping inv.tucked (is_on s.futex) j l (λ g. waits_not j e o g) on (rw awake refl))
        | inr f ↦ rw f (
            Sleepers.self-Live kernel dozes n documented i h s.queue s.queue ps again inv.tucked
              (is_on s.futex) refl refl)
      ]
        where
          waits_not : (j : ℕ) → ps i ≡ waiting → owns (ps j) ≡ 1 → i ≡ j → ⊥
          waits_not j e o g = let b = rw (← g, e) at o in omega (arith, b)
      step_live sleeping e = elim (Bool-cases (asleep s.queue i && not (interrupted c))) [
        | inl f ↦ rw f (
            Sleepers.same-Live kernel dozes n documented i h s.queue s.queue ps sleeping inv.tucked
              (is_on s.futex) e inv.live)
        | inr f ↦ rw f (
            Sleepers.self-Live kernel dozes n documented i h s.queue (leave i s.queue) ps again
              inv.tucked (is_on s.futex) refl refl)
      ]
      step_live held e = elim (Bool-cases (s.futex == 1)) [
        | inl f ↦ rw f (
            Sleepers.kept-Live kernel dozes n documented i h s.queue s.queue ps idle inv.tucked
              (is_on s.futex) (is_on (s.futex - 1)) refl (inl (not_two f)) refl
              (λ j l d a. stays_on (s.futex - 1) j (no_other_owner (rw e refl) j l d) a) inv.live)
        | inr f ↦ rw f (
            Sleepers.self-Live kernel dozes n documented i h s.queue s.queue ps releasing inv.tucked
              (is_on (s.futex - 1)) refl refl)
      ]
        where
          not_two : (s.futex == 1) ≡ true → is_on s.futex (ps i) ≡ false
          not_two f = rw e (ground arith)
      step_live releasing e =
          Sleepers.self-Live kernel dozes n documented i h s.queue s.queue ps waking inv.tucked
            (is_on 0) refl refl
      step_live waking e =
          Sleepers.rouses-Live kernel dozes n documented i h s.queue (wake 1 c s.queue) ps idle
            inv.tucked (is_on s.futex) 1 c (omega arith) refl (rw e refl) refl (λ p d. on_of p d)
        where
          on_of : (p : Local) → dozes p ≡ true → is_on s.futex p ≡ true
          on_of p d = ground arith

      pub keep : Inv (step kernel i c s (ps i)).0 (assign ps i (step kernel i c s (ps i)).1)
      keep = record {
        one = OneToken-step n (lock kernel) token i c s ps h inv.one;
        tucked =
            Sleepers.Tucked-step kernel dozes n documented i h s.queue
              (step kernel i c s (ps i)).0.queue ps (step kernel i c s (ps i)).1 inv.tucked
              (step-Stirs i c s (ps i));
        live = step_live (ps i) refl;
      }
