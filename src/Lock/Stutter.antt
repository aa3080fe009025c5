-- ===== src/Lock/Stutter.antt =====
-- A lock that now and then does nothing where another one goes on: its laws follow from the other's.
use concurrencia.Base.{
  ℕ, ◌+◌, ◌*◌, ◌≤◌, ◌<◌, ◌≡◌, ◌⊎◌, inl, inr, refl, sym, ap, subst, true, false, arith, assign,
  assign_self, assign_other, eq-cases, total, total-assign, assign_unchanged, ◌∙◌,
}
use concurrencia.Lock.Defs.{Phase, is_busy, follows, Lock, Laws}

-- `view` tells where the thread would stand in the lock `l`; `pause` is 1 where its next step does
-- nothing.
pub record Stutter (l : Lock) : Type 1 where
  pub Local : Type 0
  pub local : ℕ → Local
  pub step : ℕ → ℕ → l.Shared → Local → l.Shared × Local
  pub view : Local → l.Local
  pub pause : Local → ℕ
  pub view_first : (i : ℕ) → view (local i) ≡ l.local i
  pub pause-le : (p : Local) → pause p ≤ 1
  -- A step does what `l` does, or ends a pause before `lock` returns or in `unlock`.
  pub goes :
      (i c : ℕ) (s : l.Shared) (p : Local)
      → ((pause p ≡ 0)
          × ((step i c s p).0 ≡ (l.step i c s (view p)).0)
          × (view (step i c s p).1 ≡ (l.step i c s (view p)).1))
        ⊎ ((pause p ≡ 1)
            × ((step i c s p).0 ≡ s)
            × (view (step i c s p).1 ≡ view p)
            × (pause (step i c s p).1 ≡ 0)
            × (is_busy (l.phase (view p)) ≡ true))

abbrev pub stuttered : (l : Lock) → Stutter l → Lock
stuttered l t = record {
  Shared = l.Shared;
  Local = t.Local;
  shared = l.shared;
  local = t.local;
  step = t.step;
  phase = λ p. l.phase (t.view p);
}

module _ (n : ℕ) (l : Lock) (t : Stutter l) (laws : Laws n l) where
  open l use {Shared, phase}
  open t use {Local, view, pause, step, goes, pause-le}
  open laws use {Inv, measure}

  pub views-assign :
      (ps : ℕ → Local) (i : ℕ) (p : Local)
      → (λ j. view (assign ps i p j)) ≡ assign (λ j. view (ps j)) i (view p)
  views-assign ps i p = λ k. λ j. at_one j k
    where
      at_one : (j : ℕ) → view (assign ps i p j) ≡ assign (λ j. view (ps j)) i (view p) j
      at_one j = elim (eq-cases i j) [
        | inl e ↦ rw (← e, assign_self ps i p, assign_self (λ j. view (ps j)) i (view p)) refl
        | inr d ↦ rw (assign_other ps i j p d, assign_other (λ j. view (ps j)) i j (view p) d) refl
      ]

  abbrev Views : (ℕ → Local) → ℕ → l.Local
  Views ps j = view (ps j)

  orderly :
      (i c : ℕ) (s : Shared) (p : Local)
      → follows (phase (view p)) (phase (view (step i c s p).1)) ≡ true
  orderly i c s p = elim (goes i c s p) [
    | inl (a, e, f) ↦ rw f (laws.orderly i c s (view p))
    | inr (a, e, f, b, busy) ↦ rw f (stays (phase (view p)) busy)
  ]
    where
      stays : (x : Phase) → is_busy x ≡ true → follows x x ≡ true
      stays x b = ground arith

  module _ (i c : ℕ) (s : Shared) (ps : ℕ → Local) (h : i < n) where
    -- What a step that is no pause, and one that is, does to the places in `l`.
    moved :
        view (step i c s (ps i)).1 ≡ (l.step i c s (view (ps i))).1
        → Views (assign ps i (step i c s (ps i)).1)
          ≡ assign (Views ps) i (l.step i c s (view (ps i))).1
    moved f = views-assign ps i (step i c s (ps i)).1 ∙ ap (assign (Views ps) i) f

    rested :
        view (step i c s (ps i)).1 ≡ view (ps i)
        → Views (assign ps i (step i c s (ps i)).1) ≡ Views ps
    rested f = views-assign ps i (step i c s (ps i)).1 ∙ assign_unchanged (Views ps) i _ (sym f)

    keep : Inv s (Views ps) → Inv (step i c s (ps i)).0 (Views (assign ps i (step i c s (ps i)).1))
    keep inv = elim (goes i c s (ps i)) [
      | inl (a, e, f) ↦ rw (e, moved f) (laws.keep i c s (Views ps) h inv)
      | inr (a, e, f, b, busy) ↦ rw (e, rested f) inv
    ]

    lower :
        (is_busy (phase (l.step i c s (view (ps i))).1) ≡ false)
          ⊎ (measure
                (l.step i c s (view (ps i))).0
                (assign (Views ps) i (l.step i c s (view (ps i))).1)
              < measure s (Views ps))
        → (is_busy (phase (view (step i c s (ps i)).1)) ≡ false)
          ⊎ (2 * measure (step i c s (ps i)).0 (Views (assign ps i (step i c s (ps i)).1))
                + total pause n (assign ps i (step i c s (ps i)).1)
              < 2 * measure s (Views ps) + total pause n ps)
    lower near = elim (goes i c s (ps i)) [
      | inr (a, e, f, b, busy) ↦ inr (
          rw (e, rested f) (omega (arith, a, b, total-assign pause n ps i (step i c s (ps i)).1 h)))
      | inl (a, e, f) ↦ elim near [
        | inl returns ↦ inl (rw f returns)
        | inr falls ↦ inr (
            rw (e, moved f)
              (omega (
                arith,
                a,
                falls,
                pause-le (step i c s (ps i)).1,
                total-assign pause n ps i (step i c s (ps i)).1 h,
              )))
      ]
    ]

  pub stutter_laws : Laws n (stuttered l t)
  stutter_laws = record {
    Inv = λ s ps. Inv s (Views ps);
    init = subst (Inv l.shared) (λ k. λ i. sym (t.view_first i) k) laws.init;
    begins = λ i. rw (t.view_first i) (laws.begins i);
    keep = λ i c s ps h inv. keep i c s ps h inv;
    exclusive = λ i j s ps h k inv. laws.exclusive i j s (Views ps) h k inv;
    orderly = orderly;
    measure = λ s ps. 2 * measure s (Views ps) + total pause n ps;
    advance = λ j s ps h inv nobody b.
        let (i, c, m, busy, near) = laws.advance j s (Views ps) h inv nobody b in
        (i, c, m, busy, lower i c s ps m near);
  }
