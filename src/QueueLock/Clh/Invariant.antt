-- ===== src/QueueLock/Clh/Invariant.antt =====
-- The queue of threads behind the nodes, and that every step of a thread keeps it.
use concurrencia.Base.{
  ℕ, [], ◌∷◌, ◌⊎◌, ◌<◌, ◌≡◌, ◌≢◌, refl, inl, inr, true, some, List, assign, assign_self,
  assign_other, eq-cases, get_elem?, everywhere,
}
use concurrencia.Lock.Line.{Line, member, Line-alike}
use concurrencia.QueueLock.Clh.Defs.{
  Memory, Local, idle, marked, linking, spinning, held, freeing, node, variable, pred, is_on,
  is_first, is_shut, Tied,
}

abbrev pub LineTo : ℕ → (prev : ℕ → ℕ) → (ℕ → Local) → (tail : ℕ) → ℕ → List ℕ → Type 0
LineTo n prev ps = Line n (λ q. node (ps q)) (λ q. pred prev (ps q)) (λ q. is_on (ps q))

abbrev pub LineOf : ℕ → Memory → (ℕ → Local) → ℕ → List ℕ → Type 0
LineOf n s ps = LineTo n s.prev ps s.tail

-- The queue leads from the spare node to `tail`; the nodes of the threads and the spare one are
-- different, and the spare one alone is open to the queue.
pub record Inv (n : ℕ) (s : Memory) (ps : ℕ → Local) : Type 0 where
  pub queue : List ℕ
  pub spare : ℕ
  pub line : LineOf n s ps spare queue
  pub present : (i : ℕ) → i < n → is_on (ps i) ≡ true → (k : ℕ) × (get_elem? queue k ≡ some i)
  pub front : (i : ℕ) → i < n → is_first (ps i) ≡ true → get_elem? queue 0 ≡ some i
  pub apart : (i j : ℕ) → i < n → j < n → i ≢ j → node (ps i) ≢ node (ps j)
  pub spared : (i : ℕ) → i < n → node (ps i) ≢ spare
  pub shut : (i : ℕ) → i < n → is_shut (ps i) ≡ true → s.locked (node (ps i)) ≡ 1
  pub opened : s.locked spare ≡ 0
  pub tied : (i : ℕ) → i < n → Tied s.prev (ps i)

pred_same :
    (prev prev' : ℕ → ℕ) (p : Local) → prev' (node p) ≡ prev (node p) → pred prev' p ≡ pred prev p
pred_same prev prev' (idle x) e = refl
pred_same prev prev' (marked x) e = refl
pred_same prev prev' (linking x p) e = refl
pred_same prev prev' (spinning x p) e = refl
pred_same prev prev' (held x) e = e
pred_same prev prev' (freeing x p) e = refl

Tied-same :
    (prev prev' : ℕ → ℕ) (p : Local) → prev' (node p) ≡ prev (node p) → Tied prev p → Tied prev' p
Tied-same prev prev' (idle x) e t = tt
Tied-same prev prev' (marked x) e t = tt
Tied-same prev prev' (linking x p) e t = tt
Tied-same prev prev' (spinning x p) e t = cc (e, t)
Tied-same prev prev' (held x) e t = tt
Tied-same prev prev' (freeing x p) e t = tt

module _ (n i : ℕ) (l : i < n) (s : Memory) (ps : ℕ → Local) (inv : Inv n s ps) where
  open inv use {queue, spare, line, present, front, apart, spared, shut, opened, tied}

  -- `apart` and `spared` after thread `i` has moved and kept its node.
  pub apart_kept :
      (p' : Local)
      → node p' ≡ node (ps i)
      → (j k : ℕ) → j < n
      → k < n
      → j ≢ k
      → node (assign ps i p' j) ≢ node (assign ps i p' k)
  apart_kept p' same j k m o d = rw (node_kept j, node_kept k) (apart j k m o d)
    where
      node_kept : (j : ℕ) → node (assign ps i p' j) ≡ node (ps j)
      node_kept j = elim (eq-cases i j) [
        | inl e ↦ rw (← e, assign_self ps i p') same
        | inr d ↦ rw (assign_other ps i j p' d) refl
      ]

  -- A step that leaves thread `i` where it stands in the queue, or out of it, and writes no fields
  -- but its node's.
  pub kept :
      (locked' prev' : ℕ → ℕ) (p' : Local)
      → ((x : ℕ) → node (ps i) ≢ x → (locked' x ≡ s.locked x) × (prev' x ≡ s.prev x))
      → node p' ≡ node (ps i)
      → is_on p' ≡ is_on (ps i)
      → pred prev' p' ≡ pred s.prev (ps i)
      → (is_shut p' ≡ true → locked' (node p') ≡ 1)
      → Tied prev' p'
      → (is_first p' ≡ true → get_elem? queue 0 ≡ some i)
      → Inv n (record { locked = locked'; prev = prev'; tail = s.tail }) (assign ps i p')
  kept locked' prev' p' fields same_node same_on same_pred shut' tied' front' = record {
    queue = queue;
    spare = spare;
    line =
        Line-alike n (λ q. node (ps q)) (λ q. pred s.prev (ps q)) (λ q. is_on (ps q)) s.tail
          (λ q. node (assign ps i p' q)) (λ q. pred prev' (assign ps i p' q))
          (λ q. is_on (assign ps i p' q)) spare queue
          (λ k q e. alike q ((member n _ _ _ _ spare queue line k q e).0)) line;
    present =
        everywhere (λ j p. is_on p ≡ true → (k : ℕ) × (get_elem? queue k ≡ some j)) n ps i p'
          (λ o. present i l (cc (o, same_on))) (λ j m d o. present j m o);
    front =
        everywhere (λ j p. is_first p ≡ true → get_elem? queue 0 ≡ some j) n ps i p' front'
          (λ j m d o. front j m o);
    apart = apart_kept p' same_node;
    spared =
        everywhere (λ j p. node p ≢ spare) n ps i p' (rw same_node (spared i l))
          (λ j m d. spared j m);
    shut =
        everywhere (λ j p. is_shut p ≡ true → locked' (node p) ≡ 1) n ps i p' shut'
          (λ j m d o. rw ((fields (node (ps j)) (apart i j l m d)).0) (shut j m o));
    opened = rw ((fields spare (spared i l)).0) opened;
    tied =
        everywhere (λ j p. Tied prev' p) n ps i p' tied'
          (λ j m d.
            Tied-same s.prev prev' (ps j) ((fields (node (ps j)) (apart i j l m d)).1) (tied j m));
  }
    where
      alike :
          (q : ℕ)
          → q < n
          → (node (assign ps i p' q) ≡ node (ps q))
            × (pred prev' (assign ps i p' q) ≡ pred s.prev (ps q))
            × (is_on (assign ps i p' q) ≡ is_on (ps q))
      alike q m = elim (eq-cases i q) [
        | inl e ↦ rw (← e, assign_self ps i p') (same_node, same_pred, same_on)
        | inr d ↦
            rw (assign_other ps i q p' d) (
              refl,
              pred_same s.prev prev' (ps q) ((fields (node (ps q)) (apart i q l m d)).1),
              refl,
            )
      ]

  -- The variables `node` differ: one thread at most is in `unlock`, and it has the spare node.
  pub variables_apart : (j : ℕ) → j < n → i ≢ j → variable (ps i) ≢ variable (ps j)
  variables_apart j m d = elim (spare_or_own i l) [
    | inl (a, f) ↦ elim (spare_or_own j m) [
      | inl (b, g) ↦ λ e. d (cc (front i l f, front j m g))
      | inr b ↦ λ e. spared j m (cc (a, b, e))
    ]
    | inr a ↦ elim (spare_or_own j m) [
      | inl (b, g) ↦ λ e. spared i l (cc (a, b, e))
      | inr b ↦ λ e. apart i j l m d (cc (a, b, e))
    ]
  ]
    where
      spare_or_own :
          (i : ℕ)
          → i < n
          → ((variable (ps i) ≡ spare) × (is_first (ps i) ≡ true)) ⊎ (variable (ps i) ≡ node (ps i))
      spare_or_own i l = of_place (ps i) refl
        where
          of_place :
              (p : Local)
              → ps i ≡ p
              → ((variable p ≡ spare) × (is_first p ≡ true)) ⊎ (variable p ≡ node p)
          of_place (idle x) e = inr refl
          of_place (marked x) e = inr refl
          of_place (linking x p) e = inr refl
          of_place (spinning x p) e = inr refl
          of_place (held x) e = inr refl
          of_place (freeing x p) e = inl (followed queue line (front i l (rw e refl)), refl)
            where
              followed :
                  (queue : List ℕ)
                  → LineOf n s ps spare queue
                  → get_elem? queue 0 ≡ some i
                  → p ≡ spare
              followed [] line f = absurd (cc f)
              followed (q ∷ rest) ((m, o, g), line) f =
                  let same : q ≡ i = cc f in cc (rw (same, e) at g)
