-- ===== src/QueueLock/Clh/Steps.antt =====
-- A thread joins the queue by the exchange of `lock`, leaves it by the store of `unlock`, and so every
-- step keeps the queue.
use concurrencia.Base.{
  ℕ, zero, suc, ◌<◌, ◌≡◌, ◌≢◌, refl, inl, inr, true, some, List, [], ◌∷◌, arith, assign,
  assign_self, assign_other, eq-cases, get_elem?, everywhere, snoc, get_elem?-snoc_old,
  get_elem?-snoc_new, length, Bool-cases, ◌==◌, sym, ap, subst,
}
use concurrencia.Lock.Line.{member, follower, Line-alike, Line-snoc}
use concurrencia.QueueLock.Clh.Defs.{
  Memory, Local, idle, marked, linking, spinning, held, freeing, step, node, pred, is_on, is_first,
  is_shut, Tied,
}
use concurrencia.QueueLock.Clh.Invariant.{Inv, LineTo, LineOf, apart_kept, kept}

module _ (n i : ℕ) (l : i < n) (s : Memory) (ps : ℕ → Local) (inv : Inv n s ps) where
  open inv use {queue, spare, line, present, front, apart, spared, shut, opened, tied}

  on_queue : (k q : ℕ) → get_elem? queue k ≡ some q → (q < n) × (is_on (ps q) ≡ true)
  on_queue =
      member n (λ q. node (ps q)) (λ q. pred s.prev (ps q)) (λ q. is_on (ps q)) s.tail spare queue
        line

  joins : (x : ℕ) → ps i ≡ marked x → Inv n (record s { tail = x }) (assign ps i (linking x s.tail))
  joins x e = record {
    queue = snoc queue i;
    spare = spare;
    line =
        subst (λ t. LineTo n s.prev (assign ps i (linking x s.tail)) t spare (snoc queue i))
          (rw (assign_self ps i (linking x s.tail)) refl)
          (Line-snoc n (λ q. node (assign ps i (linking x s.tail) q))
            (λ q. pred s.prev (assign ps i (linking x s.tail) q))
            (λ q. is_on (assign ps i (linking x s.tail) q)) s.tail spare queue i l
            (rw (assign_self ps i (linking x s.tail)) refl)
            (rw (assign_self ps i (linking x s.tail)) refl)
            (Line-alike n (λ q. node (ps q)) (λ q. pred s.prev (ps q)) (λ q. is_on (ps q)) s.tail _
              _ _ spare queue alike line));
    present =
        everywhere (λ j p. is_on p ≡ true → (k : ℕ) × (get_elem? (snoc queue i) k ≡ some j)) n ps i
          _ (λ o. (length queue, get_elem?-snoc_new queue i))
          (λ j m d o. let (k, f) = present j m o in (k, get_elem?-snoc_old queue i k j f));
    front =
        everywhere (λ j p. is_first p ≡ true → get_elem? (snoc queue i) 0 ≡ some j) n ps i _
          (λ o. absurd (cc o)) (λ j m d o. get_elem?-snoc_old queue i 0 j (front j m o));
    apart = apart_kept n i l s ps inv (linking x s.tail) (rw e refl);
    spared =
        everywhere (λ j p. node p ≢ spare) n ps i _ (λ f. spared i l (rw e f))
          (λ j m d. spared j m);
    shut =
        everywhere (λ j p. is_shut p ≡ true → s.locked (node p) ≡ 1) n ps i _ (λ o. shut_here)
          (λ j m d o. shut j m o);
    opened = opened;
    tied = everywhere (λ j p. Tied s.prev p) n ps i _ tt (λ j m d. tied j m);
  }
    where
      shut_here : s.locked x ≡ 1
      shut_here = let locked = shut i l in (rw e at locked) refl

      alike :
          (k q : ℕ)
          → get_elem? queue k ≡ some q
          → (node (assign ps i (linking x s.tail) q) ≡ node (ps q))
            × (pred s.prev (assign ps i (linking x s.tail) q) ≡ pred s.prev (ps q))
            × (is_on (assign ps i (linking x s.tail) q) ≡ is_on (ps q))
      alike k q f = elim (eq-cases i q) [
        | inl g ↦ let on = (on_queue k q f).1 in absurd (cc (rw (← g, e) at on))
        | inr d ↦ rw (assign_other ps i q (linking x s.tail) d) (refl, refl, refl)
      ]

  first_of : (queue : List ℕ) → get_elem? queue 0 ≡ some i → (rest : List ℕ) × (queue ≡ i ∷ rest)
  first_of [] e = absurd (cc e)
  first_of (x ∷ rest) e = (rest, cc e)

  frees :
      (x p : ℕ)
      → ps i ≡ freeing x p
      → Inv n (record s { locked = assign s.locked x 0 }) (assign ps i (idle p))
  frees x p e =
      let (rest, q) = first_of queue (front i l (rw e refl)) in
      frees_front rest (subst (LineOf n s ps spare) q line) q
    where
      frees_front :
          (rest : List ℕ)
          → LineOf n s ps spare (i ∷ rest)
          → queue ≡ i ∷ rest
          → Inv n (record s { locked = assign s.locked x 0 }) (assign ps i (idle p))
      frees_front rest whole q = record {
        queue = rest;
        spare = x;
        line =
            Line-alike n (λ q. node (ps q)) (λ q. pred s.prev (ps q)) (λ q. is_on (ps q)) s.tail
              (λ q. node (assign ps i (idle p) q)) (λ q. pred s.prev (assign ps i (idle p) q))
              (λ q. is_on (assign ps i (idle p) q)) x rest alike (rw node_is at behind);
        present =
            everywhere (λ j p. is_on p ≡ true → (k : ℕ) × (get_elem? rest k ≡ some j)) n ps i _
              (λ o. absurd (cc o)) (λ j m d o. later j d (present j m o));
        front =
            everywhere (λ j p. is_first p ≡ true → get_elem? rest 0 ≡ some j) n ps i _
              (λ o. absurd (cc o)) (λ j m d o. absurd (d (same_first j (front j m o))));
        apart = apart';
        spared =
            everywhere (λ j p. node p ≢ x) n ps i _ (λ f. spared i l (cc (f, node_is, pred_is)))
              (λ j m d f. apart i j l m d (cc (f, node_is)));
        shut =
            everywhere (λ j p. is_shut p ≡ true → assign s.locked x 0 (node p) ≡ 1) n ps i _
              (λ o. absurd (cc o))
              (λ j m d o.
                rw
                  (assign_other s.locked x (node (ps j)) 0 (λ f. apart i j l m d (cc (f, node_is))))
                  (shut j m o));
        opened = assign_self s.locked x 0;
        tied = everywhere (λ j p. Tied s.prev p) n ps i _ tt (λ j m d. tied j m);
      }
        where
          node_is : node (ps i) ≡ x
          node_is = rw e refl

          pred_is : p ≡ spare
          pred_is = cc ((whole.0).2, ap (pred s.prev) e)

          behind : LineOf n s ps (node (ps i)) rest
          behind = whole.1

          -- Who stands behind thread `i` follows a thread's node, and thread `i` does not.
          not_again : (k q : ℕ) → get_elem? rest k ≡ some q → i ≢ q
          not_again k q f g =
              let (j, m, o, h) =
                follower n (λ q. node (ps q)) (λ q. pred s.prev (ps q)) (λ q. is_on (ps q)) s.tail
                  spare (i ∷ rest) whole k q f in
              spared j m (cc (h, ap (λ t. pred s.prev (ps t)) g, (whole.0).2))

          alike :
              (k q : ℕ)
              → get_elem? rest k ≡ some q
              → (node (assign ps i (idle p) q) ≡ node (ps q))
                × (pred s.prev (assign ps i (idle p) q) ≡ pred s.prev (ps q))
                × (is_on (assign ps i (idle p) q) ≡ is_on (ps q))
          alike k q f = rw (assign_other ps i q (idle p) (not_again k q f)) (refl, refl, refl)

          same_first : (j : ℕ) → get_elem? queue 0 ≡ some j → i ≡ j
          same_first j f = cc (rw q at f)

          later :
              (j : ℕ)
              → i ≢ j
              → (k : ℕ) × (get_elem? queue k ≡ some j)
              → (k : ℕ) × (get_elem? rest k ≡ some j)
          later j d (zero, f) = absurd (d (same_first j f))
          later j d (suc k, f) = (k, rw q at f)

          apart' :
              (j k : ℕ)
              → j < n
              → k < n
              → j ≢ k
              → node (assign ps i (idle p) j) ≢ node (assign ps i (idle p) k)
          apart' j k m o d = elim (eq-cases i j) [
            | inl f ↦
                let g : i ≢ k = λ h. d (cc (f, h)) in
                rw (← f, assign_self ps i (idle p), assign_other ps i k (idle p) g)
                  (λ h. spared k o (cc (h, pred_is)))
            | inr f ↦ elim (eq-cases i k) [
              | inl g ↦
                  rw (← g, assign_self ps i (idle p), assign_other ps i j (idle p) f)
                    (λ h. spared j m (cc (h, pred_is)))
              | inr g ↦
                  rw (assign_other ps i j (idle p) f, assign_other ps i k (idle p) g)
                    (apart j k m o d)
            ]
          ]

  -- A thread behind the first one follows a shut node.
  waits_shut : (x p : ℕ) → ps i ≡ spinning x p → s.locked p ≡ 0 → get_elem? queue 0 ≡ some i
  waits_shut x p e f = at_front (present i l (rw e refl))
    where
      at_front : (k : ℕ) × (get_elem? queue k ≡ some i) → get_elem? queue 0 ≡ some i
      at_front (zero, g) = g
      at_front (suc k, g) =
          let (j, m, o, h) =
            follower n (λ q. node (ps q)) (λ q. pred s.prev (ps q)) (λ q. is_on (ps q)) s.tail spare
              queue line k i g in
          let locked = shut j m (shut_of (ps j) o) in absurd (cc (locked, f, h, ap (pred s.prev) e))
        where
          shut_of : (p : Local) → is_on p ≡ true → is_shut p ≡ true
          shut_of p o = ground arith

  shut_at : is_shut (ps i) ≡ true → {x : ℕ} → node (ps i) ≡ x → s.locked x ≡ 1
  shut_at o f = rw (← f) (shut i l o)

  tied_at : {x p : ℕ} → ps i ≡ spinning x p → s.prev x ≡ p
  tied_at e = let t = tied i l in rw e at t

  pub keep : (c : ℕ) (p : Local) → ps i ≡ p → Inv n (step i c s p).0 (assign ps i (step i c s p).1)
  unfolding step
  keep c (idle x) e =
      kept n i l s ps inv (assign s.locked x 1) s.prev (marked x)
        (λ y d. (assign_other s.locked x y 1 (λ f. d (cc (f, ap node e))), refl)) (sym (ap node e))
        (rw e refl) (rw e refl) (λ o. assign_self s.locked x 1) tt (λ o. absurd (cc o))
  keep c (marked x) e = joins x e
  keep c (linking x p) e =
      kept n i l s ps inv s.locked (assign s.prev x p) (spinning x p)
        (λ y d. (refl, assign_other s.prev x y p (λ f. d (cc (f, ap node e))))) (sym (ap node e))
        (rw e refl) (rw e refl) (λ o. shut_at (rw e refl) (ap node e)) (assign_self s.prev x p)
        (λ o. absurd (cc o))
  keep c (spinning x p) e = elim (Bool-cases (s.locked p == 0)) [
    | inl f ↦ rw f (
        kept n i l s ps inv s.locked s.prev (held x) (λ y d. (refl, refl)) (sym (ap node e))
          (rw e refl) (rw e (tied_at e)) (λ o. shut_at (rw e refl) (ap node e)) tt
          (λ o. waits_shut x p e (ground (arith, f))))
    | inr f ↦ rw f (
        kept n i l s ps inv s.locked s.prev (spinning x p) (λ y d. (refl, refl)) (sym (ap node e))
          (rw e refl) (rw e refl) (λ o. shut_at (rw e refl) (ap node e)) (tied_at e)
          (λ o. absurd (cc o)))
  ]
  keep c (held x) e =
      kept n i l s ps inv s.locked s.prev (freeing x (s.prev x)) (λ y d. (refl, refl))
        (sym (ap node e)) (rw e refl) (rw e refl) (λ o. shut_at (rw e refl) (ap node e)) tt
        (λ o. front i l (rw e refl))
  keep c (freeing x p) e = frees x p e
