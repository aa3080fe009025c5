-- ===== src/Stack/Invariant.antt =====
-- Which nodes are where: in one of the two lists, or with one thread.
use concurrencia.Base.{
  ℕ, suc, ◌+◌, ◌%◌, ◌^◌, ◌≤◌, ◌<◌, ◌≡◌, refl, ap, ◌≢◌, inl, inr, List, ◌∷◌, arith, assign,
  assign_self, assign_other, length, ◌==◌, if◌then◌else◌, total, total-assign, weight-le-total,
  weight-weight-le-total, eq-cases,
}
use concurrencia.Stack.Defs.{Which, stack, free, Head, Memory, Thread, put_at, after_push}
use concurrencia.Stack.Nodes.{Chain, Chain-assign, Chain-some, Chain-out, count, Lists}
use concurrencia.Stack.Steps.{Fits, owned, promised}
use concurrencia.Stack.Fitting.{Fits-swap, Fits-link}

abbrev pub owner : ℕ → Thread → ℕ
owner a w = owned a w.place

abbrev pub promise : Thread → ℕ
promise w = promised w.place

module _ (malloc : ℕ → ℕ) (n : ℕ) where
  -- How often a node is in a list or with a thread.
  abbrev pub places : ℕ → Lists → (ℕ → Thread) → ℕ
  places a ls ts = count a (ls stack) + count a (ls free) + total (owner a) n ts

  pub record Good (k : ℕ) (ls : Lists) (head : Which → Head) (next : ℕ → ℕ) (made : ℕ)
      (ts : ℕ → Thread) : Type 0 where
    pub chains : (w : Which) → Chain next (head w).node (ls w)
    pub once : (a : ℕ) → places a ls ts ≤ 1
    pub fresh : (j : ℕ) → made ≤ j → places (malloc j) ls ts ≡ 0
    pub young : (w : Which) → (head w).aba ≤ k
    pub kept : length (ls stack) ≡ total promise n ts
    pub fits : (i : ℕ) → i < n → Fits head next (ts i).place

  abbrev pub GoodAt : ℕ → Lists → Memory → (ℕ → Thread) → Type 0
  GoodAt k ls m ts = Good k ls m.head m.next m.made ts

  module _ (k : ℕ) (ls : Lists) (m : Memory) (ts : ℕ → Thread) (g : GoodAt k ls m ts) (i : ℕ)
      (h : i < n) (w' : Thread) where
    open g use {chains, once, fresh, young, kept, fits}

    new_owner :
        (a : ℕ)
        → total (owner a) n (assign ts i w') + owner a (ts i) ≡ total (owner a) n ts + owner a w'
    new_owner a = total-assign (owner a) n ts i w' h

    new_promise :
        total promise n (assign ts i w') + promise (ts i) ≡ total promise n ts + promise w'
    new_promise = total-assign promise n ts i w' h

    mine-le : (a : ℕ) → owner a (ts i) ≤ total (owner a) n ts
    mine-le a = weight-le-total (owner a) n ts i h

    pub filled : promised (ts i).place ≡ 1 → (m.head stack).node ≢ 0
    filled e =
        Chain-some m.next (m.head stack).node (ls stack)
          (omega (arith, e, kept, weight-le-total promise n ts i h)) (chains stack)

    all_fit :
        (head : Which → Head) (next : ℕ → ℕ)
        → Fits head next w'.place
        → ((j : ℕ) → j < n → i ≢ j → Fits head next (ts j).place)
        → (j : ℕ) → j < n
        → Fits head next (assign ts i w' j).place
    all_fit head next own others j l = elim (eq-cases i j) [
      | inl e ↦ rw (← e, assign_self ts i w') own
      | inr d ↦ rw (assign_other ts i j w' d) (others j l d)
    ]

    pub stay_Good :
        ((a : ℕ) → owned a w'.place ≡ owned a (ts i).place)
        → promised w'.place ≡ promised (ts i).place
        → Fits m.head m.next w'.place
        → Good (suc k) ls m.head m.next m.made (assign ts i w')
    stay_Good same prom own = record {
      chains = chains;
      once = λ a. omega (arith, once a, new_owner a, same a);
      fresh = λ j l. omega (arith, fresh j l, new_owner (malloc j), same (malloc j));
      young = λ w. omega (arith, young w);
      kept = omega (arith, kept, new_promise, prom);
      fits = all_fit m.head m.next own (λ j l d. fits j l);
    }

    abbrev bumped : Which → ℕ → Which → Head
    bumped w e = put_at w (record { node = e; aba = ((m.head w).aba + 1) % 2 ^ 64 }) m.head

    bumped-young : k + 1 < 2 ^ 64 → (w v : Which) (e : ℕ) → (bumped w e v).aba ≤ suc k
    bumped-young room w v e = ground (arith, young w, young v)

    higher : k + 1 < 2 ^ 64 → (w : Which) → (m.head w).aba < ((m.head w).aba + 1) % 2 ^ 64
    higher room w = omega (arith, young w)

    head_out : (w : Which) (e : ℕ) → e ≢ 0 → owned e (ts i).place ≡ 1 → (m.head w).node ≢ e
    head_out w e d own = Chain-out m.next (m.head w).node e (ls w) (out w) d (chains w)
      where
        out : (w : Which) → count e (ls w) ≡ 0
        out stack = omega (arith, once e, own, mine-le e)
        out free = omega (arith, once e, own, mine-le e)

    -- A node of this thread is not with another one.
    other_owns : (e j : ℕ) → j < n → i ≢ j → owned e (ts i).place ≡ 1 → owned e (ts j).place ≡ 0
    other_owns e j l d own =
        omega (arith, once e, own, weight-weight-le-total (owner e) n ts i j h l d)

    pub linked_Good :
        (e v : ℕ)
        → e ≢ 0
        → owned e (ts i).place ≡ 1
        → ((a : ℕ) → owned a w'.place ≡ owned a (ts i).place)
        → promised w'.place ≡ promised (ts i).place
        → Fits m.head (assign m.next e v) w'.place
        → Good (suc k) ls m.head (assign m.next e v) m.made (assign ts i w')
    linked_Good e v d own same prom fit = record {
      chains = λ w. Chain-assign m.next (m.head w).node e v (ls w) (out w) (chains w);
      once = λ a. omega (arith, once a, new_owner a, same a);
      fresh = λ j l. omega (arith, fresh j l, new_owner (malloc j), same (malloc j));
      young = λ w. omega (arith, young w);
      kept = omega (arith, kept, new_promise, prom);
      fits = all_fit m.head (assign m.next e v) fit (λ j l b.
          Fits-link m.head m.next e v (ts j).place (other_owns e j l b own) (head_out stack e d own)
            (head_out free e d own) (fits j l));
    }
      where
        out : (w : Which) → count e (ls w) ≡ 0
        out stack = omega (arith, once e, own, mine-le e)
        out free = omega (arith, once e, own, mine-le e)

    pub allocated_Good :
        ((j l : ℕ) → malloc j ≡ malloc l → j ≡ l)
        → ((a : ℕ) → owned a (ts i).place ≡ 0)
        → ((a : ℕ) → owned a w'.place ≡ (if malloc m.made == a then 1 else 0))
        → promised w'.place ≡ promised (ts i).place
        → Fits m.head m.next w'.place
        → Good (suc k) ls m.head m.next (suc m.made) (assign ts i w')
    allocated_Good distinct before after prom own = record {
      chains = chains;
      once = λ a. elim (eq-cases (malloc m.made) a) [
        | inl e ↦ ground (arith, fresh m.made le_self, new_owner a, before a, after a, e)
        | inr d ↦ ground (arith, once a, new_owner a, before a, after a)
      ];
      fresh = λ j l. elim (eq-cases (malloc m.made) (malloc j)) [
        | inl e ↦ absurd (omega (arith, l, distinct m.made j e))
        | inr d ↦
            ground (
              arith,
              fresh j (below j l),
              new_owner (malloc j),
              before (malloc j),
              after (malloc j),
            )
      ];
      young = λ w. omega (arith, young w);
      kept = omega (arith, kept, new_promise, prom);
      fits = all_fit m.head m.next own (λ j l d. fits j l);
    }
      where
        le_self : m.made ≤ m.made
        le_self = omega arith

        below : (j : ℕ) → suc m.made ≤ j → m.made ≤ j
        below j l = omega arith

    pub pushed_Good :
        (w : Which) (e : ℕ)
        → k + 1 < 2 ^ 64
        → m.next e ≡ (m.head w).node
        → e ≢ 0
        → ((a : ℕ) → owned a (ts i).place ≡ (if e == a then 1 else 0))
        → ((a : ℕ) → owned a w'.place ≡ 0)
        → promised (ts i).place ≡ 0
        → promised w'.place ≡ promised (after_push w)
        → Fits (bumped w e) m.next w'.place
        → Good (suc k) (put_at w (e ∷ ls w) ls) (bumped w e) m.next m.made (assign ts i w')
    pushed_Good w e room link d before after prom prom' own = record {
      chains = λ v. chained w v link;
      once = λ a. counted a (once a);
      fresh = λ j l. omega (arith, places_same (malloc j), fresh j l);
      young = λ v. bumped-young room w v e;
      kept = promises w prom';
      fits =
          all_fit (bumped w e) m.next own
            (λ j l b. Fits-swap m.head m.next w _ (ts j).place (higher room w) (fits j l));
    }
      where
        chained :
            (w v : Which)
            → m.next e ≡ (m.head w).node
            → Chain m.next (bumped w e v).node (put_at w (e ∷ ls w) ls v)
        chained stack stack l = (refl, (d, rw l (chains stack)))
        chained stack free l = chains free
        chained free stack l = chains stack
        chained free free l = (refl, (d, rw l (chains free)))

        places_same : (a : ℕ) → places a (put_at w (e ∷ ls w) ls) (assign ts i w') ≡ places a ls ts
        places_same a = ground (arith, new_owner a, before a, after a)

        counted :
            (a : ℕ) → places a ls ts ≤ 1 → places a (put_at w (e ∷ ls w) ls) (assign ts i w') ≤ 1
        counted a l = omega (arith, places_same a)

        promises :
            (w : Which)
            → promised w'.place ≡ promised (after_push w)
            → length (put_at w (e ∷ ls w) ls stack) ≡ total promise n (assign ts i w')
        promises stack q = omega (arith, kept, new_promise, prom, q)
        promises free q = omega (arith, kept, new_promise, prom, q)

    pub popped_Good :
        (w : Which) (e : ℕ) (ys : List ℕ)
        → k + 1 < 2 ^ 64
        → ls w ≡ e ∷ ys
        → Chain m.next (m.next e) ys
        → ((a : ℕ) → owned a (ts i).place ≡ 0)
        → ((a : ℕ) → owned a w'.place ≡ (if e == a then 1 else 0))
        → promised (ts i).place ≡ promised (after_push w)
        → promised w'.place ≡ 0
        → Fits (bumped w (m.next e)) m.next w'.place
        → Good (suc k) (put_at w ys ls) (bumped w (m.next e)) m.next m.made (assign ts i w')
    popped_Good w e ys room here behind before after prom prom' own = record {
      chains = chained w;
      once = λ a. counted a (once a);
      fresh = λ j l. omega (arith, places_same (malloc j), fresh j l);
      young = λ v. bumped-young room w v (m.next e);
      kept = promises w here prom;
      fits =
          all_fit (bumped w (m.next e)) m.next own
            (λ j l b. Fits-swap m.head m.next w _ (ts j).place (higher room w) (fits j l));
    }
      where
        chained : (w v : Which) → Chain m.next (bumped w (m.next e) v).node (put_at w ys ls v)
        chained stack stack = behind
        chained stack free = chains free
        chained free stack = chains stack
        chained free free = behind

        places_same : (a : ℕ) → places a (put_at w ys ls) (assign ts i w') ≡ places a ls ts
        places_same a = ground (arith, new_owner a, before a, after a, ap (count a) here)

        counted : (a : ℕ) → places a ls ts ≤ 1 → places a (put_at w ys ls) (assign ts i w') ≤ 1
        counted a l = omega (arith, places_same a)

        promises :
            (w : Which)
            → ls w ≡ e ∷ ys
            → promised (ts i).place ≡ promised (after_push w)
            → length (put_at w ys ls stack) ≡ total promise n (assign ts i w')
        promises stack l q = omega (arith, kept, new_promise, prom', q, ap length l)
        promises free l q = omega (arith, kept, new_promise, prom', q)
