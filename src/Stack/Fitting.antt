-- ===== src/Stack/Fitting.antt =====
-- What a step keeps of what the threads' places say.
use concurrencia.Base.{ℕ, ◌<◌, ◌≡◌, refl, ◌≢◌, inl, inr, arith, assign, Bool-cases, assign_self}
use concurrencia.Stack.Defs.{
  Which, stack, free, Head, Memory, PopPlace, pop_load, look, take, PushPlace, push_load, link,
  publish, Place, top, popping, allocate, set_tid, set_c, pushing, error, put_at, after_pop,
  after_push, same_head, swap_head, pop, push, turn,
}
use concurrencia.Stack.Steps.{Seen, Filled, PopFits, PushFits, Fits, owned, promised}

-- Another thread's place still fits when a head has changed, with its number raised.
pub Fits-swap :
    (head : Which → Head) (next : ℕ → ℕ) (w : Which) (k : Head) (p : Place)
    → (head w).aba < k.aba
    → Fits head next p
    → Fits (put_at w k head) next p
Fits-swap head next w k p h f = ground arith

-- Another thread's place still fits when a node has been linked that it does not have, and that is
-- first in no list.
pub Fits-link :
    (head : Which → Head) (next : ℕ → ℕ) (e v : ℕ) (p : Place)
    → owned e p ≡ 0
    → (head stack).node ≢ e
    → (head free).node ≢ e
    → Fits head next p
    → Fits head (assign next e v) p
Fits-link head next e v p none_owned out out' f = ground arith

after_pop-Fits :
    (head : Which → Head) (next : ℕ → ℕ) (w : Which) (e : ℕ)
    → e ≢ 0
    → Fits head next (after_pop w e)
after_pop-Fits head next w e h = ground arith

after_push-Fits : (head : Which → Head) (next : ℕ → ℕ) (w : Which) → Fits head next (after_push w)
after_push-Fits head next w = ground arith

Seen-now : (h : Head) → Seen h h
Seen-now h = (omega arith, λ e. refl)

-- The thread's own place fits after its step.
module _ (malloc : ℕ → ℕ) (nonnull : (k : ℕ) → malloc k ≢ 0) where
  Filled-now :
      (w : Which) (q : PopPlace) (m : Memory)
      → (promised (popping w q) ≡ 1 → (m.head stack).node ≢ 0)
      → Filled w (m.head w).node
  Filled-now stack q m h = h refl
  Filled-now free q m h = tt

  pop-Fits :
      (w : Which) (q : PopPlace) (m : Memory)
      → (promised (popping w q) ≡ 1 → (m.head stack).node ≢ 0)
      → PopFits m.next w (m.head w) q
      → Fits (pop w q m).memory.head (pop w q m).memory.next (pop w q m).place
  unfolding pop
  pop-Fits w pop_load m filled f = (Seen-now (m.head w), Filled-now w pop_load m filled)
  pop-Fits stack (look h) m filled f = ground arith
  pop-Fits free (look h) m filled f = ground arith
  pop-Fits w (take h x) m filled f = elim (Bool-cases (same_head (m.head w) h)) [
    | inl e ↦ rw e (after_pop-Fits (swap_head w h x m).head m.next w h.node (f.1.0))
    | inr e ↦ rw e (Seen-now (m.head w), Filled-now w (take h x) m filled)
  ]

  push-Fits :
      (w : Which) (e : ℕ) (q : PushPlace) (m : Memory)
      → e ≢ 0
      → PushFits m.next e (m.head w) q
      → Fits (push w e q m).memory.head (push w e q m).memory.next (push w e q m).place
  unfolding push
  push-Fits w e push_load m d f = (d, Seen-now (m.head w))
  push-Fits w e (link h) m d f = (d, (f, assign_self m.next e h.node))
  push-Fits w e (publish h) m d f = elim (Bool-cases (same_head (m.head w) h)) [
    | inl eq ↦ rw eq (after_push-Fits (swap_head w h e m).head m.next w)
    | inr eq ↦ rw eq (d, Seen-now (m.head w))
  ]

  pub turn-Fits :
      (n elems i r : ℕ) (p : Place) (m : Memory)
      → (promised p ≡ 1 → (m.head stack).node ≢ 0)
      → Fits m.head m.next p
      → Fits
          (turn malloc n elems p i r m).memory.head
          (turn malloc n elems p i r m).memory.next
          (turn malloc n elems p i r m).place
  unfolding turn
  turn-Fits n elems i r top m filled f = ground arith
  turn-Fits n elems i r (popping w q) m filled f = pop-Fits w q m filled f
  turn-Fits n elems i r allocate m filled f = nonnull m.made
  turn-Fits n elems i r (set_tid e) m filled f = f
  turn-Fits n elems i r (set_c e) m filled f = (f, tt)
  turn-Fits n elems i r (pushing w e q) m filled f = push-Fits w e q m (f.0) (f.1)
  turn-Fits n elems i r error m filled f = tt
