-- ===== src/Stack/Steps.antt =====
-- What a thread's place says, and what one step of it does.
use concurrencia.Base.{
  ℕ, suc, ◌+◌, ◌%◌, ◌^◌, ◌≤◌, ◌≡◌, refl, sym, ap, ◌∙◌, ◌≢◌, ◌⊎◌, inl, inr, true, false, List, [],
  ◌∷◌, arith, assign, ltb, ◌==◌, if◌then◌else◌, Bool-cases, eq-cases,
}
use concurrencia.Stack.Defs.{
  Which, stack, free, Head, Memory, PopPlace, pop_load, look, take, PushPlace, push_load, link,
  publish, Place, top, popping, allocate, set_tid, set_c, pushing, error, Event, pushed, popped,
  found_empty, put_at, after_pop, after_push, same_head, loaded, pop, push, turn,
}

-- What a thread has read of a head is old, or is still so.
abbrev pub Seen : Head → Head → Type 0
Seen now h = (h.aba ≤ now.aba) × (h.aba ≡ now.aba → h.node ≡ now.node)

-- A thread that pops from the stack has pushed before and does not find it empty.
abbrev pub Filled : Which → ℕ → Type 0
Filled stack a = a ≢ 0
Filled free a = Unit

abbrev pub PopFits : (ℕ → ℕ) → Which → Head → PopPlace → Type 0
PopFits next w now pop_load = Unit
PopFits next w now (look h) = Seen now h × Filled w h.node
PopFits next w now (take h x) = Seen now h × ((h.node ≢ 0) × (h.aba ≡ now.aba → x ≡ next h.node))

abbrev pub PushFits : (ℕ → ℕ) → ℕ → Head → PushPlace → Type 0
PushFits next e now push_load = Unit
PushFits next e now (link h) = Seen now h
PushFits next e now (publish h) = Seen now h × (next e ≡ h.node)

abbrev pub Fits : (Which → Head) → (ℕ → ℕ) → Place → Type 0
Fits head next top = Unit
Fits head next (popping w p) = PopFits next w (head w) p
Fits head next allocate = Unit
Fits head next (set_tid e) = e ≢ 0
Fits head next (set_c e) = e ≢ 0
Fits head next (pushing w e p) = (e ≢ 0) × PushFits next e (head w) p
Fits head next error = ⊥

-- 1 for a thread that has the node for itself.
abbrev pub owned : ℕ → Place → ℕ
owned a (set_tid e) = if e == a then 1 else 0
owned a (set_c e) = if e == a then 1 else 0
owned a (pushing w e p) = if e == a then 1 else 0
owned a _ = 0

-- 1 for a thread that has pushed a node on the stack and has popped none since.
abbrev pub promised : Place → ℕ
promised (popping stack p) = 1
promised _ = 0

-- The kinds of steps, by what they do to the memory, the thread's nodes and the lists.
pub data Effect (malloc : ℕ → ℕ) (m : Memory) (p : Place) (m' : Memory) (p' : Place)
    (es : List Event) : Type 0 where
  quiet :
      m'.head ≡ m.head
      → m'.next ≡ m.next
      → m'.made ≡ m.made
      → ((a : ℕ) → owned a p' ≡ owned a p)
      → promised p' ≡ promised p
      → (es ≡ []) ⊎ ((w : Which) × ((m.head w).node ≡ 0) × (es ≡ found_empty w ∷ []))
      → Effect malloc m p m' p' es
  allocates :
      m'.head ≡ m.head
      → m'.next ≡ m.next
      → m'.made ≡ suc m.made
      → ((a : ℕ) → owned a p ≡ 0)
      → ((a : ℕ) → owned a p' ≡ (if malloc m.made == a then 1 else 0))
      → promised p' ≡ promised p
      → es ≡ []
      → Effect malloc m p m' p' es
  links :
      (e v : ℕ)
      → m'.head ≡ m.head
      → m'.next ≡ assign m.next e v
      → m'.made ≡ m.made
      → e ≢ 0
      → owned e p ≡ 1
      → ((a : ℕ) → owned a p' ≡ owned a p)
      → promised p' ≡ promised p
      → es ≡ []
      → Effect malloc m p m' p' es
  pushes :
      (w : Which) (e : ℕ)
      → m'.head ≡ put_at w (record { node = e; aba = ((m.head w).aba + 1) % 2 ^ 64 }) m.head
      → m'.next ≡ m.next
      → m'.made ≡ m.made
      → m.next e ≡ (m.head w).node
      → e ≢ 0
      → ((a : ℕ) → owned a p ≡ (if e == a then 1 else 0))
      → ((a : ℕ) → owned a p' ≡ 0)
      → promised p ≡ 0
      → promised p' ≡ promised (after_push w)
      → es ≡ pushed w e ∷ []
      → Effect malloc m p m' p' es
  pops :
      (w : Which) (e : ℕ)
      → m'.head ≡ put_at w (record { node = m.next e; aba = ((m.head w).aba + 1) % 2 ^ 64 }) m.head
      → m'.next ≡ m.next
      → m'.made ≡ m.made
      → (m.head w).node ≡ e
      → e ≢ 0
      → ((a : ℕ) → owned a p ≡ 0)
      → ((a : ℕ) → owned a p' ≡ (if e == a then 1 else 0))
      → promised p ≡ promised (after_push w)
      → promised p' ≡ 0
      → es ≡ popped w e ∷ []
      → Effect malloc m p m' p' es

-- The place after `pop` has returned a node.
after_pop-owned :
    (w : Which) (e a : ℕ) → e ≢ 0 → owned a (after_pop w e) ≡ (if e == a then 1 else 0)
after_pop-owned w e a h = ground arith

after_pop-promised : (w : Which) (e : ℕ) → promised (after_pop w e) ≡ 0
after_pop-promised w e = ground arith

ne-eqb : (a b : ℕ) → a ≢ b → (a == b) ≡ false
ne-eqb a b h = ground arith

new_head :
    (h k : Head) (x y : ℕ)
    → x ≡ y
    → k.aba ≡ h.aba
    → ◌≡◌ {A = Head}
        (record { node = x; aba = (h.aba + 1) % 2 ^ 64 })
        (record { node = y; aba = (k.aba + 1) % 2 ^ 64 })
new_head h k x y e f = rw (e, f) refl

after_push-owned : (w : Which) (a : ℕ) → owned a (after_push w) ≡ 0
after_push-owned stack a = refl
after_push-owned free a = refl

same_head-elim : (h k : Head) → same_head h k ≡ true → (h.node ≡ k.node) × (h.aba ≡ k.aba)
same_head-elim h k e = ground arith

push-promised : (w : Which) (p : PopPlace) → promised (popping w p) ≡ promised (after_push w)
push-promised stack p = refl
push-promised free p = refl

module _ (malloc : ℕ → ℕ) where
  loaded-Effect :
      (w : Which) (q : PopPlace) (m : Memory)
      → Effect malloc m
          (popping w q)
          (loaded w (m.head w) m).memory
          (loaded w (m.head w) m).place
          (loaded w (m.head w) m).events
  loaded-Effect w q m = elim (eq-cases (m.head w).node 0) [
    | inl e ↦
        Effect.quiet refl refl refl (λ a. refl)
          (push-promised w (look (m.head w)) ∙ sym (push-promised w q)) (inr (w, e, ground arith))
    | inr d ↦
        Effect.quiet refl refl refl (λ a. refl)
          (push-promised w (look (m.head w)) ∙ sym (push-promised w q)) (inl (ground arith))
  ]

  pop-Effect :
      (w : Which) (q : PopPlace) (m : Memory)
      → PopFits m.next w (m.head w) q
      → Effect malloc m (popping w q) (pop w q m).memory (pop w q m).place (pop w q m).events
  unfolding pop
  pop-Effect w pop_load m f = loaded-Effect w pop_load m
  pop-Effect stack (look h) m f =
      rw (ne-eqb h.node 0 (f.1)) (Effect.quiet refl refl refl (λ a. refl) refl (inl refl))
  pop-Effect free (look h) m f = elim (Bool-cases (h.node == 0)) [
    | inl e ↦ rw e (Effect.quiet refl refl refl (λ a. refl) refl (inl refl))
    | inr e ↦ rw e (Effect.quiet refl refl refl (λ a. refl) refl (inl refl))
  ]
  pop-Effect w (take h x) m f = elim (Bool-cases (same_head (m.head w) h)) [
    | inl e ↦
        let (same, number) = same_head-elim (m.head w) h e in
        rw e (
          Effect.pops w h.node
            (ap (λ k. put_at w k m.head)
              (new_head h (m.head w) x (m.next h.node) (f.1.1 (sym number)) number))
            refl refl same (f.1.0) (λ a. refl) (λ a. after_pop-owned w h.node a (f.1.0))
            (push-promised w (take h x)) (after_pop-promised w h.node) refl)
    | inr e ↦ rw e (loaded-Effect w (take h x) m)
  ]

  push-Effect :
      (w : Which) (e : ℕ) (q : PushPlace) (m : Memory)
      → e ≢ 0
      → PushFits m.next e (m.head w) q
      → Effect malloc m
          (pushing w e q)
          (push w e q m).memory
          (push w e q m).place
          (push w e q m).events
  unfolding push
  push-Effect w e push_load m d f = Effect.quiet refl refl refl (λ a. refl) refl (inl refl)
  push-Effect w e (link h) m d f =
      Effect.links e h.node refl refl refl d (ground arith) (λ a. refl) refl refl
  push-Effect w e (publish h) m d f = elim (Bool-cases (same_head (m.head w) h)) [
    | inl eq ↦
        let (same, number) = same_head-elim (m.head w) h eq in
        rw eq (
          Effect.pushes w e (ap (λ k. put_at w k m.head) (new_head h (m.head w) e e refl number))
            refl refl (f.1 ∙ sym same) d (λ a. refl) (λ a. after_push-owned w a) refl refl refl)
    | inr eq ↦ rw eq (Effect.quiet refl refl refl (λ a. refl) refl (inl refl))
  ]

  pub turn-Effect :
      (n elems i r : ℕ) (p : Place) (m : Memory)
      → Fits m.head m.next p
      → Effect malloc m p
          (turn malloc n elems p i r m).memory
          (turn malloc n elems p i r m).place
          (turn malloc n elems p i r m).events
  unfolding turn
  turn-Effect n elems i r top m f = elim (Bool-cases (ltb r elems)) [
    | inl e ↦ rw e (Effect.quiet refl refl refl (λ a. refl) refl (inl refl))
    | inr e ↦ rw e (Effect.quiet refl refl refl (λ a. refl) refl (inl refl))
  ]
  turn-Effect n elems i r (popping w q) m f = pop-Effect w q m f
  turn-Effect n elems i r allocate m f =
      Effect.allocates refl refl refl (λ a. refl) (λ a. refl) refl refl
  turn-Effect n elems i r (set_tid e) m f = Effect.quiet refl refl refl (λ a. refl) refl (inl refl)
  turn-Effect n elems i r (set_c e) m f = Effect.quiet refl refl refl (λ a. refl) refl (inl refl)
  turn-Effect n elems i r (pushing w e q) m f = push-Effect w e q m (f.0) (f.1)
  turn-Effect n elems i r error m f = absurd f
