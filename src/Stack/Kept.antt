-- ===== src/Stack/Kept.antt =====
-- Every kind of step keeps the invariant.
use concurrencia.Base.{ℕ, suc, ◌+◌, ◌^◌, ◌<◌, ◌≡◌, ◌⊎◌, inl, inr, some, List, [], ◌∷◌, assign}
use concurrencia.Stack.Defs.{Which, Memory, Thread, Event, pushed, popped, found_empty, put_at}
use concurrencia.Stack.Nodes.{
  Lists, Chain-cons, Chain-nil, replay, replay_one, replay_none, perform_empty, perform_push,
  perform_pop,
}
use concurrencia.Stack.Steps.{Fits, Effect}
use concurrencia.Stack.Invariant.{
  GoodAt, stay_Good, allocated_Good, linked_Good, pushed_Good, popped_Good,
}

module _ (malloc : ℕ → ℕ) (n k : ℕ) (ls : Lists) (m : Memory) (ts : ℕ → Thread)
    (g : GoodAt malloc n k ls m ts) (i : ℕ) (h : i < n) (w' : Thread) where
  open g use {chains}

  -- Every kind of step keeps the invariant, and does to the lists what its events say.
  pub Effect-After :
      (m' : Memory) (es : List Event)
      → k + 1 < 2 ^ 64
      → ((j l : ℕ) → malloc j ≡ malloc l → j ≡ l)
      → Effect malloc m (ts i).place m' w'.place es
      → Fits m'.head m'.next w'.place
      → (ls' : Lists) × ((replay es ls ≡ some ls')
          × GoodAt malloc n (suc k) ls' m' (assign ts i w'))
  Effect-After m' es room distinct (Effect.quiet eh en em own prom events) fit = (
    ls,
    (
      quiet_replay events,
      rw (eh, en, em) (stay_Good malloc n k ls m ts g i h w' own prom (rw (eh, en) at fit)),
    ),
  )
    where
      quiet_replay :
          (es ≡ []) ⊎ ((w : Which) × ((m.head w).node ≡ 0) × (es ≡ found_empty w ∷ []))
          → replay es ls ≡ some ls
      quiet_replay (inl e) = rw e (replay_none ls)
      quiet_replay (inr (w, e, f)) = rw f (
          replay_one (found_empty w) ls ls
            (perform_empty w ls (Chain-nil m.next (m.head w).node (ls w) e (chains w))))
  Effect-After m' es room distinct (Effect.allocates eh en em before after prom events) fit = (
    ls,
    (
      rw events (replay_none ls),
      rw (eh, en, em)
          (allocated_Good malloc n k ls m ts g i h w' distinct before after prom
            (rw (eh, en) at fit)),
    ),
  )
  Effect-After m' es room distinct (Effect.links e v eh en em d own same prom events) fit = (
    ls,
    (
      rw events (replay_none ls),
      rw (eh, en, em)
          (linked_Good malloc n k ls m ts g i h w' e v d own same prom (rw (eh, en) at fit)),
    ),
  )
  Effect-After m' es room distinct
        (Effect.pushes w e eh en em link d before after prom prom' events) fit =
      (
        put_at w (e ∷ ls w) ls,
        (
          rw events (replay_one (pushed w e) ls _ (perform_push w e ls)),
          rw (eh, en, em)
              (pushed_Good malloc n k ls m ts g i h w' w e room link d before after prom prom'
                (rw (eh, en) at fit)),
        ),
      )
  Effect-After m' es room distinct (Effect.pops w e eh en em here d before after prom prom' events)
        fit =
      let (ys, (at_head, behind)) = Chain-cons m.next e (ls w) d (rw here at (chains w)) in
      (
        put_at w ys ls,
        (
          rw events (replay_one (popped w e) ls _ (perform_pop w e ys ls at_head)),
          rw (eh, en, em)
              (popped_Good malloc n k ls m ts g i h w' w e ys room at_head behind before after prom
                prom' (rw (eh, en) at fit)),
        ),
      )
