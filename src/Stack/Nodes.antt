-- ===== src/Stack/Nodes.antt =====
-- Lists of nodes in memory, and the abstract lists that the operations act on.
use concurrencia.Base.{
  ℕ, ◌+◌, ◌<◌, ◌≡◌, refl, sym, ◌∙◌, ◌≢◌, Option, none, some, List, [], ◌∷◌, ◌++◌, arith, assign,
  length, ◌==◌, inl, inr, Option-cases, if◌then◌else◌,
}
use concurrencia.Stack.Defs.{Which, Event, pushed, popped, found_empty, put_at}

-- From address `a` the `next` fields lead through the nodes `xs` to NULL.
abbrev pub Chain : (ℕ → ℕ) → ℕ → List ℕ → Type 0
Chain next a [] = a ≡ 0
Chain next a (x ∷ xs) = (a ≡ x) × ((x ≢ 0) × Chain next (next x) xs)

abbrev pub count : ℕ → List ℕ → ℕ
count a [] = 0
count a (x ∷ xs) = (if x == a then 1 else 0) + count a xs

-- A store in a node that is not in the list leaves the list.
pub Chain-assign :
    (next : ℕ → ℕ) (a e v : ℕ) (xs : List ℕ)
    → count e xs ≡ 0
    → Chain next a xs
    → Chain (assign next e v) a xs
Chain-assign next a e v [] h ch = ch
Chain-assign next a e v (x ∷ xs) h ch =
    (ch.0, (ch.1.0, skip (Chain-assign next (next x) e v xs (ground arith) (ch.1.1))))
  where
    skip : Chain (assign next e v) (next x) xs → Chain (assign next e v) (assign next e v x) xs
    skip t = let same : assign next e v x ≡ next x = ground arith in rw same t

-- Abstract lists: what an event does to them, if it may happen.
abbrev pub Lists : Type 0
Lists = Which → List ℕ

abbrev pub pop_list : Which → ℕ → List ℕ → Lists → Option Lists
pop_list w e [] ls = none
pop_list w e (x ∷ xs) ls = if x == e then some (put_at w xs ls) else none

abbrev pub empty_list : List ℕ → Lists → Option Lists
empty_list [] ls = some ls
empty_list (x ∷ xs) ls = none

unfoldable pub perform : Event → Lists → Option Lists
perform (pushed w e) ls = some (put_at w (e ∷ ls w) ls)
perform (popped w e) ls = pop_list w e (ls w) ls
perform (found_empty w) ls = empty_list (ls w) ls

-- All events one after another.
unfoldable pub replay : List Event → Lists → Option Lists
replay [] ls = some ls
replay (e ∷ es) ls = elim (perform e ls) [ none ↦ none | some ls' ↦ replay es ls' ]

none-some : (ls : Lists) → none ≡ some ls → ⊥
none-some ls h = cc h

pub replay-append :
    (es fs : List Event) (ls ls' : Lists)
    → replay es ls ≡ some ls'
    → replay (es ++ fs) ls ≡ replay fs ls'
unfolding replay
replay-append [] fs ls ls' h = cc h
replay-append (e ∷ es) fs ls ls' h = elim (Option-cases (perform e ls)) [
  | inl q ↦ absurd (none-some ls' (rw (replay, q) at h))
  | inr (k, q) ↦ rw (replay, q) (replay-append es fs k ls' (rw (replay, q) at h))
]

pub replay_one :
    (e : Event) (ls ls' : Lists) → perform e ls ≡ some ls' → replay (e ∷ []) ls ≡ some ls'
unfolding replay
replay_one e ls ls' h = rw (h, replay) refl

pub replay_none : (ls : Lists) → replay [] ls ≡ some ls
unfolding replay
replay_none ls = refl

pub perform_empty : (w : Which) (ls : Lists) → ls w ≡ [] → perform (found_empty w) ls ≡ some ls
unfolding perform
perform_empty w ls h = rw h refl

pub perform_push :
    (w : Which) (e : ℕ) (ls : Lists) → perform (pushed w e) ls ≡ some (put_at w (e ∷ ls w) ls)
unfolding perform
perform_push w e ls = refl

pub perform_pop :
    (w : Which) (e : ℕ) (ys : List ℕ) (ls : Lists)
    → ls w ≡ e ∷ ys
    → perform (popped w e) ls ≡ some (put_at w ys ls)
unfolding perform
perform_pop w e ys ls h = rw h (ground arith)

pub Chain-some : (next : ℕ → ℕ) (a : ℕ) (xs : List ℕ) → 0 < length xs → Chain next a xs → a ≢ 0
Chain-some next a [] h ch = absurd (omega arith)
Chain-some next a (x ∷ xs) h ch = ground arith

pub Chain-out :
    (next : ℕ → ℕ) (a e : ℕ) (xs : List ℕ) → count e xs ≡ 0 → e ≢ 0 → Chain next a xs → a ≢ e
Chain-out next a e [] h d ch = ground arith
Chain-out next a e (x ∷ xs) h d ch = ground arith

-- The list that a node heads is not empty.
pub Chain-cons :
    (next : ℕ → ℕ) (a : ℕ) (xs : List ℕ)
    → a ≢ 0
    → Chain next a xs
    → (ys : List ℕ) × ((xs ≡ a ∷ ys) × Chain next (next a) ys)
Chain-cons next a [] d ch = absurd (d ch)
Chain-cons next a (x ∷ xs) d ch = rw (ch.0) (xs, (refl, ch.1.1))

pub Chain-nil : (next : ℕ → ℕ) (a : ℕ) (xs : List ℕ) → a ≡ 0 → Chain next a xs → xs ≡ []
Chain-nil next a [] e ch = refl
Chain-nil next a (x ∷ xs) e ch = absurd (ch.1.0 (sym (ch.0) ∙ e))
