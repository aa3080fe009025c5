-- ===== src/Base/Queue.antt =====
-- Queues as lists over the native numbers: length, an entry by its position, and adding at the end.
use Prim.Native.Nat.{ℕ, zero, suc, ◌+◌, ◌<◌}
use mathlib.Core.Path.{◌≡◌, refl, ap}
use mathlib.Core.Logic.{◌⊎◌, inl, inr}
use mathlib.Core.List.{List, [], ◌∷◌, ◌++◌}
use mathlib.Core.Option.{Option, none, some}
use native.Mathlib.Omega.{arith}

module _ {ℓ} {A : Type ℓ} where
  abbrev pub length : List A → ℕ
  length [] = 0
  length (x ∷ xs) = suc (length xs)

  abbrev pub get_elem? : List A → ℕ → Option A
  get_elem? [] i = none
  get_elem? (x ∷ xs) zero = some x
  get_elem? (x ∷ xs) (suc i) = get_elem? xs i

  abbrev pub snoc : List A → A → List A
  snoc xs a = xs ++ a ∷ []

  pub length-snoc : (xs : List A) (a : A) → length (snoc xs a) ≡ length xs + 1
  length-snoc [] a = omega arith
  length-snoc (x ∷ xs) a = omega (arith, length-snoc xs a)

  pub get_elem?-lt : (xs : List A) (k : ℕ) (a : A) → get_elem? xs k ≡ some a → k < length xs
  get_elem?-lt [] k a h = absurd (cc h)
  get_elem?-lt (x ∷ xs) zero a h = omega arith
  get_elem?-lt (x ∷ xs) (suc k) a h = omega (arith, get_elem?-lt xs k a h)

  -- An entry of the longer queue is an old entry in its old place, or the new one at the end.
  pub get_elem?-snoc :
      (xs : List A) (a : A) (k : ℕ) (b : A)
      → get_elem? (snoc xs a) k ≡ some b
      → (get_elem? xs k ≡ some b) ⊎ ((k ≡ length xs) × (b ≡ a))
  get_elem?-snoc [] a zero b h = inr (refl, cc h)
  get_elem?-snoc [] a (suc k) b h = absurd (cc h)
  get_elem?-snoc (x ∷ xs) a zero b h = inl h
  get_elem?-snoc (x ∷ xs) a (suc k) b h = elim (get_elem?-snoc xs a k b h) [
    | inl e ↦ inl e
    | inr (e, f) ↦ inr (ap suc e, f)
  ]

  pub get_elem?-snoc_old :
      (xs : List A) (a : A) (k : ℕ) (b : A)
      → get_elem? xs k ≡ some b
      → get_elem? (snoc xs a) k ≡ some b
  get_elem?-snoc_old [] a k b h = absurd (cc h)
  get_elem?-snoc_old (x ∷ xs) a zero b h = h
  get_elem?-snoc_old (x ∷ xs) a (suc k) b h = get_elem?-snoc_old xs a k b h

  pub get_elem?-snoc_new : (xs : List A) (a : A) → get_elem? (snoc xs a) (length xs) ≡ some a
  get_elem?-snoc_new [] a = refl
  get_elem?-snoc_new (x ∷ xs) a = get_elem?-snoc_new xs a

  pub get_elem?-some : (xs : List A) (k : ℕ) → k < length xs → (a : A) × (get_elem? xs k ≡ some a)
  get_elem?-some [] k h = absurd (omega arith)
  get_elem?-some (x ∷ xs) zero h = (x, refl)
  get_elem?-some (x ∷ xs) (suc k) h = get_elem?-some xs k (omega arith)

  abbrev pub rest : List A → List A
  rest [] = []
  rest (x ∷ xs) = xs

  pub get_elem?-rest : (xs : List A) (k : ℕ) → get_elem? (rest xs) k ≡ get_elem? xs (suc k)
  get_elem?-rest [] k = refl
  get_elem?-rest (x ∷ xs) k = refl

  pub length-rest :
      (xs : List A) (a : A) → get_elem? xs 0 ≡ some a → length xs ≡ length (rest xs) + 1
  length-rest [] a h = absurd (cc h)
  length-rest (x ∷ xs) a h = omega arith
