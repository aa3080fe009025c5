-- ===== src/Lock/Line.antt =====
-- A queue as its links tell it, of nodes or of cells: the first thread follows `f`, each other one the
-- node of the one before it, and `tail` is the last node.
use concurrencia.Base.{
  ℕ, zero, suc, ◌<◌, ◌≡◌, refl, Bool, true, some, List, [], ◌∷◌, get_elem?, snoc,
}

-- `node q` is the node of thread `q`, `pred q` the node that it follows, and `on q` says that it is in
-- the queue.
module _ (n : ℕ) where
  abbrev pub Line : (node pred : ℕ → ℕ) (on : ℕ → Bool) (tail f : ℕ) → List ℕ → Type 0
  Line node pred on tail f [] = tail ≡ f
  Line node pred on tail f (q ∷ rest) =
      ((q < n) × (on q ≡ true) × (pred q ≡ f)) × Line node pred on tail (node q) rest

  module _ (node pred : ℕ → ℕ) (on : ℕ → Bool) (tail : ℕ) where
    pub member :
        (f : ℕ) (queue : List ℕ)
        → Line node pred on tail f queue
        → (k q : ℕ) → get_elem? queue k ≡ some q
        → (q < n) × (on q ≡ true)
    member f [] line k q e = absurd (cc e)
    member f (x ∷ rest) ((l, o, p), line) zero q e =
        let e' : x ≡ q = cc e in (rw (← e') l, rw (← e') o)
    member f (x ∷ rest) (at_x, line) (suc k) q e = member (node x) rest line k q e

    -- A thread that is not first follows the node of a thread of the queue.
    pub follower :
        (f : ℕ) (queue : List ℕ)
        → Line node pred on tail f queue
        → (k q : ℕ) → get_elem? queue (suc k) ≡ some q
        → (j : ℕ) × (j < n) × (on j ≡ true) × (pred q ≡ node j)
    follower f [] line k q e = absurd (cc e)
    follower f (x ∷ []) line k q e = absurd (cc e)
    follower f (x ∷ y ∷ rest) ((l, o, p), (m, line)) zero q e =
        let e' : y ≡ q = cc e in (x, l, o, rw (← e') (m.2))
    follower f (x ∷ y ∷ rest) (at_x, line) (suc k) q e = follower (node x) (y ∷ rest) line k q e

    -- The links of the queue's threads are all that counts.
    pub Line-alike :
        (node' pred' : ℕ → ℕ) (on' : ℕ → Bool) (f : ℕ) (queue : List ℕ)
        → ((k q : ℕ)
            → get_elem? queue k ≡ some q
            → (node' q ≡ node q) × (pred' q ≡ pred q) × (on' q ≡ on q))
        → Line node pred on tail f queue
        → Line node' pred' on' tail f queue
    Line-alike node' pred' on' f [] same line = line
    Line-alike node' pred' on' f (x ∷ rest) same ((l, o, p), line) =
        let (a, b, c) = same 0 x refl in
        (
          (l, cc (c, o), cc (b, p)),
          rw a (Line-alike node' pred' on' (node x) rest (λ k q e. same (suc k) q e) line),
        )

    pub Line-snoc :
        (f : ℕ) (queue : List ℕ) (i : ℕ)
        → i < n
        → on i ≡ true
        → pred i ≡ tail
        → Line node pred on tail f queue
        → Line node pred on (node i) f (snoc queue i)
    Line-snoc f [] i l o p line = ((l, o, cc (p, line)), refl)
    Line-snoc f (x ∷ rest) i l o p (at_x, line) = (at_x, Line-snoc (node x) rest i l o p line)
