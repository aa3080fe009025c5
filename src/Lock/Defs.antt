-- ===== src/Lock/Defs.antt =====
-- Locks as step functions, and the laws that a correct lock has.
use concurrencia.Base.{ℕ, ◌<◌, ◌≡◌, ◌⊎◌, Bool, true, false, assign}

-- Where a thread stands: outside, in a call of `lock`, between `lock` and `unlock`, or in a call
-- of `unlock`.
pub data Phase : Type 0 where
  outside entering inside leaving : Phase

abbrev pub is_inside : Phase → Bool
is_inside inside = true
is_inside _ = false

-- In a call of `lock` or of `unlock`.
abbrev pub is_busy : Phase → Bool
is_busy entering = true
is_busy leaving = true
is_busy _ = false

-- A step that starts a call, or goes on with one, keeps the order of the phases.
abbrev pub follows : Phase → Phase → Bool
follows outside entering = true
follows outside inside = true
follows entering entering = true
follows entering inside = true
follows inside leaving = true
follows inside outside = true
follows leaving leaving = true
follows leaving outside = true
follows _ _ = false

-- `step i c s p` is the next step of thread `i`, which stands at `p`, over the shared variables `s`.
-- From outside it begins `lock`, from inside it begins `unlock`. The number `c` is chosen by the
-- environment: whether a weak compare-exchange fails, what `rand` returns, when a wait ends.
pub record Lock : Type 1 where
  pub Shared : Type 0
  pub Local : Type 0
  pub shared : Shared
  pub local : ℕ → Local
  pub step : ℕ → ℕ → Shared → Local → Shared × Local
  pub phase : Local → Phase

-- What `n` threads rely on. `measure` bounds the steps until some call returns; `advance` says that
-- while nobody is inside and some call is running, some running call can return or lower it.
module _ (n : ℕ) (l : Lock) where
  open l use {Shared, Local, shared, local, step, phase}

  pub record Laws : Type 1 where
    pub Inv : Shared → (ℕ → Local) → Type 0
    pub init : Inv shared local
    pub begins : (i : ℕ) → phase (local i) ≡ outside
    pub keep :
        (i c : ℕ) (s : Shared) (ps : ℕ → Local)
        → i < n
        → Inv s ps
        → Inv (step i c s (ps i)).0 (assign ps i (step i c s (ps i)).1)
    pub exclusive :
        (i j : ℕ) (s : Shared) (ps : ℕ → Local)
        → i < n
        → j < n
        → Inv s ps
        → phase (ps i) ≡ inside
        → phase (ps j) ≡ inside
        → i ≡ j
    pub orderly :
        (i c : ℕ) (s : Shared) (p : Local) → follows (phase p) (phase (step i c s p).1) ≡ true
    pub measure : Shared → (ℕ → Local) → ℕ
    pub advance :
        (j : ℕ) (s : Shared) (ps : ℕ → Local)
        → j < n
        → Inv s ps
        → ((i : ℕ) → i < n → is_inside (phase (ps i)) ≡ false)
        → is_busy (phase (ps j)) ≡ true
        → (i c : ℕ) × (i < n)
          × (is_busy (phase (ps i)) ≡ true)
          × ((is_busy (phase (step i c s (ps i)).1) ≡ false)
              ⊎ (measure (step i c s (ps i)).0 (assign ps i (step i c s (ps i)).1) < measure s ps))
