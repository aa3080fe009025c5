-- ===== src/ArrayLock/VariableSize/Cells.antt =====
-- The bytes of `flag` that the threads use: cell `y` of four stands at `y * padding`.
use concurrencia.Base.{ℕ, suc, ◌+◌, ◌*◌, ◌%◌, ◌^◌, ◌≤◌, ◌<◌, ◌≡◌, ◌⊎◌, inl, inr, arith, ap, ◌∙◌}
use native.Mathlib.Nat.{mod-eq_of_lt, mod_self}
use concurrencia.ArrayLock.VariableSize.Defs.{size, index, next, Fits}

below_four : (y : ℕ) → y < 4 → (y ≡ 0) ⊎ ((y ≡ 1) ⊎ ((y ≡ 2) ⊎ (y ≡ 3)))
below_four y h = ground arith

module _ (padding : ℕ) (fits : Fits padding) where
  open fits use {some_padding, small}

  pub cell-injective : (y z : ℕ) → y < 4 → z < 4 → y * padding ≡ z * padding → y ≡ z
  cell-injective y z h k e = ground (arith, below_four y h, below_four z k, some_padding)

  four_cells : (y : ℕ) → y < 4 → y * padding ≤ 3 * padding
  four_cells y h = elim (below_four y h) [
    | inl e ↦ rw e (omega arith)
    | inr (inl e) ↦ rw e (omega arith)
    | inr (inr (inl e)) ↦ rw e (omega arith)
    | inr (inr (inr e)) ↦ rw e (omega arith)
  ]

  index_of_cell : (y : ℕ) → y < 4 → y * padding % 2 ^ 32 % 2 ^ 16 ≡ y * padding
  index_of_cell y h =
      let b = four_cells y h in
      ap (λ x. x % 2 ^ 16) (mod-eq_of_lt (omega (arith, b, small)))
      ∙ mod-eq_of_lt (omega (arith, b, small))

  pub index-cell : (slot : ℕ) → index padding slot ≡ slot % 4 * padding
  index-cell slot = index_of_cell (slot % 4) (omega arith)

  size_is : size padding ≡ 4 * padding
  size_is = mod-eq_of_lt (omega (arith, small))

  next_sum : (y : ℕ) → y < 4 → next padding (y * padding) ≡ (y * padding + padding) % (4 * padding)
  next_sum y h =
      let b = four_cells y h in
      rw (size_is) (ap (λ x. x % (4 * padding)) (mod-eq_of_lt (omega (arith, b, small))))

  -- Before the last cell no multiple of the size is passed; after it the sum is the size.
  inner : (y : ℕ) → y < 3 → (y * padding + padding) % (4 * padding) ≡ suc y * padding
  inner y h = mod-eq_of_lt (below (below_four y (omega (arith, h)))) ∙ omega arith
    where
      below : (y ≡ 0) ⊎ ((y ≡ 1) ⊎ ((y ≡ 2) ⊎ (y ≡ 3))) → y * padding + padding < 4 * padding
      below (inl e) = rw e (omega (arith, some_padding))
      below (inr (inl e)) = rw e (omega (arith, some_padding))
      below (inr (inr (inl e))) = rw e (omega (arith, some_padding))
      below (inr (inr (inr e))) = absurd (omega (arith, e, h))

  pub next-cell : (y : ℕ) → y < 4 → next padding (y * padding) ≡ (suc y % 4) * padding
  next-cell y h = next_sum y h ∙ elim (below_four y h) [
    | inl e ↦ rw e (inner 0 (omega arith))
    | inr (inl e) ↦ rw e (inner 1 (omega arith))
    | inr (inr (inl e)) ↦ rw e (inner 2 (omega arith))
    | inr (inr (inr e)) ↦
        rw e (ap (λ x. x % (4 * padding)) (omega arith) ∙ mod_self (4 * padding) ∙ omega arith)
  ]
