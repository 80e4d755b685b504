-- ===== src/Accounting/Ageing/Fifo.antt =====
-- Payments are applied to the oldest charges first.
use geeta_backend.Common.{ℕ, zero, suc, ◌+◌, ◌-◌, List, [], ◌∷◌, filter, ltb, ◌≡◌, refl, ◌∙◌, arith}
use geeta_backend.Accounting.Ageing.{
  Movement, Charge, charges, credit, min, settle, apply_payments_fifo,
}

-- What the oldest n charges come to.
abbrev pub oldest : ℕ → List Charge → ℕ
oldest zero _ = 0
oldest (suc n) [] = 0
oldest (suc n) (c ∷ cs) = c.amount + oldest n cs

abbrev pub total : List Charge → ℕ
total [] = 0
total (c ∷ cs) = c.amount + total cs

oldest-settle : (n left : ℕ) (cs : List Charge) → oldest n (settle left cs) ≡ oldest n cs - left
unfolding settle
oldest-settle zero left cs = omega arith
oldest-settle (suc n) left [] = omega arith
oldest-settle (suc n) left (c ∷ cs) = ground (arith, oldest-settle n (left - min left c.amount) cs)

total-settle : (left : ℕ) (cs : List Charge) → total (settle left cs) ≡ total cs - left
unfolding settle
total-settle left [] = omega arith
total-settle left (c ∷ cs) = ground (arith, total-settle (left - min left c.amount) cs)

-- The charges that are dropped are paid.
total-filter : (cs : List Charge) → total (filter (λ (c : Charge). ltb 0 c.amount) cs) ≡ total cs
total-filter [] = refl
total-filter (c ∷ cs) = ground (arith, total-filter cs)

-- For every n, what is left unpaid of the oldest n charges is what they exceed the money received
-- by, nothing if they do not; and all that is reported as outstanding is what all charges
-- exceed it by. So no later charge is paid while an older one is open.
pub apply_payments_fifo-oldest :
    (movements : List Movement) (n : ℕ)
    → (oldest n (settle (credit movements) (charges movements))
        ≡ oldest n (charges movements) - credit movements)
      × (total (apply_payments_fifo movements) ≡ total (charges movements) - credit movements)
unfolding apply_payments_fifo
apply_payments_fifo-oldest movements n = (
  oldest-settle n (credit movements) (charges movements),
  total-filter (settle (credit movements) (charges movements))
      ∙ total-settle (credit movements) (charges movements),
)
