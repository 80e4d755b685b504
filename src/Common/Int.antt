-- ===== src/Common/Int.antt =====
-- Integers over the native numbers, for amounts in paise: a `Prisma.Decimal` of two decimals.
use geeta_backend.Common.{
  ℕ, suc, ◌+◌, ◌-◌, ◌*◌, ◌/◌, ◌%◌, ne_of_==, ◌≤◌, ◌<◌, ◌≡◌, refl, ap, sym, ◌∙◌, ◌⊎◌, inl, inr, Bool,
  true, false, arith, ltb, leb, ◌==◌, if◌then◌else◌,
}

-- `negsuc n` is -(n + 1).
pub data ℤ : Type 0 where
  pos : ℕ → ℤ
  negsuc : ℕ → ℤ

abbrev pub pos_part : ℤ → ℕ
pos_part (pos n) = n
pos_part (negsuc _) = 0

abbrev pub neg_part : ℤ → ℕ
neg_part (pos _) = 0
neg_part (negsuc n) = suc n

-- a - b, as an integer.
abbrev pub sub_ℕ : ℕ → ℕ → ℤ
sub_ℕ a b = if leb b a then pos (a - b) else negsuc (b - a - 1)

infixl 65 ◌+ℤ◌ ◌-ℤ◌
infix 50 ◌≤ℤ◌ ◌<ℤ◌
unfoldable pub ◌+ℤ◌ : ℤ → ℤ → ℤ
a +ℤ b = sub_ℕ (pos_part a + pos_part b) (neg_part a + neg_part b)

unfoldable pub ◌-ℤ◌ : ℤ → ℤ → ℤ
a -ℤ b = sub_ℕ (pos_part a + neg_part b) (neg_part a + pos_part b)

abbrev pub ◌≤ℤ◌ : ℤ → ℤ → Type 0
a ≤ℤ b = pos_part a + neg_part b ≤ pos_part b + neg_part a

abbrev pub ◌<ℤ◌ : ℤ → ℤ → Type 0
a <ℤ b = pos_part a + neg_part b < pos_part b + neg_part a

abbrev pub ltb_ℤ : ℤ → ℤ → Bool
ltb_ℤ a b = ltb (pos_part a + neg_part b) (pos_part b + neg_part a)

abbrev pub leb_ℤ : ℤ → ℤ → Bool
leb_ℤ a b = leb (pos_part a + neg_part b) (pos_part b + neg_part a)

abbrev pub eqb_ℤ : ℤ → ℤ → Bool
eqb_ℤ a b = (pos_part a + neg_part b) == (pos_part b + neg_part a)

-- With these `omega` works with the operations shut.
pub +ℤ_parts :
    (a b : ℤ)
    → pos_part (a +ℤ b) + neg_part a + neg_part b ≡ neg_part (a +ℤ b) + pos_part a + pos_part b
unfolding ◌+ℤ◌
+ℤ_parts a b = ground arith

pub -ℤ_parts :
    (a b : ℤ)
    → pos_part (a -ℤ b) + neg_part a + pos_part b ≡ neg_part (a -ℤ b) + pos_part a + neg_part b
unfolding ◌-ℤ◌
-ℤ_parts a b = ground arith

pub eq_of_parts : (a b : ℤ) → pos_part a + neg_part b ≡ pos_part b + neg_part a → a ≡ b
eq_of_parts a b h = ground arith

pub ruleset int_laws = (arith, +ℤ_parts, -ℤ_parts, eq_of_parts)

pub ltb_ℤ→lt : (a b : ℤ) → ltb_ℤ a b ≡ true → a <ℤ b
ltb_ℤ→lt a b h = ground arith

pub ltb_ℤ→le : (a b : ℤ) → ltb_ℤ a b ≡ false → b ≤ℤ a
ltb_ℤ→le a b h = ground arith

pub leb_ℤ→lt : (a b : ℤ) → leb_ℤ a b ≡ false → b <ℤ a
leb_ℤ→lt a b h = ground arith

pub lt→leb_ℤ : (a b : ℤ) → b <ℤ a → leb_ℤ a b ≡ false
lt→leb_ℤ a b h = ground arith

pub le→ltb_ℤ : (a b : ℤ) → b ≤ℤ a → ltb_ℤ a b ≡ false
le→ltb_ℤ a b h = ground arith

-- One part of an integer is 0.
pub parts_disjoint : (a : ℤ) → (pos_part a ≡ 0) ⊎ (neg_part a ≡ 0)
parts_disjoint (pos n) = inr refl
parts_disjoint (negsuc n) = inl refl

-- The parts of a paisa that an amount before storage is counted in: six decimals of a rupee.
abbrev pub fractions : ℕ
fractions = 10000

-- A `Decimal` as it is read from a column of two decimals, in fractions of a paisa.
unfoldable pub exact : ℤ → ℤ
exact (pos n) = pos (n * fractions)
exact (negsuc n) = negsuc (suc n * fractions - 1)

-- What a column of two decimals keeps of a `Decimal`, in paise: half a paisa is rounded away from 0.
unfoldable pub column : ℤ → ℤ
column (pos n) = pos ((n + 5000) / fractions)
column (negsuc n) = sub_ℕ 0 ((suc n + 5000) / fractions)

pos_plus : (x y : ℕ) → pos x +ℤ pos y ≡ pos (x + y)
pos_plus x y = omega int_laws

pos_minus : (x y : ℕ) → y ≤ x → pos x -ℤ pos y ≡ pos (x - y)
pos_minus x y h = omega (int_laws, h)

plus_column : (b n : ℕ) → (b * 10000 + n + 5000) / 10000 ≡ b + (n + 5000) / 10000
plus_column b n = omega arith

minus_column :
    (b n : ℕ)
    → n ≤ b * 10000
    → (n % 10000 == 5000) ≡ false
    → (b * 10000 - n + 5000) / 10000 + (n + 5000) / 10000 ≡ b
minus_column b n h k = omega (arith, h, ne_of_== _ _ k)

-- An amount added to what a column holds is kept as the column keeps the amount.
pub column-exact-plus : (b a : ℤ) → pos 0 ≤ℤ b → pos 0 <ℤ a → column (exact b +ℤ a) ≡ b +ℤ column a
unfolding column exact
column-exact-plus (pos m) (pos n) h k =
    ap column (pos_plus (m * fractions) n)
    ∙ ap pos (plus_column m n)
    ∙ sym (pos_plus m ((n + 5000) / fractions))
column-exact-plus (negsuc m) a h k = absurd (omega (arith, h))
column-exact-plus b (negsuc n) h k = absurd (omega (arith, k))

-- Half a paisa, and any number of paise.
abbrev pub is_half : ℤ → Bool
is_half a = pos_part a % fractions == 5000

-- An amount that is taken from it likewise, unless it ends in half a paisa.
pub column-exact-minus :
    (b a : ℤ)
    → pos 0 <ℤ a
    → a ≤ℤ exact b
    → is_half a ≡ false
    → column (exact b -ℤ a) ≡ b -ℤ column a
unfolding column exact
column-exact-minus b (negsuc n) k h e = absurd (omega (arith, k))
column-exact-minus (negsuc m) (pos n) k h e = absurd (omega (arith, h, k))
column-exact-minus (pos m) (pos n) k h e =
    let least : n ≤ m * fractions = omega (arith, h) in
    let parts = minus_column m n least e in
    ap column (pos_minus (m * fractions) n least)
    ∙ ap pos (omega (arith, parts))
    ∙ sym (pos_minus m ((n + 5000) / fractions) (omega (arith, parts)))

pub column-least : (a b : ℤ) → pos 0 ≤ℤ b → a ≤ℤ exact b → column a ≤ℤ b
unfolding column exact
column-least (pos n) (pos m) h k = omega (arith, k)
column-least (negsuc n) (pos m) h k = ground arith
column-least a (negsuc m) h k = absurd (omega (arith, h))

pub column-NonNegative : (a : ℤ) → pos 0 ≤ℤ a → pos 0 ≤ℤ column a
unfolding column
column-NonNegative (pos n) h = omega arith
column-NonNegative (negsuc n) h = absurd (omega (arith, h))

-- What is read back from a column of two decimals, in fractions of a paisa again.
unfoldable pub rounded : ℤ → ℤ
rounded a = exact (column a)

-- A number of paise, in fractions of one.
abbrev pub IsWhole : ℤ → Type 0
IsWhole a = (pos_part a % 10000 ≡ 0) × (neg_part a % 10000 ≡ 0)

whole_column : (n : ℕ) → n % 10000 ≡ 0 → (n + 5000) / 10000 * 10000 ≡ n
whole_column n h = omega (arith, h)

-- A whole amount is stored as it is.
pub rounded-IsWhole : (a : ℤ) → IsWhole a → rounded a ≡ a
unfolding rounded exact column
rounded-IsWhole (pos n) (h, _) = ap pos (whole_column n h)
rounded-IsWhole (negsuc n) (_, h) = ground (arith, whole_column (suc n) h)

pub IsWhole-plus : (a b : ℤ) → IsWhole a → IsWhole b → IsWhole (a +ℤ b)
IsWhole-plus a b (p, q) (r, t) = elim (parts_disjoint (a +ℤ b)) [
  | inl e ↦ omega (int_laws, +ℤ_parts a b, e, p, q, r, t)
  | inr e ↦ omega (int_laws, +ℤ_parts a b, e, p, q, r, t)
]

pub IsWhole-minus : (a b : ℤ) → IsWhole a → IsWhole b → IsWhole (a -ℤ b)
IsWhole-minus a b (p, q) (r, t) = elim (parts_disjoint (a -ℤ b)) [
  | inl e ↦ omega (int_laws, -ℤ_parts a b, e, p, q, r, t)
  | inr e ↦ omega (int_laws, -ℤ_parts a b, e, p, q, r, t)
]

pub IsWhole-abs : (a : ℤ) → IsWhole a → IsWhole (pos (pos_part a + neg_part a))
IsWhole-abs (pos n) (h, _) = (omega (arith, h), refl)
IsWhole-abs (negsuc n) (_, h) = (omega (arith, h), refl)

pub IsWhole-exact : (a : ℤ) → IsWhole (exact a)
unfolding exact
IsWhole-exact (pos n) = (omega arith, refl)
IsWhole-exact (negsuc n) = (refl, omega arith)
