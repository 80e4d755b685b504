-- ===== src/Accounting/Voucher/Gapless.antt =====
-- The numbers of a series have no gap.
use geeta_backend.Common.{
  ℕ, ◌+◌, true, List, [], ◌∷◌, ◌≡◌, refl, arith, if◌then◌else◌, Bool-cases, inl, inr, ==_refl,
  ==_sym, ◌∙◌, sym,
}
use geeta_backend.Accounting.Voucher.{
  code, Key, same_key, Sequences, last_value, bump, VoucherNumber, allocate_voucher_number,
}

pub same_key_refl : (k : Key) → same_key k k ≡ true
unfolding same_key
same_key_refl k = ground (arith, ==_refl k.fiscal_year, ==_refl (code k.series))

pub same_key_trans : (a b c : Key) → same_key a b ≡ true → same_key b c ≡ same_key a c
unfolding same_key
same_key_trans a b c h = ground arith

pub same_key_sym : (a b : Key) → same_key a b ≡ same_key b a
unfolding same_key
same_key_sym a b = rw (==_sym (code a.series) (code b.series), ==_sym a.fiscal_year b.fiscal_year)

pub last_value_same :
    (j k : Key) (s : Sequences) → same_key j k ≡ true → last_value j s ≡ last_value k s
last_value_same j k [] h = refl
last_value_same j k ((i, n) ∷ s) h = rw (
  last_value_same j k s h,
  same_key_sym i j,
  same_key_sym i k,
  sym (same_key_trans j k i h ∙ refl),
)

-- A number goes up for the key, and for no other.
pub last_value-bump :
    (k j : Key) (s : Sequences)
    → last_value j (bump k s) ≡ (if same_key k j then last_value j s + 1 else last_value j s)
unfolding bump
last_value-bump k j [] = ground arith
last_value-bump k j ((i, n) ∷ s) = elim (Bool-cases (same_key i k)) [
  | inl h ↦ rw (h, same_key_trans i k j h) (ground arith)
  | inr h ↦ rw h (ground (arith, last_value-bump k j s, same_key_trans i j k, same_key_sym k j))
]

-- Any number of calls of `allocateVoucherNumber`, in the order that the row locks give them.
unfoldable pub allocate_all : List Key → Sequences → List VoucherNumber × Sequences
allocate_all [] s = ([], s)
allocate_all (k ∷ ks) s =
    let (v, s') = allocate_voucher_number k s in let (vs, s'') = allocate_all ks s' in (v ∷ vs, s'')

-- The numbers that were given for a key, in order.
abbrev pub numbers_for : Key → List VoucherNumber → List ℕ
numbers_for k [] = []
numbers_for k (v ∷ vs) = if same_key v.key k then v.number ∷ numbers_for k vs else numbers_for k vs

-- n + 1, n + 2, ...: one for each element of a list that counts.
abbrev pub next_numbers : Key → List Key → ℕ → List ℕ
next_numbers k [] n = []
next_numbers k (j ∷ js) n =
    if same_key j k then (n + 1) ∷ next_numbers k js (n + 1) else next_numbers k js n

-- Among any calls of `allocateVoucherNumber`, those for one series and fiscal year are numbered
-- consecutively from the value that the counter had;
-- calls for other keys between them change nothing.
pub allocate_all-next_numbers :
    (k : Key) (ks : List Key) (s : Sequences)
    → let done = allocate_all ks s in numbers_for k done.0 ≡ next_numbers k ks (last_value k s)
unfolding allocate_all allocate_voucher_number
allocate_all-next_numbers k [] s = refl
allocate_all-next_numbers k (j ∷ ks) s =
    rw
      (
        allocate_all-next_numbers k ks (bump j s),
        last_value-bump j j s,
        last_value-bump j k s,
        same_key_refl j,
      )
      (elim (Bool-cases (same_key j k)) [ inl h ↦ rw (h, last_value_same j k s h) | inr h ↦ rw h ])
