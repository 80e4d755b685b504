-- ===== src/Accounting/Posting/Balance.antt =====
-- What `prepare` makes of the lines of an entry: it balances to the last digit.
use geeta_backend.Common.{
  ℕ, ◌+◌, ◌≤◌, Bool, true, false, ◌&&◌, ◌||◌, List, [], ◌∷◌, ◌++◌, ◌≡◌, refl, sym, ◌⊎◌, inl, inr,
  arith, length, length-append, All, All-append, ltb, if◌then◌else◌, Bool-cases,
}
use geeta_backend.Common.Result.{
  ok, >>=-eq-ok, throw_if-eq-ok, ok_eq, bad_request, internal, throw_if, ◌>>◌, throw_if_passes,
  or_throw,
}
use mathlib.Core.Path.{subst}
use geeta_backend.Common.Int.{
  ℤ, pos, ◌+ℤ◌, ◌≤ℤ◌, ◌<ℤ◌, ltb_ℤ, eqb_ℤ, int_laws, -ℤ_parts, ◌-ℤ◌, +ℤ_parts, parts_disjoint,
  eq_of_parts, ltb_ℤ→lt, ltb_ℤ→le,
}
use geeta_backend.Accounting.Journal.{
  PostingLineInput, JournalLine, Account, Dimensions, TaxColumns, id_for,
}
use geeta_backend.Accounting.Posting.{
  d, balance_tolerance, difference, rounding_difference, ids_for, Prepared, push_line, add_line,
  add_lines, absorb_difference, nothing_prepared, prepare_lines,
}

abbrev pub sum_debit : List JournalLine → ℤ
sum_debit [] = pos 0
sum_debit (l ∷ ls) = l.debit +ℤ sum_debit ls

abbrev pub sum_credit : List JournalLine → ℤ
sum_credit [] = pos 0
sum_credit (l ∷ ls) = l.credit +ℤ sum_credit ls

-- One side is positive and the other zero.
abbrev pub IsOneSided : JournalLine → Type 0
IsOneSided l = ((pos 0 <ℤ l.debit) × (l.credit ≡ pos 0)) ⊎ ((l.debit ≡ pos 0) × (pos 0 <ℤ l.credit))

-- The line numbers are n + 1, n + 2, ...
abbrev pub NumberedFrom : ℕ → List JournalLine → Type 0
NumberedFrom n [] = Unit
NumberedFrom n (l ∷ ls) = (l.line_number ≡ n + 1) × NumberedFrom (n + 1) ls

-- The lines and totals agree; so they do after every round of the loop.
pub record IsTallied (p : Prepared) : Type 0 where
  pub debits : p.total_debit ≡ sum_debit p.lines
  pub credits : p.total_credit ≡ sum_credit p.lines
  pub one_sided : All IsOneSided p.lines
  pub numbered : NumberedFrom 0 p.lines

pub sum_debit-append :
    (xs ys : List JournalLine) → sum_debit (xs ++ ys) ≡ sum_debit xs +ℤ sum_debit ys
sum_debit-append [] ys = omega int_laws
sum_debit-append (x ∷ xs) ys = rw (sum_debit-append xs ys) (omega int_laws)

pub sum_credit-append :
    (xs ys : List JournalLine) → sum_credit (xs ++ ys) ≡ sum_credit xs +ℤ sum_credit ys
sum_credit-append [] ys = omega int_laws
sum_credit-append (x ∷ xs) ys = rw (sum_credit-append xs ys) (omega int_laws)

NumberedFrom-append :
    (n : ℕ) (xs : List JournalLine) (l : JournalLine)
    → NumberedFrom n xs
    → l.line_number ≡ n + length xs + 1
    → NumberedFrom n (xs ++ l ∷ [])
NumberedFrom-append n [] l h e = (omega (arith, e), tt)
NumberedFrom-append n (x ∷ xs) l (a, h) e =
    (a, NumberedFrom-append (n + 1) xs l h (omega (arith, e)))

push_line-IsTallied :
    (id : ℕ) (debit credit : ℤ) (dim : Dimensions) (tax : TaxColumns) (p : Prepared)
    → IsTallied p
    → IsOneSided record {
      line_number = 0;
      account_id = id;
      debit = debit;
      credit = credit;
      dimensions = dim;
      tax = tax;
    }
    → IsTallied (push_line id debit credit dim tax p)
push_line-IsTallied id debit credit dim tax p h o = record {
  debits = rw (sum_debit-append p.lines _, h.debits) (omega int_laws);
  credits = rw (sum_credit-append p.lines _, h.credits) (omega int_laws);
  one_sided = All-append IsOneSided p.lines _ h.one_sided o;
  numbered = NumberedFrom-append 0 p.lines _ h.numbered (omega arith);
}

abbrev pub signs_wrong : ℤ → ℤ → Bool
signs_wrong debit credit = ltb_ℤ debit (pos 0) || ltb_ℤ credit (pos 0)

abbrev pub sides_wrong : ℤ → ℤ → Bool
sides_wrong debit credit = ltb_ℤ (pos 0) debit && ltb_ℤ (pos 0) credit

abbrev pub both_zero : ℤ → ℤ → Bool
both_zero debit credit = eqb_ℤ debit (pos 0) && eqb_ℤ credit (pos 0)

guards-IsOneSided :
    (debit credit : ℤ)
    → signs_wrong debit credit ≡ false
    → sides_wrong debit credit ≡ false
    → both_zero debit credit ≡ false
    → ((pos 0 <ℤ debit) × (credit ≡ pos 0)) ⊎ ((debit ≡ pos 0) × (pos 0 <ℤ credit))
guards-IsOneSided debit credit a b c = ground arith

add_line-IsTallied :
    (id : ℕ) (line : PostingLineInput) (p q : Prepared)
    → add_line id line p ≡ ok q
    → IsTallied p
    → IsTallied q
unfolding add_line
add_line-IsTallied id line p q e h =
    let debit = d line.debit in
    let credit = d line.credit in
    let signs = throw_if (signs_wrong debit credit) bad_request in
    let sides = throw_if (sides_wrong debit credit) bad_request in
    let (_, guards, eq) = >>=-eq-ok (signs >> sides) _ e in
    let (s, rest) = throw_if_passes (signs_wrong debit credit) bad_request _ guards in
    let t = throw_if-eq-ok (sides_wrong debit credit) _ rest in
    subst IsTallied (ok_eq eq) (elim (Bool-cases (both_zero debit credit)) [
      | inl z ↦ rw z h
      | inr z ↦ rw z (push_line-IsTallied id _ _ _ _ p h (guards-IsOneSided _ _ s t z))
    ])

add_lines-IsTallied :
    (lines : List (ℕ × PostingLineInput)) (p q : Prepared)
    → add_lines lines p ≡ ok q
    → IsTallied p
    → IsTallied q
unfolding add_lines
add_lines-IsTallied [] p q e h = subst IsTallied (ok_eq e) h
add_lines-IsTallied ((id, line) ∷ rest) p q e h =
    let (next, here, there) = >>=-eq-ok (add_line id line p) _ e in
    add_lines-IsTallied rest next q there (add_line-IsTallied id line p next here h)

nothing-IsTallied : IsTallied nothing_prepared
nothing-IsTallied = record { debits = refl; credits = refl; one_sided = tt; numbered = tt }

length_le : (xs ys : List JournalLine) → length xs ≤ length (xs ++ ys)
length_le xs ys = omega (arith, length-append xs ys)

difference_zero : (a b : ℤ) → ltb_ℤ (pos 0) (difference a b) ≡ false → a ≡ b
difference_zero a b h =
    eq_of_parts a b (omega (arith, -ℤ_parts a b, ltb_ℤ→le (pos 0) (difference a b) h))

rounding-IsOneSided :
    (a b : ℤ)
    → ltb_ℤ (pos 0) (difference a b) ≡ true
    → let short = difference a b in
      let debit = if ltb_ℤ a b then short else pos 0 in
      let credit = if ltb_ℤ a b then pos 0 else short in
      ((pos 0 <ℤ debit) × (credit ≡ pos 0)) ⊎ ((debit ≡ pos 0) × (pos 0 <ℤ credit))
rounding-IsOneSided a b h = elim (Bool-cases (ltb_ℤ a b)) [
  | inl e ↦ rw e (inl (ltb_ℤ→lt (pos 0) (difference a b) h, refl))
  | inr e ↦ rw e (inr (refl, ltb_ℤ→lt (pos 0) (difference a b) h))
]

low_gap : (a b : ℤ) → a <ℤ b → a +ℤ difference a b ≡ b +ℤ pos 0
low_gap a b h = elim (parts_disjoint (a -ℤ b)) [
  | inl e ↦ omega (int_laws, -ℤ_parts a b, +ℤ_parts a (difference a b), +ℤ_parts b (pos 0), h, e)
  | inr e ↦ omega (int_laws, -ℤ_parts a b, +ℤ_parts a (difference a b), +ℤ_parts b (pos 0), h, e)
]

high_gap : (a b : ℤ) → b ≤ℤ a → b +ℤ difference a b ≡ a +ℤ pos 0
high_gap a b h = elim (parts_disjoint (a -ℤ b)) [
  | inl e ↦ omega (int_laws, -ℤ_parts a b, +ℤ_parts b (difference a b), +ℤ_parts a (pos 0), h, e)
  | inr e ↦ omega (int_laws, -ℤ_parts a b, +ℤ_parts b (difference a b), +ℤ_parts a (pos 0), h, e)
]

rounding_levels :
    (a b : ℤ)
    → ltb_ℤ (pos 0) (difference a b) ≡ true
    → a +ℤ (if ltb_ℤ a b then difference a b else pos 0)
      ≡ b +ℤ (if ltb_ℤ a b then pos 0 else difference a b)
rounding_levels a b h = elim (Bool-cases (ltb_ℤ a b)) [
  | inl e ↦ rw e (low_gap a b (ltb_ℤ→lt a b e))
  | inr e ↦ rw e (sym (high_gap a b (ltb_ℤ→le a b e)))
]

-- The rounding line closes the gap.
absorb_difference-IsTallied :
    (chart : List Account) (p q : Prepared)
    → absorb_difference chart p ≡ ok q
    → IsTallied p
    → (length p.lines ≤ length q.lines) × IsTallied q × (q.total_debit ≡ q.total_credit)
unfolding absorb_difference
absorb_difference-IsTallied chart p q e h =
    let (within, rest) =
      throw_if_passes (ltb_ℤ balance_tolerance (difference p.total_debit p.total_credit)) internal _
        e in
    elim (Bool-cases (ltb_ℤ (pos 0) (difference p.total_debit p.total_credit))) [
      | inl gap ↦
          let (id, _, eq) =
            >>=-eq-ok (or_throw (id_for chart rounding_difference) internal) _ (rw gap at rest) in
          subst
            (λ (r : Prepared).
              (length p.lines ≤ length r.lines) × IsTallied r × (r.total_debit ≡ r.total_credit))
            (ok_eq eq)
            (
              length_le p.lines _,
              push_line-IsTallied id _ _ _ _ p h (rounding-IsOneSided _ _ gap),
              rounding_levels _ _ gap,
            )
      | inr level ↦
          subst
            (λ (r : Prepared).
              (length p.lines ≤ length r.lines) × IsTallied r × (r.total_debit ≡ r.total_credit))
            (ok_eq (rw level at rest)) (omega arith, h, difference_zero _ _ level)
    ]

-- When `prepare` lets the lines of an entry through, it answers at least two lines, numbered from 1 in
-- order, each with one positive side and the other zero; their debits sum to the debit total that it
-- answers, their credits to the credit total, and the two totals are equal. These are the amounts
-- of all digits, before the columns round them.
pub prepare_lines-IsTallied :
    (chart : List Account) (lines : List PostingLineInput) (p : Prepared)
    → prepare_lines chart lines ≡ ok p
    → (2 ≤ length p.lines) × IsTallied p × (p.total_debit ≡ p.total_credit)
unfolding prepare_lines
prepare_lines-IsTallied chart lines p e =
    let (resolved, _, r) = >>=-eq-ok (ids_for chart lines) _ e in
    let (acc, added, r2) = >>=-eq-ok (add_lines resolved nothing_prepared) _ r in
    let (two, r3) = throw_if_passes (ltb (length acc.lines) 2) bad_request _ r2 in
    let (longer, tallied, equal) =
      absorb_difference-IsTallied chart acc p r3
        (add_lines-IsTallied resolved nothing_prepared acc added nothing-IsTallied) in
    (ground arith, tallied, equal)
