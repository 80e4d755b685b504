-- ===== src/Accounting/Reversal/Mirror.antt =====
-- The lines that `reverse` posts.
use geeta_backend.Common.{
  ℕ, suc, true, false, List, [], ◌∷◌, ◌++◌, map, All, elem, length, length-append, ◌==◌, ==_refl,
  ==_iff, ◌≡◌, refl, sym, ap, ◌∙◌, some, some_eq, ◌⊎◌, inl, inr, Bool-cases, arith, ltb,
}
use mathlib.Core.Path.{subst}
use mathlib.Core.List.{append_assoc, append-nil}
use geeta_backend.Common.Result.{ok, ok_eq, >>=-eq-ok, or_throw-eq-ok, or_throw, internal}
use geeta_backend.Common.Int.{ℤ, pos, ◌+ℤ◌, ◌<ℤ◌, ltb_ℤ, int_laws, ◌-ℤ◌, -ℤ_parts, parts_disjoint}
use geeta_backend.Accounting.Journal.{PostingLineInput, JournalLine, Account, JournalEntry, id_for}
use geeta_backend.Accounting.Posting.{
  balance_tolerance, Prepared, ids_for, add_line, add_lines, push_line, absorb_difference,
  difference, nothing_prepared, prepare_lines, no_tax,
}
use geeta_backend.Accounting.Posting.Balance.{
  IsOneSided, NumberedFrom, sum_debit, sum_credit, signs_wrong, sides_wrong, both_zero,
}
use geeta_backend.Accounting.Posting.Books.{IsBalanced}
use geeta_backend.Accounting.Reversal.{code_of, mirror_line, mirror_lines}

-- Ids and codes are unique.
abbrev pub IsChart : List Account → Type 0
IsChart [] = Unit
IsChart (a ∷ chart) =
    (elem a.id (map (λ (b : Account). b.id) chart) ≡ false)
    × (elem a.code (map (λ (b : Account). b.code) chart) ≡ false)
    × IsChart chart

-- A stored line with its sides swapped.
abbrev pub swap_line : JournalLine → JournalLine
swap_line l = record {
  line_number = l.line_number;
  account_id = l.account_id;
  debit = l.credit;
  credit = l.debit;
  dimensions = l.dimensions;
  tax = no_tax;
}

abbrev renumbered : ℕ → JournalLine → JournalLine
renumbered k l = record {
  line_number = k;
  account_id = l.account_id;
  debit = l.credit;
  credit = l.debit;
  dimensions = l.dimensions;
  tax = no_tax;
}

code_of-elem :
    (chart : List Account) (id code : ℕ)
    → code_of chart id ≡ some code
    → elem code (map (λ (b : Account). b.code) chart) ≡ true
code_of-elem [] id code h = cc
code_of-elem (a ∷ chart) id code h = elim (Bool-cases (a.id == id)) [
  | inl e ↦ rw (sym (some_eq (rw e at h)), ==_refl a.code)
  | inr e ↦ ground (arith, code_of-elem chart id code (rw e at h))
]

id_for-code_of :
    (chart : List Account) (id code : ℕ)
    → IsChart chart
    → code_of chart id ≡ some code
    → id_for chart code ≡ some id
id_for-code_of [] id code u h = cc
id_for-code_of (a ∷ chart) id code (i, c, u) h = elim (Bool-cases (a.id == id)) [
  | inl e ↦ rw (sym (some_eq (rw e at h)), ==_refl a.code) (ap some ((==_iff a.id id).0 e))
  | inr e ↦ elim (Bool-cases (a.code == code)) [
    | inl f ↦
        let g : a.code ≡ code = (==_iff a.code code).0 f in
        let m = code_of-elem chart id code (rw e at h) in
        cc (sym c ∙ subst (λ x. elem x (map (λ (b : Account). b.code) chart) ≡ true) (sym g) m)
    | inr f ↦ rw f (id_for-code_of chart id code u (rw e at h))
  ]
]

-- The lines that `idsFor` has resolved are mirrors of the original's.
data MirrorOf : List JournalLine → List (ℕ × PostingLineInput) → Type 0 where
  none_left : MirrorOf [] []
  one_more :
      (l : JournalLine) (ls : List JournalLine) (code : ℕ) (rs : List (ℕ × PostingLineInput))
      → MirrorOf ls rs
      → MirrorOf (l ∷ ls) ((l.account_id, mirror_line code l) ∷ rs)

ids_for-MirrorOf :
    (chart : List Account) (ls : List JournalLine) (inputs : List PostingLineInput)
    → IsChart chart
    → mirror_lines chart ls ≡ ok inputs
    → (rs : List (ℕ × PostingLineInput)) × (ids_for chart inputs ≡ ok rs) × MirrorOf ls rs
unfolding mirror_lines ids_for
ids_for-MirrorOf chart [] inputs u e =
    subst
      (λ (xs : List PostingLineInput).
        (rs : List (ℕ × PostingLineInput)) × (ids_for chart xs ≡ ok rs) × MirrorOf [] rs)
      (ok_eq e) ([], refl, MirrorOf.none_left)
ids_for-MirrorOf chart (l ∷ ls) inputs u e =
    let (code, here, r) = >>=-eq-ok (or_throw (code_of chart l.account_id) internal) _ e in
    let (others, there, eq) = >>=-eq-ok (mirror_lines chart ls) _ r in
    let (rs, found, m) = ids_for-MirrorOf chart ls others u there in
    let id = id_for-code_of chart l.account_id code u (or_throw-eq-ok _ _ here) in
    subst
      (λ (xs : List PostingLineInput).
        (rs : List (ℕ × PostingLineInput)) × (ids_for chart xs ≡ ok rs) × MirrorOf (l ∷ ls) rs)
      (ok_eq eq)
      ((l.account_id, mirror_line code l) ∷ rs, rw (id, found), MirrorOf.one_more l ls code rs m)

one_sided_passes :
    (debit credit : ℤ)
    → ((pos 0 <ℤ debit) × (credit ≡ pos 0)) ⊎ ((debit ≡ pos 0) × (pos 0 <ℤ credit))
    → (signs_wrong credit debit ≡ false)
      × (sides_wrong credit debit ≡ false)
      × (both_zero credit debit ≡ false)
one_sided_passes debit credit h = ground arith

add_line-mirror_line :
    (code : ℕ) (l : JournalLine) (acc : Prepared)
    → IsOneSided l
    → add_line l.account_id (mirror_line code l) acc
      ≡ ok (push_line l.account_id l.credit l.debit l.dimensions no_tax acc)
unfolding add_line
add_line-mirror_line code l acc h =
    let (a, b, c) = one_sided_passes l.debit l.credit h in rw (a, b, c)

abbrev after : List JournalLine → Prepared → Prepared
after ls acc = record {
  lines = acc.lines ++ map swap_line ls;
  total_debit = acc.total_debit +ℤ sum_credit ls;
  total_credit = acc.total_credit +ℤ sum_debit ls;
}

prepared_eq :
    {ls ls' : List JournalLine} {d d' c c' : ℤ}
    → ls ≡ ls'
    → d ≡ d'
    → c ≡ c'
    → Path Prepared
        record { lines = ls; total_debit = d; total_credit = c }
        record { lines = ls'; total_debit = d'; total_credit = c' }
prepared_eq a b c = cc

add_lines-MirrorOf :
    (ls : List JournalLine) (rs : List (ℕ × PostingLineInput)) (acc : Prepared)
    → MirrorOf ls rs
    → All IsOneSided ls
    → NumberedFrom (length acc.lines) ls
    → add_lines rs acc ≡ ok (after ls acc)
unfolding add_lines
add_lines-MirrorOf _ _ acc MirrorOf.none_left o n =
    ap ok (prepared_eq (sym (append-nil acc.lines)) (omega int_laws) (omega int_laws))
add_lines-MirrorOf _ _ acc (MirrorOf.one_more l ls code rs m) (here, o) (number, n) =
    let pushed = push_line l.account_id l.credit l.debit l.dimensions no_tax acc in
    let numbers : NumberedFrom (length pushed.lines) ls =
      subst (λ k. NumberedFrom k ls) (sym (length-append acc.lines _)) n in
    rw (add_line-mirror_line code l acc here, add_lines-MirrorOf ls rs pushed m o numbers)
      (ap ok (
        prepared_eq
          (append_assoc acc.lines _ _
            ∙ ap (λ k. acc.lines ++ renumbered k l ∷ map swap_line ls) (sym number))
          (omega int_laws) (omega int_laws)))

pub difference_self : (a : ℤ) → difference a a ≡ pos 0
difference_self a = omega (int_laws, -ℤ_parts a a, parts_disjoint (a -ℤ a))

pub zero_plus : (a : ℤ) → pos 0 +ℤ a ≡ a
zero_plus a = omega int_laws

level_passes :
    (chart : List Account) (p : Prepared)
    → p.total_debit ≡ p.total_credit
    → absorb_difference chart p ≡ ok p
unfolding absorb_difference
level_passes chart p e =
    let z : difference p.total_debit p.total_credit ≡ pos 0 =
      ap (difference p.total_debit) (sym e) ∙ difference_self p.total_debit in
    let a : ltb_ℤ balance_tolerance (difference p.total_debit p.total_credit) ≡ false =
      ap (ltb_ℤ balance_tolerance) z in
    let b : ltb_ℤ (pos 0) (difference p.total_debit p.total_credit) ≡ false =
      ap (ltb_ℤ (pos 0)) z in
    rw (a, b)

length-map {ℓ κ} :
    {A : Type ℓ} {B : Type κ} (f : A → B) (xs : List A) → length (map f xs) ≡ length xs
length-map f [] = refl
length-map f (x ∷ xs) = ap suc (length-map f xs)

-- The lines that `reverse` hands to `post` always prepare, when account ids and codes are unique and
-- the original entry is balanced, and give exactly the original's lines with their sides swapped, in
-- the same order and with the same numbers, no line dropped and none added for rounding; only the
-- tax columns are empty. Debit and credit total change places.
pub prepare_lines-mirror_lines :
    (chart : List Account) (original : JournalEntry) (inputs : List PostingLineInput)
    → IsChart chart
    → IsBalanced original
    → mirror_lines chart original.lines ≡ ok inputs
    → prepare_lines chart inputs
      ≡ ok record {
        lines = map swap_line original.lines;
        total_debit = original.total_credit;
        total_credit = original.total_debit;
      }
unfolding prepare_lines
prepare_lines-mirror_lines chart original inputs unique (two, tallied, equal) e =
    let (rs, found, m) = ids_for-MirrorOf chart original.lines inputs unique e in
    let added =
      add_lines-MirrorOf original.lines rs nothing_prepared m tallied.one_sided tallied.numbered in
    let long : ltb (length (map swap_line original.lines)) 2 ≡ false =
      rw (length-map swap_line original.lines) (ground arith) in
    let target : Prepared = record {
      lines = map swap_line original.lines;
      total_debit = original.total_credit;
      total_credit = original.total_debit;
    } in
    let same : after original.lines nothing_prepared ≡ target =
      prepared_eq refl (zero_plus _ ∙ sym tallied.credits) (zero_plus _ ∙ sym tallied.debits) in
    rw (found, added, long)
      (ap (absorb_difference chart) same ∙ level_passes chart target (sym equal))
