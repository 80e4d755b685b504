-- ===== src/Accounting/Posting/Stored.antt =====
-- What the columns keep of an entry whose amounts are whole numbers of paise.
use geeta_backend.Common.{
  ℕ, Bool, true, false, ◌&&◌, ◌||◌, List, [], ◌∷◌, map, ◌≡◌, refl, ap, inl, inr, length, All,
  All-append, Bool-cases, ltb, if◌then◌else◌,
}
use mathlib.Core.Path.{subst}
use geeta_backend.Common.Result.{
  ok, >>=-eq-ok, ok_eq, bad_request, internal, throw_if, ◌>>◌, throw_if_passes, or_throw,
}
use geeta_backend.Common.Int.{
  ℤ, pos, ◌-ℤ◌, ltb_ℤ, eqb_ℤ, rounded, IsWhole, rounded-IsWhole, IsWhole-plus, IsWhole-minus,
  IsWhole-abs,
}
use geeta_backend.Accounting.Journal.{
  PostingLineInput, JournalLine, Account, Dimensions, TaxColumns, id_for,
}
use geeta_backend.Accounting.Posting.{
  d, balance_tolerance, difference, rounding_difference, ids_for, Prepared, push_line, add_line,
  add_lines, absorb_difference, nothing_prepared, prepare_lines, stored_line,
}

-- Whole numbers of paise.
abbrev pub IsWholeInput : PostingLineInput → Type 0
IsWholeInput l = IsWhole (d l.debit) × IsWhole (d l.credit)

abbrev pub IsWholeLine : JournalLine → Type 0
IsWholeLine l = IsWhole l.debit × IsWhole l.credit

-- The columns keep the line as it is.
abbrev pub IsStored : JournalLine → Type 0
IsStored l = (rounded l.debit ≡ l.debit) × (rounded l.credit ≡ l.credit)

record IsWholePrepared (p : Prepared) : Type 0 where
  lines : All IsWholeLine p.lines
  debit : IsWhole p.total_debit
  credit : IsWhole p.total_credit

push_line-IsWhole :
    (id : ℕ) (debit credit : ℤ) (dim : Dimensions) (tax : TaxColumns) (p : Prepared)
    → IsWholePrepared p
    → IsWhole debit
    → IsWhole credit
    → IsWholePrepared (push_line id debit credit dim tax p)
push_line-IsWhole id debit credit dim tax p h a b = record {
  lines = All-append IsWholeLine p.lines _ h.lines (a, b);
  debit = IsWhole-plus p.total_debit debit h.debit a;
  credit = IsWhole-plus p.total_credit credit h.credit b;
}

add_line-IsWhole :
    (id : ℕ) (line : PostingLineInput) (p q : Prepared)
    → add_line id line p ≡ ok q
    → IsWholeInput line
    → IsWholePrepared p
    → IsWholePrepared q
unfolding add_line
add_line-IsWhole id line p q e w h =
    let debit = d line.debit in
    let credit = d line.credit in
    let signs = throw_if (ltb_ℤ debit (pos 0) || ltb_ℤ credit (pos 0)) bad_request in
    let sides = throw_if (ltb_ℤ (pos 0) debit && ltb_ℤ (pos 0) credit) bad_request in
    let (_, _, eq) = >>=-eq-ok (signs >> sides) _ e in
    subst IsWholePrepared (ok_eq eq)
      (elim (Bool-cases (eqb_ℤ debit (pos 0) && eqb_ℤ credit (pos 0))) [
        | inl z ↦ rw z h
        | inr z ↦ rw z (push_line-IsWhole id debit credit _ _ p h w.0 w.1)
      ])

-- The lines with their ids are lines of the input.
ids_for-IsWhole :
    (chart : List Account) (lines : List PostingLineInput) (rs : List (ℕ × PostingLineInput))
    → ids_for chart lines ≡ ok rs
    → All IsWholeInput lines
    → All (λ (r : ℕ × PostingLineInput). IsWholeInput r.1) rs
unfolding ids_for
ids_for-IsWhole chart [] rs e w =
    subst (All (λ (r : ℕ × PostingLineInput). IsWholeInput r.1)) (ok_eq e) tt
ids_for-IsWhole chart (line ∷ lines) rs e (here, w) =
    let (id, _, r) = >>=-eq-ok (or_throw (id_for chart line.account_code) internal) _ e in
    let (others, found, eq) = >>=-eq-ok (ids_for chart lines) _ r in
    subst (All (λ (r : ℕ × PostingLineInput). IsWholeInput r.1)) (ok_eq eq)
      (here, ids_for-IsWhole chart lines others found w)

add_lines-IsWhole :
    (lines : List (ℕ × PostingLineInput)) (p q : Prepared)
    → add_lines lines p ≡ ok q
    → All (λ (r : ℕ × PostingLineInput). IsWholeInput r.1) lines
    → IsWholePrepared p
    → IsWholePrepared q
unfolding add_lines
add_lines-IsWhole [] p q e w h = subst IsWholePrepared (ok_eq e) h
add_lines-IsWhole ((id, line) ∷ rest) p q e (here, w) h =
    let (next, first, there) = >>=-eq-ok (add_line id line p) _ e in
    add_lines-IsWhole rest next q there w (add_line-IsWhole id line p next first here h)

-- The short side gets the difference, the other nothing.
side-IsWhole : (c : Bool) (a : ℤ) → IsWhole a → IsWhole (if c then a else pos 0)
side-IsWhole true a h = h
side-IsWhole false a h = (refl, refl)

other-IsWhole : (c : Bool) (a : ℤ) → IsWhole a → IsWhole (if c then pos 0 else a)
other-IsWhole true a h = (refl, refl)
other-IsWhole false a h = h

absorb_difference-IsWhole :
    (chart : List Account) (p q : Prepared)
    → absorb_difference chart p ≡ ok q
    → IsWholePrepared p
    → IsWholePrepared q
unfolding absorb_difference
absorb_difference-IsWhole chart p q e h =
    let short = difference p.total_debit p.total_credit in
    let whole : IsWhole short =
      IsWhole-abs (p.total_debit -ℤ p.total_credit)
        (IsWhole-minus p.total_debit p.total_credit h.debit h.credit) in
    let c = ltb_ℤ p.total_debit p.total_credit in
    let (_, rest) = throw_if_passes (ltb_ℤ balance_tolerance short) internal _ e in
    elim (Bool-cases (ltb_ℤ (pos 0) short)) [
      | inl gap ↦
          let (id, _, eq) =
            >>=-eq-ok (or_throw (id_for chart rounding_difference) internal) _ (rw gap at rest) in
          subst IsWholePrepared (ok_eq eq) (
            push_line-IsWhole id _ _ _ _ p h (side-IsWhole c short whole)
              (other-IsWhole c short whole))
      | inr level ↦ subst IsWholePrepared (ok_eq (rw level at rest)) h
    ]

prepare_lines-IsWhole :
    (chart : List Account) (lines : List PostingLineInput) (p : Prepared)
    → prepare_lines chart lines ≡ ok p
    → All IsWholeInput lines
    → IsWholePrepared p
unfolding prepare_lines
prepare_lines-IsWhole chart lines p e w =
    let (resolved, found, r) = >>=-eq-ok (ids_for chart lines) _ e in
    let (acc, added, r2) = >>=-eq-ok (add_lines resolved nothing_prepared) _ r in
    let (_, r3) = throw_if_passes (ltb (length acc.lines) 2) bad_request _ r2 in
    absorb_difference-IsWhole chart acc p r3 (
      add_lines-IsWhole resolved nothing_prepared acc added
        (ids_for-IsWhole chart lines resolved found w)
        record { lines = tt; debit = (refl, refl); credit = (refl, refl) })

-- What is stored already is not changed by storing it.
pub map-stored_line : (ls : List JournalLine) → All IsStored ls → map stored_line ls ≡ ls
map-stored_line [] h = refl
map-stored_line (l ∷ ls) ((a, b), h) = rw (a, b) (ap (λ xs. l ∷ xs) (map-stored_line ls h))

IsWholeLine→IsStored : (ls : List JournalLine) → All IsWholeLine ls → All IsStored ls
IsWholeLine→IsStored [] h = tt
IsWholeLine→IsStored (l ∷ ls) ((a, b), h) =
    ((rounded-IsWhole l.debit a, rounded-IsWhole l.credit b), IsWholeLine→IsStored ls h)

-- The columns keep every amount that `prepare` answers.
pub record KeepsAmounts (p : Prepared) : Type 0 where
  pub lines : All IsWholeLine p.lines
  pub stored : map stored_line p.lines ≡ p.lines
  pub debit : rounded p.total_debit ≡ p.total_debit
  pub credit : rounded p.total_credit ≡ p.total_credit

pub prepare_lines-KeepsAmounts :
    (chart : List Account) (lines : List PostingLineInput) (p : Prepared)
    → prepare_lines chart lines ≡ ok p
    → All IsWholeInput lines
    → KeepsAmounts p
prepare_lines-KeepsAmounts chart lines p e w =
    let h = prepare_lines-IsWhole chart lines p e w in
    record {
      lines = h.lines;
      stored = map-stored_line p.lines (IsWholeLine→IsStored p.lines h.lines);
      debit = rounded-IsWhole p.total_debit h.debit;
      credit = rounded-IsWhole p.total_credit h.credit;
    }
