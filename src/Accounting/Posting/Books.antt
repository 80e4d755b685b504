-- ===== src/Accounting/Posting/Books.antt =====
-- The invariant of the journal: entries balance, source documents and voucher numbers are unique.
use geeta_backend.Common.{
  ℕ, ◌+◌, ◌≤◌, ◌<◌, Bool, false, ◌&&◌, none, List, [], ◌∷◌, ◌++◌, ◌≡◌, map, sym, inl, inr, arith,
  length, All, All-append, All-weaken, find_first, ◌==◌, Bool-cases, Option-cases,
}
use mathlib.Core.Path.{subst}
use geeta_backend.Common.Int.{rounded}
use geeta_backend.Ledger.Types.{get_or}
use geeta_backend.Accounting.Voucher.{
  Key, same_key, last_value, allocate_voucher_number, Sequences, bump,
}
use geeta_backend.Accounting.Voucher.Gapless.{last_value-bump, same_key_refl, last_value_same}
use geeta_backend.Accounting.Fiscal.{FinanceSettings, FiscalCalendar}
use geeta_backend.Accounting.Calendar.{FiscalCoordinates}
use geeta_backend.Accounting.Journal.{
  SourceKey, PostEntryInput, JournalEntry, Account, is_source, default_series,
}
use geeta_backend.Accounting.Posting.{
  Prepared, BookStore, with_calendar, post_tx, post, stored_line,
}
use geeta_backend.Accounting.Posting.Balance.{IsTallied, prepare_lines-IsTallied}
use geeta_backend.Accounting.Posting.Stored.{
  IsWholeInput, IsWholeLine, KeepsAmounts, prepare_lines-KeepsAmounts,
}
use geeta_backend.Accounting.Posting.Outcome.{post-cases}

-- The totals that an entry stores are those of its lines, and are equal.
abbrev pub IsBalanced : JournalEntry → Type 0
IsBalanced e =
    (2 ≤ length e.lines)
    × IsTallied
        record { lines = e.lines; total_debit = e.total_debit; total_credit = e.total_credit }
    × (e.total_debit ≡ e.total_credit)

-- Its lines are whole numbers of paise.
abbrev pub AreWhole : JournalEntry → Type 0
AreWhole e = All IsWholeLine e.lines

abbrev pub same_source : JournalEntry → JournalEntry → Bool
same_source x y = is_source y.source_type y.source_key x

abbrev pub same_voucher : JournalEntry → JournalEntry → Bool
same_voucher x y =
    same_key x.voucher_number.key y.voucher_number.key
    && x.voucher_number.number == y.voucher_number.number

abbrev pub same_id : JournalEntry → JournalEntry → Bool
same_id x y = x.id == y.id

-- No entry is in the relation with a later one.
abbrev pub Distinct : (JournalEntry → JournalEntry → Bool) → List JournalEntry → Type 0
Distinct same [] = Unit
Distinct same (x ∷ xs) = All (λ (y : JournalEntry). same x y ≡ false) xs × Distinct same xs

abbrev pub IsGiven : Sequences → JournalEntry → Type 0
IsGiven s e = e.voucher_number.number ≤ last_value e.voucher_number.key s

abbrev pub IsNumbered : ℕ → JournalEntry → Type 0
IsNumbered n e = e.id < n

pub record IsBooks (s : BookStore) : Type 0 where
  pub balanced : All IsBalanced s.journal
  pub whole : All AreWhole s.journal
  pub sources : Distinct same_source s.journal
  pub vouchers : Distinct same_voucher s.journal
  pub ids : Distinct same_id s.journal
  pub given : All (IsGiven s.sequences) s.journal
  pub numbered : All (IsNumbered s.next_id) s.journal

Distinct-append :
    (same : JournalEntry → JournalEntry → Bool) (xs : List JournalEntry) (e : JournalEntry)
    → Distinct same xs
    → All (λ (x : JournalEntry). same x e ≡ false) xs
    → Distinct same (xs ++ e ∷ [])
Distinct-append same [] e h a = (tt, tt)
Distinct-append same (x ∷ xs) e (here, h) (n, a) =
    (All-append (λ (y : JournalEntry). same x y ≡ false) xs e here n, Distinct-append same xs e h a)

find_first-none :
    (test : JournalEntry → Bool) (xs : List JournalEntry)
    → find_first test xs ≡ none
    → All (λ (x : JournalEntry). test x ≡ false) xs
find_first-none test [] h = tt
find_first-none test (x ∷ xs) h = elim (Bool-cases (test x)) [
  | inl e ↦ cc (rw e at h)
  | inr e ↦ (e, find_first-none test xs (rw e at h))
]

pub given-bump : (k : Key) (s : Sequences) (e : JournalEntry) → IsGiven s e → IsGiven (bump k s) e
given-bump k s e h = ground (arith, last_value-bump k e.voucher_number.key s)

-- The next number of a key is above those that were given.
next_unmatched :
    (k j : Key) (n : ℕ) (s : Sequences)
    → n ≤ last_value j s
    → same_key j k && n == last_value k (bump k s) ≡ false
next_unmatched k j n s h = elim (Bool-cases (same_key j k)) [
  | inl e ↦ ground (arith, last_value-bump k k s, same_key_refl k, last_value_same j k s e)
  | inr e ↦ rw e
]

below_unmatched : (a n : ℕ) → a < n → (a == n) ≡ false
below_unmatched a n h = ground arith

pub with_calendar-IsBooks :
    (cal : FiscalCalendar) (s : BookStore) → IsBooks s → IsBooks (with_calendar cal s)
with_calendar-IsBooks cal s h = record {
  balanced = h.balanced;
  whole = h.whole;
  sources = h.sources;
  vouchers = h.vouchers;
  ids = h.ids;
  given = h.given;
  numbered = h.numbered;
}

-- What the columns keep is balanced when they keep what `prepare` answered.
kept_balance :
    (p : Prepared)
    → (2 ≤ length p.lines) × IsTallied p × (p.total_debit ≡ p.total_credit)
    → KeepsAmounts p
    → (2 ≤ length (map stored_line p.lines))
      × IsTallied record {
        lines = map stored_line p.lines;
        total_debit = rounded p.total_debit;
        total_credit = rounded p.total_credit;
      }
      × (rounded p.total_debit ≡ rounded p.total_credit)
kept_balance p b keeps = rw (keeps.stored, keeps.debit, keeps.credit) b

post_tx-IsBooks :
    (key : SourceKey) (input : PostEntryInput) (coords : FiscalCoordinates) (p : Prepared)
    (s : BookStore)
    → (2 ≤ length p.lines) × IsTallied p × (p.total_debit ≡ p.total_credit)
    → KeepsAmounts p
    → IsBooks s
    → IsBooks (post_tx key input coords p s).1
unfolding post_tx allocate_voucher_number
post_tx-IsBooks key input coords p s b keeps h =
    let balanced = kept_balance p b keeps in
    let whole = subst (All IsWholeLine) (sym keeps.stored) keeps.lines in
    elim (Option-cases (find_first (is_source input.source_type key) s.journal)) [
      | inr (e, found) ↦ rw (found, post_tx) h
      | inl fresh ↦
          let k : Key = record {
            series = get_or input.series (default_series input.source_type);
            fiscal_year = coords.fiscal_year;
          } in
          rw (fresh, post_tx)
            record {
              balanced = All-append IsBalanced s.journal _ h.balanced balanced;
              whole = All-append AreWhole s.journal _ h.whole whole;
              sources =
                  Distinct-append same_source s.journal _ h.sources
                    (find_first-none _ s.journal fresh);
              vouchers = Distinct-append same_voucher s.journal _ h.vouchers (
                  All-weaken (IsGiven s.sequences) _ s.journal
                    (λ x. next_unmatched k x.voucher_number.key x.voucher_number.number s.sequences)
                    h.given);
              ids = Distinct-append same_id s.journal _ h.ids (
                  All-weaken (IsNumbered s.next_id) _ s.journal
                    (λ x. below_unmatched x.id s.next_id) h.numbered);
              given =
                  All-append (IsGiven (bump k s.sequences)) s.journal _
                    (All-weaken (IsGiven s.sequences) _ s.journal (given-bump k s.sequences)
                      h.given)
                    (omega arith);
              numbered =
                  All-append (IsNumbered (s.next_id + 1)) s.journal _
                    (All-weaken (IsNumbered s.next_id) (IsNumbered (s.next_id + 1)) s.journal
                      (λ x i. omega (arith, i)) h.numbered)
                    (omega arith);
            }
    ]

-- Whatever `post` answers to an input of whole paise, afterwards the journal still holds only entries of at least two one-sided
-- lines whose debits and credits are equal, no two of them for one source document and none with
-- the voucher number of another, when it was so before.
pub post-IsBooks :
    (settings : FinanceSettings) (chart : List Account) (input : PostEntryInput) (s : BookStore)
    → All IsWholeInput input.lines
    → IsBooks s
    → IsBooks (post settings chart input s).1
post-IsBooks settings chart input s w h = elim (post-cases settings chart input s) [
  | inl t ↦ rw t.thrown (with_calendar-IsBooks t.calendar s h)
  | inr p ↦ rw p.posted (
      post_tx-IsBooks p.key input p.coords p.prepared _
        (prepare_lines-IsTallied chart input.lines p.prepared p.its_lines)
        (prepare_lines-KeepsAmounts chart input.lines p.prepared p.its_lines w)
        (with_calendar-IsBooks _ s h))
]
