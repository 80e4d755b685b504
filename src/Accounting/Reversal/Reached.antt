-- ===== src/Accounting/Reversal/Reached.antt =====
-- The journal after any requests: postings, reversals, changes of the fiscal calendar, and
-- documents that take numbers of the same series.
use geeta_backend.Common.{
  ℕ, Bool, false, List, [], ◌∷◌, map, All, All-weaken, ◌==◌, ◌≡◌, Option, some, inl, inr,
  Bool-cases, if◌then◌else◌,
}
use geeta_backend.Common.Result.{Result-cases, ok, ok_eq, >>=-eq-ok, or_throw, internal}
use mathlib.Core.Path.{subst}
use geeta_backend.Accounting.Voucher.{Key, Sequences, allocate_voucher_number, bump}
use geeta_backend.Accounting.Fiscal.{FinanceSettings, FiscalCalendar}
use geeta_backend.Accounting.Fiscal.Locked.{FiscalStep}
use geeta_backend.Accounting.Journal.{
  EntryStatus, PostEntryInput, PostingLineInput, JournalEntry, JournalLine, Account, is_source,
}
use geeta_backend.Accounting.Posting.{BookStore, with_calendar, post}
use geeta_backend.Accounting.Posting.Books.{
  IsBooks, IsBalanced, AreWhole, IsGiven, IsNumbered, Distinct, same_source, same_voucher, same_id,
  post-IsBooks, with_calendar-IsBooks, given-bump,
}
use geeta_backend.Accounting.Posting.Stored.{IsWholeInput, IsWholeLine}
use geeta_backend.Accounting.Reversal.Outcome.{find_first-All, reversal_of-ok}
use geeta_backend.Accounting.Reversal.{
  ReverseOptions, reverse, reversal_of, mirror_lines, code_of, link_reversal, with_links,
}

-- An update of the two columns, for the entry with an id.
module _ (id : ℕ) (status : JournalEntry → EntryStatus) (link : JournalEntry → Option ℕ) where
  abbrev linked : JournalEntry → JournalEntry
  linked e = if e.id == id then with_links (status e) (link e) e else e

  linked-IsBalanced : (e : JournalEntry) → IsBalanced e → IsBalanced (linked e)
  linked-IsBalanced e h = elim (Bool-cases (e.id == id)) [ inl k ↦ rw k h | inr k ↦ rw k h ]

  linked-AreWhole : (e : JournalEntry) → AreWhole e → AreWhole (linked e)
  linked-AreWhole e h = elim (Bool-cases (e.id == id)) [ inl k ↦ rw k h | inr k ↦ rw k h ]

  linked-IsGiven : (s : Sequences) (e : JournalEntry) → IsGiven s e → IsGiven s (linked e)
  linked-IsGiven s e h = elim (Bool-cases (e.id == id)) [ inl k ↦ rw k h | inr k ↦ rw k h ]

  linked-IsNumbered : (n : ℕ) (e : JournalEntry) → IsNumbered n e → IsNumbered n (linked e)
  linked-IsNumbered n e h = elim (Bool-cases (e.id == id)) [ inl k ↦ rw k h | inr k ↦ rw k h ]

  linked-same_source : (x y : JournalEntry) → same_source (linked x) (linked y) ≡ same_source x y
  unfolding is_source
  linked-same_source x y = elim (Bool-cases (x.id == id)) [
    | inl j ↦ elim (Bool-cases (y.id == id)) [ inl k ↦ rw (j, k) | inr k ↦ rw (j, k) ]
    | inr j ↦ elim (Bool-cases (y.id == id)) [ inl k ↦ rw (j, k) | inr k ↦ rw (j, k) ]
  ]

  linked-same_voucher : (x y : JournalEntry) → same_voucher (linked x) (linked y) ≡ same_voucher x y
  linked-same_voucher x y = elim (Bool-cases (x.id == id)) [
    | inl j ↦ elim (Bool-cases (y.id == id)) [ inl k ↦ rw (j, k) | inr k ↦ rw (j, k) ]
    | inr j ↦ elim (Bool-cases (y.id == id)) [ inl k ↦ rw (j, k) | inr k ↦ rw (j, k) ]
  ]

  linked-same_id : (x y : JournalEntry) → same_id (linked x) (linked y) ≡ same_id x y
  linked-same_id x y = elim (Bool-cases (x.id == id)) [
    | inl j ↦ elim (Bool-cases (y.id == id)) [ inl k ↦ rw (j, k) | inr k ↦ rw (j, k) ]
    | inr j ↦ elim (Bool-cases (y.id == id)) [ inl k ↦ rw (j, k) | inr k ↦ rw (j, k) ]
  ]

  All-linked :
      (P : JournalEntry → Type 0) (xs : List JournalEntry)
      → ((e : JournalEntry) → P e → P (linked e))
      → All P xs
      → All P (map linked xs)
  All-linked P [] f h = tt
  All-linked P (x ∷ xs) f (here, h) = (f x here, All-linked P xs f h)

  Distinct-linked :
      (same : JournalEntry → JournalEntry → Bool) (xs : List JournalEntry)
      → ((x y : JournalEntry) → same (linked x) (linked y) ≡ same x y)
      → Distinct same xs
      → Distinct same (map linked xs)
  Distinct-linked same [] f h = tt
  Distinct-linked same (x ∷ xs) f (here, h) = (unlike xs here, Distinct-linked same xs f h)
    where
      unlike :
          (ys : List JournalEntry)
          → All (λ (y : JournalEntry). same x y ≡ false) ys
          → All (λ (y : JournalEntry). same (linked x) y ≡ false) (map linked ys)
      unlike [] h = tt
      unlike (y ∷ ys) (here, h) = (rw (f x y) here, unlike ys h)

  linked-IsBooks :
      (cal : FiscalCalendar) (seqs : Sequences) (n : ℕ) (xs : List JournalEntry)
      → IsBooks record { calendar = cal; sequences = seqs; journal = xs; next_id = n }
      → IsBooks record { calendar = cal; sequences = seqs; journal = map linked xs; next_id = n }
  linked-IsBooks cal seqs n xs h = record {
    balanced = All-linked IsBalanced xs linked-IsBalanced h.balanced;
    whole = All-linked AreWhole xs linked-AreWhole h.whole;
    sources = Distinct-linked same_source xs linked-same_source h.sources;
    vouchers = Distinct-linked same_voucher xs linked-same_voucher h.vouchers;
    ids = Distinct-linked same_id xs linked-same_id h.ids;
    given = All-linked (IsGiven seqs) xs (linked-IsGiven seqs) h.given;
    numbered = All-linked (IsNumbered n) xs (linked-IsNumbered n) h.numbered;
  }

link_reversal-IsBooks :
    (mirror original : ℕ) (s : BookStore) → IsBooks s → IsBooks (link_reversal mirror original s)
unfolding link_reversal
link_reversal-IsBooks mirror original s h =
    linked-IsBooks original (λ _. EntryStatus.reversed) (λ e. e.reversal_of_id) _ _ _ _
      (linked-IsBooks mirror (λ e. e.status) (λ _. some original) s.calendar s.sequences s.next_id
        s.journal h)

-- The lines that `reverse` posts are whole when those that it reads are.
mirror_lines-IsWhole :
    (chart : List Account) (ls : List JournalLine) (lines : List PostingLineInput)
    → mirror_lines chart ls ≡ ok lines
    → All IsWholeLine ls
    → All IsWholeInput lines
unfolding mirror_lines
mirror_lines-IsWhole chart [] lines e h = subst (All IsWholeInput) (ok_eq e) tt
mirror_lines-IsWhole chart (l ∷ ls) lines e ((a, b), h) =
    let (code, _, r) = >>=-eq-ok (or_throw (code_of chart l.account_id) internal) _ e in
    let (others, rest, eq) = >>=-eq-ok (mirror_lines chart ls) _ r in
    subst (All IsWholeInput) (ok_eq eq) ((b, a), mirror_lines-IsWhole chart ls others rest h)

reversal_of-IsWhole :
    (chart : List Account) (entry_id : ℕ) (options : ReverseOptions) (s : BookStore)
    (original : JournalEntry) (input : PostEntryInput)
    → IsBooks s
    → reversal_of chart entry_id options s ≡ ok (original, input)
    → All IsWholeInput input.lines
reversal_of-IsWhole chart entry_id options s original input h r =
    let (lines, found, _, mirrored, inputs) =
      reversal_of-ok chart entry_id options s original input r in
    let whole = find_first-All AreWhole _ s.journal original h.whole found in
    subst (λ (i : PostEntryInput). All IsWholeInput i.lines) inputs
      (mirror_lines-IsWhole chart original.lines lines mirrored whole)

reverse-IsBooks :
    (settings : FinanceSettings) (chart : List Account) (entry_id : ℕ) (options : ReverseOptions)
    (s : BookStore)
    → IsBooks s
    → IsBooks (reverse settings chart entry_id options s).1
unfolding reverse
reverse-IsBooks settings chart entry_id options s h =
    elim (Result-cases (reversal_of chart entry_id options s)) [
      | inl (e, r) ↦ rw (r, reverse) h
      | inr ((original, input), r) ↦
          let w = reversal_of-IsWhole chart entry_id options s original input h r in
          let h' = post-IsBooks settings chart input s w h in
          elim (Result-cases (post settings chart input s).0) [
            | inl (e, q) ↦ rw (r, reverse, q) h'
            | inr (done, q) ↦
                rw (r, reverse, q) (link_reversal-IsBooks done.entry.id original.id _ h')
          ]
    ]

-- What one request does to the books; the amounts of a posting are whole numbers of paise.
pub data BookStep : BookStore → BookStore → Type 0 where
  posting :
      (settings : FinanceSettings) (chart : List Account) (input : PostEntryInput) (s : BookStore)
      → All IsWholeInput input.lines
      → BookStep s (post settings chart input s).1
  reversing :
      (settings : FinanceSettings) (chart : List Account) (entry_id : ℕ) (options : ReverseOptions)
      (s : BookStore)
      → BookStep s (reverse settings chart entry_id options s).1
  calendar :
      (s : BookStore) (cal : FiscalCalendar)
      → FiscalStep s.calendar cal
      → BookStep s (with_calendar cal s)
  document :
      (k : Key) (s : BookStore)
      → BookStep s record {
        calendar = s.calendar;
        sequences = (allocate_voucher_number k s.sequences).1;
        journal = s.journal;
        next_id = s.next_id;
      }

pub data BookSteps : BookStore → BookStore → Type 0 where
  done : (s : BookStore) → BookSteps s s
  more : (a b c : BookStore) → BookStep a b → BookSteps b c → BookSteps a c

BookStep-IsBooks : (a b : BookStore) → BookStep a b → IsBooks a → IsBooks b
unfolding allocate_voucher_number
BookStep-IsBooks _ _ (BookStep.posting settings chart input s w) h =
    post-IsBooks settings chart input s w h
BookStep-IsBooks _ _ (BookStep.reversing settings chart entry_id options s) h =
    reverse-IsBooks settings chart entry_id options s h
BookStep-IsBooks _ _ (BookStep.calendar s cal _) h = with_calendar-IsBooks cal s h
BookStep-IsBooks _ _ (BookStep.document k s) h = record {
  balanced = h.balanced;
  whole = h.whole;
  sources = h.sources;
  vouchers = h.vouchers;
  ids = h.ids;
  given =
      All-weaken (IsGiven s.sequences) (IsGiven (bump k s.sequences)) s.journal
        (given-bump k s.sequences) h.given;
  numbered = h.numbered;
}

-- From books where this holds (empty ones do), any sequence of postings of lines in whole paise,
-- reversals, changes of the fiscal calendar and numbers taken by documents leads to books where
-- the columns of every entry balance and hold whole paise, no source document was posted twice and no
-- voucher number was given twice.
pub BookSteps-IsBooks : (a b : BookStore) → BookSteps a b → IsBooks a → IsBooks b
BookSteps-IsBooks _ _ (BookSteps.done s) h = h
BookSteps-IsBooks _ _ (BookSteps.more a b c step rest) h =
    BookSteps-IsBooks b c rest (BookStep-IsBooks a b step h)
