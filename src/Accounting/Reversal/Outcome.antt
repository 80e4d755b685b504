-- ===== src/Accounting/Reversal/Outcome.antt =====
-- What `reverse` leaves in the journal.
use geeta_backend.Common.{
  ℕ, ◌+◌, List, [], ◌∷◌, ◌++◌, map, find_first, ◌==◌, ◌≡◌, refl, sym, ap, ◌∙◌, Option, none, some,
  inl, inr, Bool-cases, some_eq, false, All,
}
use mathlib.Core.Path.{subst}
use geeta_backend.Common.Int.{rounded-IsWhole}
use geeta_backend.Ledger.Types.{get_or}
use geeta_backend.Common.Result.{
  Result, ApiError, err, ok, ok_eq, Result-cases, >>=-eq-ok, or_throw-eq-ok, throw_if_passes,
  or_throw, not_found, bad_request,
}
use geeta_backend.Accounting.Fiscal.{FinanceSettings, FiscalCalendar}
use geeta_backend.Accounting.Voucher.{allocate_voucher_number}
use geeta_backend.Accounting.Calendar.{FiscalCoordinates}
use geeta_backend.Accounting.Journal.{
  SourceKey, PostEntryInput, PostingLineInput, JournalEntry, JournalLine, EntryStatus, Account,
  is_source, default_series,
}
use geeta_backend.Accounting.Posting.{
  Prepared, prepare, BookStore, PostResult, with_calendar, new_entry, post_tx, post, stored_line,
}
use geeta_backend.Accounting.Posting.Books.{IsBooks, IsBalanced, AreWhole}
use geeta_backend.Accounting.Posting.Stored.{IsWholeLine, IsStored, map-stored_line}
use geeta_backend.Accounting.Posting.Outcome.{Passed, post-cases}
use geeta_backend.Accounting.Reversal.{
  ReverseOptions, reverse, reversal_of, reversal_input, link_reversal, update_entry,
  with_reversal_of, as_reversed, mirror_lines, is_reversed,
}
use geeta_backend.Accounting.Reversal.Mirror.{IsChart, swap_line, prepare_lines-mirror_lines}

-- The entry that a first reversal of `original` posts, and the journal that it leaves.
pub record IsReversal (original : JournalEntry) (options : ReverseOptions)
    (before after : BookStore) (mirror : JournalEntry) : Type 0 where
  pub was_not : is_reversed original.status ≡ false
  pub id : mirror.id ≡ before.next_id
  pub entry_date : mirror.entry_date ≡ options.reversal_date
  pub source_key : mirror.source_key ≡ SourceKey.reversal original.id
  pub status : mirror.status ≡ EntryStatus.posted
  pub lines : mirror.lines ≡ map swap_line original.lines
  pub journal :
      after.journal
      ≡ update_entry original.id as_reversed
          (update_entry mirror.id (with_reversal_of original.id) (before.journal ++ mirror ∷ []))

-- Nothing with the key of the original's reversal is in the journal.
abbrev pub IsFirstReversal : JournalEntry → BookStore → Type 0
IsFirstReversal original s =
    find_first (is_source original.source_type (SourceKey.reversal original.id)) s.journal ≡ none

pub find_first-All :
    (P : JournalEntry → Type 0) (test : JournalEntry → _) (xs : List JournalEntry)
    (e : JournalEntry)
    → geeta_backend.Common.All P xs
    → find_first test xs ≡ some e
    → P e
find_first-All P test [] e h f = cc
find_first-All P test (x ∷ xs) e (here, h) f = elim (Bool-cases (test x)) [
  | inl k ↦ subst P (some_eq (rw k at f)) here
  | inr k ↦ find_first-All P test xs e h (rw k at f)
]

-- What `reversal_of` has checked and made.
pub reversal_of-ok :
    (chart : List Account) (id : ℕ) (options : ReverseOptions) (s : BookStore)
    (original : JournalEntry) (input : PostEntryInput)
    → reversal_of chart id options s ≡ ok (original, input)
    → (lines : List PostingLineInput) × (find_first (λ (e : JournalEntry). e.id == id) s.journal
        ≡ some original)
      × (is_reversed original.status ≡ false)
      × (mirror_lines chart original.lines ≡ ok lines)
      × (reversal_input original options lines ≡ input)
unfolding reversal_of
reversal_of-ok chart id options s original input h =
    let (o, found, r) =
      >>=-eq-ok (or_throw (find_first (λ (e : JournalEntry). e.id == id) s.journal) not_found) _
        h in
    let (open_, r2) = throw_if_passes (is_reversed o.status) bad_request _ r in
    let (lines, mirrored, eq) = >>=-eq-ok (mirror_lines chart o.lines) _ r2 in
    let pair = ok_eq eq in
    let same : o ≡ original = ap (λ (x : JournalEntry × PostEntryInput). x.0) pair in
    let inputs : reversal_input o options lines ≡ input =
      ap (λ (x : JournalEntry × PostEntryInput). x.1) pair in
    subst
      (λ (e : JournalEntry).
        (lines : List PostingLineInput) × (find_first (λ (e : JournalEntry). e.id == id) s.journal
          ≡ some e)
        × (is_reversed e.status ≡ false)
        × (mirror_lines chart e.lines ≡ ok lines)
        × (reversal_input e options lines ≡ input))
      same (lines, or_throw-eq-ok _ _ found, open_, mirrored, inputs)

-- The transaction of `post` for a source that is not in the journal.
abbrev fresh_post :
    SourceKey → PostEntryInput → FiscalCoordinates → Prepared → BookStore → PostResult × BookStore
fresh_post key input coords p s =
    let (voucher, sequences) =
      allocate_voucher_number
        record {
          series = get_or input.series (default_series input.source_type);
          fiscal_year = coords.fiscal_year;
        }
        s.sequences in
    let entry = new_entry s.next_id voucher coords key input p in
    (
      record { entry = entry; deduplicated = false },
      record {
        calendar = s.calendar;
        sequences = sequences;
        journal = s.journal ++ entry ∷ [];
        next_id = s.next_id + 1;
      },
    )

post_tx-fresh :
    (key : SourceKey) (input : PostEntryInput) (coords : FiscalCoordinates) (p : Prepared)
    (s : BookStore)
    → find_first (is_source input.source_type key) s.journal ≡ none
    → post_tx key input coords p s ≡ fresh_post key input coords p s
unfolding post_tx
post_tx-fresh key input coords p s h = rw (h, post_tx)

swapped-IsStored : (ls : List JournalLine) → All IsWholeLine ls → All IsStored (map swap_line ls)
swapped-IsStored [] h = tt
swapped-IsStored (l ∷ ls) ((a, b), h) =
    ((rounded-IsWhole l.credit b, rounded-IsWhole l.debit a), swapped-IsStored ls h)

fresh_post-IsReversal :
    (original : JournalEntry) (options : ReverseOptions) (lines : List PostingLineInput)
    (coords : FiscalCoordinates) (p : Prepared) (cal : FiscalCalendar) (s : BookStore)
    → is_reversed original.status ≡ false
    → p.lines ≡ map swap_line original.lines
    → AreWhole original
    → let done =
        fresh_post
          (SourceKey.reversal original.id)
          (reversal_input original options lines)
          coords
          p
          (with_calendar cal s) in
      IsReversal original options s (link_reversal done.0.entry.id original.id done.1) done.0.entry
unfolding link_reversal
fresh_post-IsReversal original options lines coords p cal s n l whole = record {
  was_not = n;
  id = refl;
  entry_date = refl;
  source_key = refl;
  status = refl;
  lines =
      ap (map stored_line) l
      ∙ map-stored_line (map swap_line original.lines) (swapped-IsStored original.lines whole);
  journal = refl;
}

-- The result of `reverse` once `post` has come to its transaction.
reverse-passed :
    (settings : FinanceSettings) (chart : List Account) (entry_id : ℕ) (options : ReverseOptions)
    (s : BookStore) (original : JournalEntry) (input : PostEntryInput)
    (done : PostResult × BookStore)
    → reversal_of chart entry_id options s ≡ ok (original, input)
    → post settings chart input s ≡ (ok done.0, done.1)
    → reverse settings chart entry_id options s
      ≡ (ok done.0.entry, link_reversal done.0.entry.id original.id done.1)
unfolding reverse
reverse-passed settings chart entry_id options s original input done r q = rw (
  r,
  reverse,
  ap (λ (x : Result PostResult × BookStore). x.0) q,
  ap (λ (x : Result PostResult × BookStore). x.1) q,
)

reverse-threw :
    (settings : FinanceSettings) (chart : List Account) (entry_id : ℕ) (options : ReverseOptions)
    (s s' : BookStore) (original : JournalEntry) (input : PostEntryInput) (e : ApiError)
    → reversal_of chart entry_id options s ≡ ok (original, input)
    → post settings chart input s ≡ (err e, s')
    → reverse settings chart entry_id options s ≡ (err e, s')
unfolding reverse
reverse-threw settings chart entry_id options s s' original input e r q = rw (
  r,
  reverse,
  ap (λ (x : Result PostResult × BookStore). x.0) q,
  ap (λ (x : Result PostResult × BookStore). x.1) q,
)

reverse-refused :
    (settings : FinanceSettings) (chart : List Account) (entry_id : ℕ) (options : ReverseOptions)
    (s : BookStore) (e : ApiError)
    → reversal_of chart entry_id options s ≡ err e
    → reverse settings chart entry_id options s ≡ (err e, s)
unfolding reverse
reverse-refused settings chart entry_id options s e r = rw (r, reverse)

not-ok :
    {e : ApiError} {m : JournalEntry} {s s' : BookStore}
    → Path (Result JournalEntry × BookStore) (err e, s) (ok m, s')
    → ⊥
not-ok h = cc (ap (λ (x : Result JournalEntry × BookStore). x.0) h)

reversal_of-original :
    (chart : List Account) (id : ℕ) (options : ReverseOptions) (s : BookStore)
    (o original : JournalEntry) (input : PostEntryInput)
    → find_first (λ (e : JournalEntry). e.id == id) s.journal ≡ some original
    → reversal_of chart id options s ≡ ok (o, input)
    → (lines : List PostingLineInput) × (is_reversed original.status ≡ false)
      × (mirror_lines chart original.lines ≡ ok lines)
      × (reversal_of chart id options s ≡ ok (original, reversal_input original options lines))
reversal_of-original chart id options s o original input found r =
    let (lines, found', n, mirrored, inputs) = reversal_of-ok chart id options s o input r in
    subst
      (λ (e : JournalEntry).
        (lines : List PostingLineInput) × (is_reversed e.status ≡ false)
        × (mirror_lines chart e.lines ≡ ok lines)
        × (reversal_of chart id options s ≡ ok (e, reversal_input e options lines)))
      (some_eq (sym found' ∙ found))
      (lines, n, mirrored, r ∙ ap (λ (i : PostEntryInput). ok (o, i)) (sym inputs))

IsReversal-eq :
    (original : JournalEntry) (options : ReverseOptions) (s : BookStore) {a : BookStore}
    {b : BookStore} {m : JournalEntry} {n : JournalEntry}
    → Path (Result JournalEntry × BookStore) (ok m, a) (ok n, b)
    → IsReversal original options s a m
    → IsReversal original options s b n
IsReversal-eq original options s {b = b} {m = m} h r =
    subst (λ (x : JournalEntry). IsReversal original options s b x)
      (ok_eq (ap (λ (x : Result JournalEntry × BookStore). x.0) h))
      (subst (λ (x : BookStore). IsReversal original options s x m)
        (ap (λ (x : Result JournalEntry × BookStore). x.1) h) r)

Passed-IsReversal :
    (settings : FinanceSettings) (chart : List Account) (entry_id : ℕ) (options : ReverseOptions)
    (s s' : BookStore) (original mirror : JournalEntry) (lines : List PostingLineInput)
    → Passed settings chart (reversal_input original options lines) s
    → IsBalanced original
    → AreWhole original
    → IsChart chart
    → IsFirstReversal original s
    → is_reversed original.status ≡ false
    → mirror_lines chart original.lines ≡ ok lines
    → reversal_of chart entry_id options s ≡ ok (original, reversal_input original options lines)
    → reverse settings chart entry_id options s ≡ (ok mirror, s')
    → IsReversal original options s s' mirror
Passed-IsReversal settings chart entry_id options s s' original mirror lines p balanced whole unique
      first n mirrored r done =
    let key : SourceKey.reversal original.id ≡ p.key = some_eq p.its_key in
    let prepared = ok_eq (
      sym (prepare_lines-mirror_lines chart original lines unique balanced mirrored)
      ∙ p.its_lines) in
    let cal = (prepare settings chart (reversal_input original options lines) s.calendar).1 in
    let post_tx_eq =
      ap
        (λ (k : SourceKey).
          post_tx k (reversal_input original options lines) p.coords p.prepared
            (with_calendar cal s))
        (sym key)
      ∙ post_tx-fresh (SourceKey.reversal original.id) (reversal_input original options lines)
          p.coords p.prepared (with_calendar cal s) first in
    let posted = p.posted ∙ ap (λ (x : PostResult × BookStore). (ok x.0, x.1)) post_tx_eq in
    let eq =
      sym (
        reverse-passed settings chart entry_id options s original
          (reversal_input original options lines) _ r posted)
      ∙ done in
    IsReversal-eq original options s eq (
      fresh_post-IsReversal original options lines p.coords p.prepared cal s n
        (sym (ap (λ (x : Prepared). x.lines) prepared)) whole)

-- When `reverse` succeeds for the first time on an entry, in books that satisfy the invariant and with
-- unique account ids and codes, then the entry was not reversed before, one entry was
-- added, POSTED and on the reversal date, with the original's lines with their sides swapped, it is
-- linked to the original, and the original is REVERSED; no other row of the journal changed.
pub reverse-IsReversal :
    (settings : FinanceSettings) (chart : List Account) (entry_id : ℕ) (options : ReverseOptions)
    (s s' : BookStore) (original mirror : JournalEntry)
    → IsBooks s
    → IsChart chart
    → find_first (λ (e : JournalEntry). e.id == entry_id) s.journal ≡ some original
    → IsFirstReversal original s
    → reverse settings chart entry_id options s ≡ (ok mirror, s')
    → IsReversal original options s s' mirror
reverse-IsReversal settings chart entry_id options s s' original mirror books unique found first
      done =
    elim (Result-cases (reversal_of chart entry_id options s)) [
      | inl (e, r) ↦
          absurd (not-ok (sym (reverse-refused settings chart entry_id options s e r) ∙ done))
      | inr ((o, input), r) ↦
          let (lines, n, mirrored, r') =
            reversal_of-original chart entry_id options s o original input found r in
          let balanced = find_first-All IsBalanced _ s.journal original books.balanced found in
          let whole = find_first-All AreWhole _ s.journal original books.whole found in
          elim (post-cases settings chart (reversal_input original options lines) s) [
            | inl t ↦ absurd (
                not-ok (
                  sym (
                    reverse-threw settings chart entry_id options s _ original _ t.error r'
                      t.thrown)
                  ∙ done))
            | inr p ↦
                Passed-IsReversal settings chart entry_id options s s' original mirror lines p
                  balanced whole unique first n mirrored r' done
          ]
    ]
