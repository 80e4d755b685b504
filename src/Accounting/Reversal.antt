-- ===== src/Accounting/Reversal.antt =====
-- services/accounting/posting.service.ts: `reverse`, which posts the mirror image of an entry.
pub mod Reached
pub mod Mirror
pub mod Outcome
pub mod Reported
use geeta_backend.Common.{
  ℕ, Bool, true, false, Option, none, some, List, [], ◌∷◌, map, find_first, ◌==◌, if◌then◌else◌,
}
use geeta_backend.Common.Result.{
  Result, err, ok, bad_request, not_found, internal, throw_if, or_throw, ◌>>=◌, ◌>>◌,
}
use geeta_backend.Accounting.Fiscal.{FinanceSettings, PostingDate}
use geeta_backend.Accounting.Journal.{
  SourceKey, PostingLineInput, PostEntryInput, JournalLine, EntryStatus, JournalEntry, Account,
}
use geeta_backend.Accounting.Posting.{no_tax, BookStore, PostResult, post}

-- The code of a line's account, which the query joins; the foreign key has it exist.
abbrev pub code_of : List Account → ℕ → Option ℕ
code_of [] id = none
code_of (a ∷ chart) id = if a.id == id then some a.code else code_of chart id

-- The callback of `original.lines.map`: the sides are swapped, the tax columns left out.
abbrev pub mirror_line : ℕ → JournalLine → PostingLineInput
mirror_line code line = record {
  account_code = code;
  debit = some line.credit;
  credit = some line.debit;
  dimensions = line.dimensions;
  tax = no_tax;
}

unfoldable pub mirror_lines : List Account → List JournalLine → Result (List PostingLineInput)
mirror_lines chart [] = ok []
mirror_lines chart (line ∷ rest) = or_throw (code_of chart line.account_id) internal >>= λ code.
    mirror_lines chart rest >>= λ others. ok (mirror_line code line ∷ others)

abbrev pub is_reversed : EntryStatus → Bool
is_reversed EntryStatus.reversed = true
is_reversed _ = false

-- The options of `reverse`, with the date that it reverses on; the reason is a text.
pub record ReverseOptions : Type 0 where
  pub user_id : ℕ
  pub reversal_date : PostingDate
  pub allow_closed_period : Bool

-- The argument of `post` in `reverse`.
abbrev pub reversal_input : JournalEntry → ReverseOptions → List PostingLineInput → PostEntryInput
reversal_input original options lines = record {
  entry_date = options.reversal_date;
  source_type = original.source_type;
  source_id = original.source_id;
  source_key = some (SourceKey.reversal original.id);
  lines = lines;
  party = original.party;
  series = none;
  created_by_user_id = some options.user_id;
  is_system_generated = some false;
  allow_closed_period = options.allow_closed_period;
}

-- The columns that `reverse` writes.
abbrev pub with_links : EntryStatus → Option ℕ → JournalEntry → JournalEntry
with_links status reversal_of e = record {
  id = e.id;
  voucher_number = e.voucher_number;
  entry_date = e.entry_date;
  coordinates = e.coordinates;
  source_type = e.source_type;
  source_id = e.source_id;
  source_key = e.source_key;
  status = status;
  party = e.party;
  total_debit = e.total_debit;
  total_credit = e.total_credit;
  reversal_of_id = reversal_of;
  is_system_generated = e.is_system_generated;
  created_by_user_id = e.created_by_user_id;
  lines = e.lines;
}

abbrev pub with_reversal_of : ℕ → JournalEntry → JournalEntry
with_reversal_of original e = with_links e.status (some original) e

abbrev pub as_reversed : JournalEntry → JournalEntry
as_reversed e = with_links EntryStatus.reversed e.reversal_of_id e

abbrev pub update_entry : ℕ → (JournalEntry → JournalEntry) → List JournalEntry → List JournalEntry
update_entry id f = map (λ (e : JournalEntry). if e.id == id then f e else e)

-- The transaction at the end of `reverse`.
unfoldable pub link_reversal : ℕ → ℕ → BookStore → BookStore
link_reversal mirror original s = record {
  calendar = s.calendar;
  sequences = s.sequences;
  journal =
      update_entry original as_reversed (update_entry mirror (with_reversal_of original) s.journal);
  next_id = s.next_id;
}

-- What `reverse` refuses before it posts.
unfoldable pub reversal_of :
    List Account → ℕ → ReverseOptions → BookStore → Result (JournalEntry × PostEntryInput)
reversal_of chart entry_id options s =
    or_throw (find_first (λ (e : JournalEntry). e.id == entry_id) s.journal) not_found
    >>= λ original. throw_if (is_reversed original.status) bad_request >>= λ _.
        mirror_lines chart original.lines >>= λ lines.
        ok (original, reversal_input original options lines)

-- `reverse`
unfoldable pub reverse :
    FinanceSettings
    → List Account
    → ℕ
    → ReverseOptions
    → BookStore
    → Result JournalEntry × BookStore
reverse settings chart entry_id options s = elim (reversal_of chart entry_id options s) [
  | err e ↦ (err e, s)
  | ok (original, input) ↦
      let posted = post settings chart input s in
      elim posted.0 [
        | err e ↦ (err e, posted.1)
        | ok r ↦ (ok r.entry, link_reversal r.entry.id original.id posted.1)
      ]
]
