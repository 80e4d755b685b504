-- ===== src/Accounting/Reversal/Reported.antt =====
-- What a reversal does to the reports, which read POSTED entries.
use geeta_backend.Common.{
  ℕ, ◌<◌, Bool, true, false, ◌&&◌, leb, List, [], ◌∷◌, ◌++◌, map, find_first, All, All-weaken, ◌==◌,
  ==_refl, ==_iff, ==_sym, ◌≡◌, refl, sym, ap, ◌∙◌, some, some_eq, inl, inr, Bool-cases,
  if◌then◌else◌, arith,
}
use mathlib.Core.Path.{subst}
use geeta_backend.Common.Result.{ok}
use geeta_backend.Common.Int.{ℤ, pos, ◌+ℤ◌, int_laws}
use geeta_backend.Accounting.Fiscal.{FinanceSettings, PostingDate}
use geeta_backend.Accounting.Journal.{JournalLine, JournalEntry, EntryStatus, Account}
use geeta_backend.Accounting.Posting.{BookStore}
use geeta_backend.Accounting.Posting.Books.{IsBooks, Distinct, same_id, IsNumbered}
use geeta_backend.Accounting.TrialBalance.{
  DateRange, is_reported, is_posted, reported_lines, group_sum,
}
use geeta_backend.Accounting.Reversal.{
  ReverseOptions, reverse, update_entry, with_reversal_of, as_reversed,
}
use geeta_backend.Accounting.Reversal.Mirror.{IsChart, swap_line, zero_plus}
use geeta_backend.Accounting.Reversal.Outcome.{
  IsReversal, IsFirstReversal, reverse-IsReversal, find_first-All,
}

group_sum-append :
    (side : JournalLine → ℤ) (account : ℕ) (xs ys : List JournalLine)
    → group_sum side account (xs ++ ys) ≡ group_sum side account xs +ℤ group_sum side account ys
group_sum-append side account [] ys = sym (zero_plus _)
group_sum-append side account (l ∷ ls) ys = elim (Bool-cases (l.account_id == account)) [
  | inl e ↦ rw (e, group_sum-append side account ls ys) (omega int_laws)
  | inr e ↦ rw (e, group_sum-append side account ls ys)
]

plus_assoc : (a b c : ℤ) → a +ℤ (b +ℤ c) ≡ a +ℤ b +ℤ c
plus_assoc a b c = omega int_laws

all_true : (a b c : Bool) → a && b ≡ true → c ≡ true → a && b && c ≡ true
all_true a b c x y = ground arith

plus_comm : (a b : ℤ) → a +ℤ b ≡ b +ℤ a
plus_comm a b = omega int_laws

plus_swap : (a b c : ℤ) → a +ℤ b +ℤ c ≡ a +ℤ (b +ℤ c)
plus_swap a b c = omega int_laws

find_first-id :
    (id : ℕ) (o : JournalEntry) (es : List JournalEntry)
    → find_first (λ (e : JournalEntry). e.id == id) es ≡ some o
    → o.id ≡ id
find_first-id id o [] h = cc
find_first-id id o (e ∷ es) h = elim (Bool-cases (e.id == id)) [
  | inl k ↦ sym (ap (λ (x : JournalEntry). x.id) (some_eq (rw k at h))) ∙ (==_iff e.id id).0 k
  | inr k ↦ find_first-id id o es (rw k at h)
]

-- An update touches no other row.
update_entry-others :
    (id : ℕ) (f : JournalEntry → JournalEntry) (es : List JournalEntry)
    → All (λ (e : JournalEntry). (e.id == id) ≡ false) es
    → update_entry id f es ≡ es
update_entry-others id f [] h = refl
update_entry-others id f (e ∷ es) (here, h) = rw (here, update_entry-others id f es h)

first_update :
    (e : JournalEntry) (es : List JournalEntry)
    → All (λ (y : JournalEntry). same_id e y ≡ false) es
    → update_entry e.id as_reversed (e ∷ es) ≡ as_reversed e ∷ es
first_update e es here = rw (
  ==_refl e.id,
  update_entry-others e.id as_reversed es (
      All-weaken _ _ es (λ (y : JournalEntry) (h : same_id e y ≡ false). ==_sym y.id e.id ∙ h)
        here),
)

-- The journal after a reversal: its own entry, with the new id, is the last.
updates-last :
    (k n : ℕ) (xs : List JournalEntry) (m : JournalEntry)
    → All (IsNumbered n) xs
    → m.id ≡ n
    → k < n
    → update_entry k as_reversed (update_entry m.id (with_reversal_of k) (xs ++ m ∷ []))
      ≡ update_entry k as_reversed xs ++ with_reversal_of k m ∷ []
updates-last k n [] m h e l =
    let other : (m.id == k) ≡ false = ground arith in rw (==_refl m.id, other)
updates-last k n (x ∷ xs) m (here, h) e l =
    let other : (x.id == m.id) ≡ false = ground arith in rw (other, updates-last k n xs m h e l)

-- A column of the swapped lines is the other column of the lines.
group_sum-swap_line :
    (side other : JournalLine → ℤ)
    → ((l : JournalLine) → side (swap_line l) ≡ other l)
    → (account : ℕ) (ls : List JournalLine)
    → group_sum side account (map swap_line ls) ≡ group_sum other account ls
group_sum-swap_line side other s account [] = refl
group_sum-swap_line side other s account (l ∷ ls) =
    rw (s l, group_sum-swap_line side other s account ls)

-- What the reports of a range show for an account, by either column.
module _ (range : DateRange) (side : JournalLine → ℤ) (account : ℕ) where
  abbrev pub reported : List JournalEntry → ℤ
  reported journal = group_sum side account (reported_lines range journal)

  -- What one entry adds.
  abbrev share : JournalEntry → ℤ
  share e = if is_reported range e then group_sum side account e.lines else pos 0

  reported-cons :
      (e : JournalEntry) (es : List JournalEntry) → reported (e ∷ es) ≡ share e +ℤ reported es
  unfolding reported_lines
  reported-cons e es = elim (Bool-cases (is_reported range e)) [
    | inl r ↦ rw (r, group_sum-append side account e.lines (reported_lines range es))
    | inr r ↦ rw r (sym (zero_plus _))
  ]

  reported-last :
      (es : List JournalEntry) (e : JournalEntry) → reported (es ++ e ∷ []) ≡ reported es +ℤ share e
  reported-last [] e = reported-cons e [] ∙ plus_comm (share e) (reported [])
  reported-last (x ∷ es) e =
      reported-cons x _
      ∙ ap (λ (z : ℤ). share x +ℤ z) (reported-last es e)
      ∙ plus_assoc (share x) (reported es) (share e)
      ∙ ap (λ (z : ℤ). z +ℤ share e) (sym (reported-cons x es))

  -- The columns that `reverse` writes on its own entry are not reported.
  share-with_reversal_of :
      (original : ℕ) (e : JournalEntry) → share (with_reversal_of original e) ≡ share e
  share-with_reversal_of original e = refl

  share-as_reversed : (e : JournalEntry) → share (as_reversed e) ≡ pos 0
  share-as_reversed e = elim (Bool-cases (leb range.from e.entry_date.time)) [
    | inl a ↦ elim (Bool-cases (leb e.entry_date.time range.to)) [
      | inl b ↦ rw (a, b)
      | inr b ↦ rw (a, b)
    ]
    | inr a ↦ rw a
  ]

  -- The entry that is reversed leaves the reports.
  reported-as_reversed :
      (id : ℕ) (o : JournalEntry) (es : List JournalEntry)
      → Distinct same_id es
      → find_first (λ (e : JournalEntry). e.id == id) es ≡ some o
      → reported (update_entry o.id as_reversed es) +ℤ share o ≡ reported es
  reported-as_reversed id o [] d f = cc
  reported-as_reversed id o (e ∷ es) (here, d) f = elim (Bool-cases (e.id == id)) [
    | inl k ↦
        let same : e ≡ o = some_eq (rw k at f) in
        subst
          (λ (x : JournalEntry).
            reported (update_entry x.id as_reversed (e ∷ es)) +ℤ share x ≡ reported (e ∷ es))
          same (first_removed e es here)
    | inr k ↦
        let rest = find_first-id id o es (rw k at f) in
        let kept : (e.id == o.id) ≡ false = subst (λ j. (e.id == j) ≡ false) (sym rest) k in
        rw kept (
          ap (λ (z : ℤ). z +ℤ share o) (reported-cons e _)
          ∙ plus_swap (share e) _ (share o)
          ∙ ap (λ (z : ℤ). share e +ℤ z) (reported-as_reversed id o es d (rw k at f))
          ∙ sym (reported-cons e es))
  ]
    where
      first_removed :
          (e : JournalEntry) (es : List JournalEntry)
          → All (λ (y : JournalEntry). same_id e y ≡ false) es
          → reported (update_entry e.id as_reversed (e ∷ es)) +ℤ share e ≡ reported (e ∷ es)
      first_removed e es here =
          ap (λ (ys : List JournalEntry). reported ys +ℤ share e) (first_update e es here)
          ∙ ap (λ (z : ℤ). z +ℤ share e)
              (reported-cons (as_reversed e) es
                ∙ ap (λ (z : ℤ). z +ℤ reported es) (share-as_reversed e)
                ∙ zero_plus _)
          ∙ plus_comm _ _
          ∙ sym (reported-cons e es)

  -- After a first reversal the reports have lost the original and gained the mirror entry.
  reported-IsReversal :
      (entry_id : ℕ) (options : ReverseOptions) (s s' : BookStore) (original mirror : JournalEntry)
      → IsBooks s
      → find_first (λ (e : JournalEntry). e.id == entry_id) s.journal ≡ some original
      → IsReversal original options s s' mirror
      → reported s'.journal +ℤ share original ≡ reported s.journal +ℤ share mirror
  reported-IsReversal entry_id options s s' original mirror books found r =
      let below : original.id < s.next_id =
        find_first-All (IsNumbered s.next_id) _ s.journal original books.numbered found in
      let shape =
        r.journal ∙ updates-last original.id s.next_id s.journal mirror books.numbered r.id below in
      ap (λ (ys : List JournalEntry). reported ys +ℤ share original) shape
      ∙ ap (λ (z : ℤ). z +ℤ share original)
          (reported-last (update_entry original.id as_reversed s.journal)
            (with_reversal_of original.id mirror))
      ∙ plus_swap _ _ _
      ∙ ap (λ (z : ℤ). reported (update_entry original.id as_reversed s.journal) +ℤ z)
          (plus_comm (share mirror) (share original))
      ∙ plus_assoc _ _ _
      ∙ ap (λ (z : ℤ). z +ℤ share mirror)
          (reported-as_reversed entry_id original s.journal books.ids found)

mirror-is_reported :
    (range : DateRange) (m : JournalEntry) (date : PostingDate)
    → m.entry_date ≡ date
    → m.status ≡ EntryStatus.posted
    → leb range.from date.time && leb date.time range.to ≡ true
    → is_reported range m ≡ true
mirror-is_reported range m date d p h =
    let at = ap (λ (x : PostingDate). leb range.from x.time && leb x.time range.to) d ∙ h in
    let st = ap is_posted p in
    all_true (leb range.from m.entry_date.time) (leb m.entry_date.time range.to)
      (is_posted m.status) at st

column :
    (range : DateRange) (account : ℕ) (side other : JournalLine → ℤ)
    → ((l : JournalLine) → side (swap_line l) ≡ other l)
    → (entry_id : ℕ) (options : ReverseOptions) (s s' : BookStore) (original mirror : JournalEntry)
    → IsBooks s
    → find_first (λ (e : JournalEntry). e.id == entry_id) s.journal ≡ some original
    → IsReversal original options s s' mirror
    → is_reported range original ≡ true
    → is_reported range mirror ≡ true
    → reported range side account s'.journal +ℤ group_sum side account original.lines
      ≡ reported range side account s.journal +ℤ group_sum other account original.lines
column range account side other sw entry_id options s s' original mirror books found r a b =
    let q =
      reported-IsReversal range side account entry_id options s s' original mirror books found r in
    let x : share range side account original ≡ group_sum side account original.lines = rw a in
    let y : share range side account mirror ≡ group_sum side account mirror.lines = rw b in
    ap (λ (z : ℤ). reported range side account s'.journal +ℤ z) (sym x)
    ∙ q
    ∙ ap (λ (z : ℤ). reported range side account s.journal +ℤ z)
        (y
          ∙ ap (group_sum side account) r.lines
          ∙ group_sum-swap_line side other sw account original.lines)

-- The two columns of the trial balance of one account.
pub record Reported (range : DateRange) (account : ℕ) (original : JournalEntry)
    (before after : BookStore) : Type 0 where
  pub debit :
      reported range (λ l. l.debit) account after.journal
        +ℤ group_sum (λ l. l.debit) account original.lines
      ≡ reported range (λ l. l.debit) account before.journal
        +ℤ group_sum (λ l. l.credit) account original.lines
  pub credit :
      reported range (λ l. l.credit) account after.journal
        +ℤ group_sum (λ l. l.credit) account original.lines
      ≡ reported range (λ l. l.credit) account before.journal
        +ℤ group_sum (λ l. l.debit) account original.lines

-- A first reversal changes the reports twice over: in a range that reports the original and contains the
-- reversal date, the debit column of every account loses the original's debits and also gains its
-- credits, and the credit column the other way round; so an account that the original moved by
-- x ends at -x, not at 0. Books satisfy the invariant, account ids and codes are unique.
pub reverse-Reported :
    (range : DateRange) (account : ℕ) (settings : FinanceSettings) (chart : List Account)
    (entry_id : ℕ) (options : ReverseOptions) (s s' : BookStore) (original mirror : JournalEntry)
    → IsBooks s
    → IsChart chart
    → find_first (λ (e : JournalEntry). e.id == entry_id) s.journal ≡ some original
    → IsFirstReversal original s
    → reverse settings chart entry_id options s ≡ (ok mirror, s')
    → is_reported range original ≡ true
    → leb range.from options.reversal_date.time && leb options.reversal_date.time range.to ≡ true
    → Reported range account original s s'
reverse-Reported range account settings chart entry_id options s s' original mirror books unique
      found first done shown dated =
    let r =
      reverse-IsReversal settings chart entry_id options s s' original mirror books unique found
        first done in
    let mirror_shown =
      mirror-is_reported range mirror options.reversal_date r.entry_date r.status dated in
    record {
      debit =
          column range account (λ l. l.debit) (λ l. l.credit) (λ l. refl) entry_id options s s'
            original mirror books found r shown mirror_shown;
      credit =
          column range account (λ l. l.credit) (λ l. l.debit) (λ l. refl) entry_id options s s'
            original mirror books found r shown mirror_shown;
    }
