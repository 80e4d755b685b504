-- ===== src/Accounting/Posting/Outcome.antt =====
-- The outcomes of `post`.
use geeta_backend.Common.{some, ◌≡◌, ◌⊎◌, inl, inr, Option-cases, List, Bool-cases, length, ltb}
use mathlib.Core.Path.{subst}
use geeta_backend.Common.Result.{ApiError, err, ok, >>=-eq-ok, ok_eq, Result-cases, internal}
use geeta_backend.Accounting.Calendar.{FiscalCoordinates}
use geeta_backend.Accounting.Fiscal.{FinanceSettings, FiscalCalendar, assert_postable}
use geeta_backend.Accounting.Journal.{SourceKey, PostEntryInput, Account}
use geeta_backend.Accounting.Posting.{
  Prepared, prepare_lines, prepare, BookStore, with_calendar, key_of, post_tx, post,
}

prepare-prepare_lines :
    (settings : FinanceSettings) (chart : List Account) (input : PostEntryInput)
    (cal : FiscalCalendar) (coords : FiscalCoordinates) (p : Prepared)
    → (prepare settings chart input cal).0 ≡ ok (coords, p)
    → prepare_lines chart input.lines ≡ ok p
unfolding prepare
prepare-prepare_lines settings chart input cal coords p e =
    elim (Bool-cases (ltb (length input.lines) 2)) [
      | inl k ↦ cc (rw k at e)
      | inr k ↦
          let (c, _, r) =
            >>=-eq-ok (assert_postable settings input.entry_date input.allow_closed_period cal).0 _
              (rw k at e) in
          let (q, found, eq) = >>=-eq-ok (prepare_lines chart input.lines) _ r in
          subst (λ (x : FiscalCoordinates × Prepared). prepare_lines chart input.lines ≡ ok x.1)
            (ok_eq eq) found
    ]

-- What a call that got to the transaction has passed.
pub record Passed (settings : FinanceSettings) (chart : List Account) (input : PostEntryInput)
    (s : BookStore) : Type 0 where
  pub key : SourceKey
  pub coords : FiscalCoordinates
  pub prepared : Prepared
  pub its_key : key_of input ≡ some key
  pub its_lines : prepare_lines chart input.lines ≡ ok prepared
  pub posted :
      let done =
        post_tx key input coords prepared
          (with_calendar (prepare settings chart input s.calendar).1 s) in
      post settings chart input s ≡ (ok done.0, done.1)

-- What a call that threw has done.
pub record Threw (settings : FinanceSettings) (chart : List Account) (input : PostEntryInput)
    (s : BookStore) : Type 0 where
  pub error : ApiError
  pub calendar : FiscalCalendar
  pub thrown : post settings chart input s ≡ (err error, with_calendar calendar s)

pub post-cases :
    (settings : FinanceSettings) (chart : List Account) (input : PostEntryInput) (s : BookStore)
    → Threw settings chart input s ⊎ Passed settings chart input s
unfolding post
post-cases settings chart input s = elim (Option-cases (key_of input)) [
  | inl k ↦ inl record { error = internal; calendar = s.calendar; thrown = rw (k, post) }
  | inr (key, k) ↦ elim (Result-cases (prepare settings chart input s.calendar).0) [
    | inl (e, r) ↦ inl record {
      error = e;
      calendar = (prepare settings chart input s.calendar).1;
      thrown = rw (k, post, r);
    }
    | inr ((coords, p), r) ↦ inr record {
      key = key;
      coords = coords;
      prepared = p;
      its_key = k;
      its_lines = prepare-prepare_lines settings chart input s.calendar coords p r;
      posted = rw (k, post, r);
    }
  ]
]
