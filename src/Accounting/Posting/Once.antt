-- ===== src/Accounting/Posting/Once.antt =====
-- A source document is posted once.
use geeta_backend.Common.{
  Bool, true, List, [], ◌∷◌, ◌++◌, find_first, ==_refl, ◌≡◌, refl, sym, ap, ◌∙◌, none, some, ◌⊎◌,
  inl, inr, Bool-cases, Option-cases, some_eq,
}
use mathlib.Core.Path.{subst}
use geeta_backend.Common.Result.{Result, ApiError, err, ok, ok_eq}
use geeta_backend.Accounting.Calendar.{FiscalCoordinates}
use geeta_backend.Accounting.Fiscal.{FinanceSettings}
use geeta_backend.Accounting.Journal.{
  SourceType, SourceKey, PostEntryInput, JournalEntry, Account, is_source, source_code,
  same_source_key,
}
use geeta_backend.Accounting.Posting.{
  Prepared, prepare, BookStore, PostResult, with_calendar, key_of, post_tx, post,
}
use geeta_backend.Accounting.Posting.Outcome.{post-cases}

same_source_key_refl : (k : SourceKey) → same_source_key k k ≡ true
same_source_key_refl (SourceKey.of_document a) = ==_refl a
same_source_key_refl (SourceKey.reversal a) = ==_refl a

-- Appending an entry that has the source, when none had it.
find_first-last :
    (test : JournalEntry → Bool) (xs : List JournalEntry) (e : JournalEntry)
    → find_first test xs ≡ none
    → test e ≡ true
    → find_first test (xs ++ e ∷ []) ≡ some e
find_first-last test [] e n h = rw h
find_first-last test (x ∷ xs) e n h = elim (Bool-cases (test x)) [
  | inl k ↦ cc (rw k at n)
  | inr k ↦ rw k (find_first-last test xs e (rw k at n) h)
]

post_tx-found :
    (key : SourceKey) (input : PostEntryInput) (coords : FiscalCoordinates) (p : Prepared)
    (s : BookStore)
    → let done = post_tx key input coords p s in
      find_first (is_source input.source_type key) done.1.journal ≡ some done.0.entry
unfolding post_tx is_source
post_tx-found key input coords p s =
    elim (Option-cases (find_first (is_source input.source_type key) s.journal)) [
      | inr (e, found) ↦ rw (post_tx, found) found
      | inl fresh ↦
          rw (post_tx, fresh)
            (find_first-last _ s.journal _ fresh
              (rw (is_source, ==_refl (source_code input.source_type)) (same_source_key_refl key)))
    ]

post_tx-duplicate :
    (key : SourceKey) (input : PostEntryInput) (coords : FiscalCoordinates) (p : Prepared)
    (s : BookStore) (e : JournalEntry)
    → find_first (is_source input.source_type key) s.journal ≡ some e
    → post_tx key input coords p s ≡ (record { entry = e; deduplicated = true }, s)
unfolding post_tx
post_tx-duplicate key input coords p s e found = rw (found, post_tx)

-- The source of a posted entry, and where it is found.
pub record Found (input : PostEntryInput) (entry : JournalEntry) (s : BookStore) : Type 0 where
  pub key : SourceKey
  pub its_key : key_of input ≡ some key
  pub found : find_first (is_source input.source_type key) s.journal ≡ some entry

pub post-Found :
    (settings : FinanceSettings) (chart : List Account) (input : PostEntryInput) (s s' : BookStore)
    (r : PostResult)
    → post settings chart input s ≡ (ok r, s')
    → Found input r.entry s'
post-Found settings chart input s s' r e = elim (post-cases settings chart input s) [
  | inl t ↦ cc (ap (λ (x : Result PostResult × BookStore). x.0) (sym t.thrown ∙ e))
  | inr p ↦
      let eq = sym p.posted ∙ e in
      let answer : _ ≡ r = ok_eq (ap (λ (x : Result PostResult × BookStore). x.0) eq) in
      let store : _ ≡ s' = ap (λ (x : Result PostResult × BookStore). x.1) eq in
      record {
        key = p.key;
        its_key = p.its_key;
        found =
            sym (
              ap (λ (b : BookStore). find_first (is_source input.source_type p.key) b.journal)
                store)
            ∙ post_tx-found p.key input p.coords p.prepared
                (with_calendar (prepare settings chart input s.calendar).1 s)
            ∙ ap (λ (a : PostResult). some a.entry) answer;
      }
]

-- A call of `post` that found the entry of the source, or that threw.
pub record IsNoOp (entry : JournalEntry) (s : BookStore) (again : Result PostResult × BookStore)
    : Type 0 where
  pub answer :
      ((e : ApiError) × (again.0 ≡ err e))
      ⊎ (again.0 ≡ ok record { entry = entry; deduplicated = true })
  pub journal : again.1.journal ≡ s.journal
  pub sequences : again.1.sequences ≡ s.sequences

-- After a call of `post` that returned an entry, a call with the same source type and key, whatever
-- its lines, date and options, either throws or answers with that entry as a duplicate; it adds
-- nothing to the journal and takes no voucher number.
pub post-post :
    (settings settings' : FinanceSettings) (chart chart' : List Account)
    (input input' : PostEntryInput) (s s' : BookStore) (r : PostResult)
    → post settings chart input s ≡ (ok r, s')
    → input'.source_type ≡ input.source_type
    → key_of input' ≡ key_of input
    → IsNoOp r.entry s' (post settings' chart' input' s')
post-post settings settings' chart chart' input input' s s' r e t k =
    elim (post-cases settings' chart' input' s') [
      | inl t ↦
          rw t.thrown record { answer = inl (t.error, refl); journal = refl; sequences = refl }
      | inr p ↦
          let f = post-Found settings chart input s s' r e in
          let key : f.key ≡ p.key = some_eq (sym f.its_key ∙ sym k ∙ p.its_key) in
          let found : find_first (is_source input'.source_type p.key) s'.journal ≡ some r.entry =
            subst (λ (t : SourceType). find_first (is_source t p.key) s'.journal ≡ some r.entry)
              (sym t)
              (subst
                (λ (q : SourceKey).
                  find_first (is_source input.source_type q) s'.journal ≡ some r.entry)
                key f.found) in
          rw
            (
              p.posted,
              post_tx-duplicate p.key input' p.coords p.prepared
                  (with_calendar (prepare settings' chart' input' s'.calendar).1 s') r.entry found,
            )
            record { answer = inr refl; journal = refl; sequences = refl }
    ]
