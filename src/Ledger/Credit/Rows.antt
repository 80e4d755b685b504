-- ===== src/Ledger/Credit/Rows.antt =====
-- The rows of the credit accounts, under the update of one of them.
use geeta_backend.Common.{
  ℕ, Bool, true, false, some, List, [], ◌∷◌, map, elem, find_first, ◌==◌, ◌≡◌, sym, ◌∙◌, Bool-cases,
  inl, inr, ==_refl, ==_iff, ==_sym, All, some_eq,
}
use mathlib.Core.Path.{subst}
use geeta_backend.Ledger.Credit.{CreditAccount, update_account}

abbrev pub account_ids : List CreditAccount → List ℕ
account_ids = map (λ (a : CreditAccount). a.id)

abbrev pub UniqueAccounts : List CreditAccount → Type 0
UniqueAccounts [] = Unit
UniqueAccounts (a ∷ rows) = (elem a.id (account_ids rows) ≡ false) × UniqueAccounts rows

-- The account is the only row with its id.
abbrev pub Sole : CreditAccount → List CreditAccount → Type 0
Sole a = All (λ (x : CreditAccount). (x.id == a.id) ≡ true → x ≡ a)

clash : {b : Bool} → b ≡ true → b ≡ false → ⊥
clash p q = cc (sym p ∙ q)

absent-Sole :
    (a : CreditAccount) (rows : List CreditAccount)
    → elem a.id (account_ids rows) ≡ false
    → Sole a rows
absent-Sole a [] h = tt
absent-Sole a (x ∷ rows) h = elim (Bool-cases (a.id == x.id)) [
  | inl e ↦ cc (rw e at h)
  | inr e ↦ (λ p. cc (sym p ∙ ==_sym x.id a.id ∙ e), absent-Sole a rows (rw e at h))
]

found-elem :
    (p : CreditAccount → Bool) (a : CreditAccount) (rows : List CreditAccount)
    → find_first p rows ≡ some a
    → elem a.id (account_ids rows) ≡ true
found-elem p a [] h = cc
found-elem p a (x ∷ rows) h = elim (Bool-cases (p x)) [
  | inl e ↦
      let q : x ≡ a = some_eq (rw e at h) in
      subst (λ (y : CreditAccount). elem y.id (account_ids (x ∷ rows)) ≡ true) q (rw (==_refl x.id))
  | inr e ↦ elim (Bool-cases (a.id == x.id)) [
    | inl k ↦ rw k
    | inr k ↦ rw k (found-elem p a rows (rw e at h))
  ]
]

pub found-Sole :
    (p : CreditAccount → Bool) (a : CreditAccount) (rows : List CreditAccount)
    → UniqueAccounts rows
    → find_first p rows ≡ some a
    → Sole a rows
found-Sole p a [] u h = tt
found-Sole p a (x ∷ rows) u h = elim (Bool-cases (p x)) [
  | inl e ↦
      let q : x ≡ a = some_eq (rw e at h) in
      (
        λ _. q,
        absent-Sole a rows
            (subst (λ (y : CreditAccount). elem y.id (account_ids rows) ≡ false) q u.0),
      )
  | inr e ↦
      let h' : find_first p rows ≡ some a = rw e at h in
      (
        λ k. absurd (
            clash (found-elem p a rows h')
              (subst (λ i. elem i (account_ids rows) ≡ false) ((==_iff _ _).0 k) u.0)),
        found-Sole p a rows u.1 h',
      )
]

pub found-All :
    (P : CreditAccount → Type 0) (p : CreditAccount → Bool) (a : CreditAccount)
    (rows : List CreditAccount)
    → All P rows
    → find_first p rows ≡ some a
    → P a
found-All P p a [] n h = cc
found-All P p a (x ∷ rows) n h = elim (Bool-cases (p x)) [
  | inl e ↦ subst P (some_eq (rw e at h)) n.0
  | inr e ↦ found-All P p a rows n.1 (rw e at h)
]

-- An update of the only row with the id.
pub All-update_account :
    (P : CreditAccount → Type 0) (a : CreditAccount) (f : CreditAccount → CreditAccount)
    (rows : List CreditAccount)
    → Sole a rows
    → P (f a)
    → All P rows
    → All P (update_account a.id f rows)
All-update_account P a f [] sole new n = tt
All-update_account P a f (x ∷ rows) sole new n = elim (Bool-cases (x.id == a.id)) [
  | inl e ↦
      rw e (subst (λ y. P (f y)) (sym (sole.0 e)) new, All-update_account P a f rows sole.1 new n.1)
  | inr e ↦ rw e (n.0, All-update_account P a f rows sole.1 new n.1)
]
