-- ===== src/Ledger/Wallet/Rows.antt =====
-- The wallet's row under `lockWallet` and under the update that follows it.
use geeta_backend.Common.{
  ℕ, Bool, true, false, Option, none, some, List, [], ◌∷◌, ◌++◌, map, elem, ◌==◌, ◌≡◌, refl, ap,
  sym, ◌∙◌, arith, if◌then◌else◌, Bool-cases, Option-cases, inl, inr, ==_refl, ==_iff, ==_sym, All,
}
use mathlib.Core.Path.{subst}
use geeta_backend.Common.Int.{ℤ, pos, ◌≤ℤ◌}
use geeta_backend.Ledger.Wallet.{Wallet, find_wallet, empty_wallet, lock_wallet, update_wallet}

abbrev pub wallet_ids : List Wallet → List ℕ
wallet_ids = map (λ (w : Wallet). w.id)

abbrev pub UniqueWallets : List Wallet → Type 0
UniqueWallets [] = Unit
UniqueWallets (w ∷ ws) = (elem w.id (wallet_ids ws) ≡ false) × UniqueWallets ws

-- The balance of a user, which is nothing before there is a wallet.
abbrev pub balance : Option Wallet → ℤ
balance none = pos 0
balance (some w) = w.current_balance

abbrev pub balance_of : ℕ → List Wallet → ℤ
balance_of user ws = balance (find_wallet user ws)

abbrev pub NonNegative : List Wallet → Type 0
NonNegative = All (λ (w : Wallet). pos 0 ≤ℤ w.current_balance)

pub balance_of-NonNegative :
    (user : ℕ) (ws : List Wallet) → NonNegative ws → pos 0 ≤ℤ balance_of user ws
balance_of-NonNegative user [] n = omega arith
balance_of-NonNegative user (w ∷ ws) n = elim (Bool-cases (w.user_id == user)) [
  | inl e ↦ rw e n.0
  | inr e ↦ rw e (balance_of-NonNegative user ws n.1)
]

some_eq : {a b : Wallet} → some a ≡ some b → a ≡ b
some_eq {a} h = ap (λ o. elim o [ none ↦ a | some x ↦ x ]) h

clash : {b : Bool} → b ≡ true → b ≡ false → ⊥
clash p q = cc (sym p ∙ q)

find_wallet-append :
    (v id user : ℕ) (ws : List Wallet)
    → find_wallet user ws ≡ none
    → find_wallet v (ws ++ empty_wallet id user ∷ [])
      ≡ (if user == v then some (empty_wallet id user) else find_wallet v ws)
find_wallet-append v id user [] h = refl
find_wallet-append v id user (w ∷ ws) h = ground (arith, find_wallet-append v id user ws)

elem-append_absent :
    (a id user : ℕ) (ws : List Wallet)
    → elem a (wallet_ids ws) ≡ false
    → (a == id) ≡ false
    → elem a (wallet_ids (ws ++ empty_wallet id user ∷ [])) ≡ false
elem-append_absent a id user [] h ne = rw ne
elem-append_absent a id user (w ∷ ws) h ne = elim (Bool-cases (a == w.id)) [
  | inl e ↦ cc (rw e at h)
  | inr e ↦ rw e (elem-append_absent a id user ws (rw e at h) ne)
]

append-UniqueWallets :
    (id user : ℕ) (ws : List Wallet)
    → UniqueWallets ws
    → elem id (wallet_ids ws) ≡ false
    → UniqueWallets (ws ++ empty_wallet id user ∷ [])
append-UniqueWallets id user [] u fresh = (refl, tt)
append-UniqueWallets id user (w ∷ ws) u fresh = elim (Bool-cases (id == w.id)) [
  | inl e ↦ cc (rw e at fresh)
  | inr e ↦ (
    elem-append_absent w.id id user ws u.0 (==_sym w.id id ∙ e),
    append-UniqueWallets id user ws u.1 (rw e at fresh),
  )
]

append-NonNegative :
    (id user : ℕ) (ws : List Wallet)
    → NonNegative ws
    → NonNegative (ws ++ empty_wallet id user ∷ [])
append-NonNegative id user [] h = omega arith
append-NonNegative id user (w ∷ ws) h = (h.0, append-NonNegative id user ws h.1)

-- What `lockWallet` gives: the user's row, in a table that differs only by that row.
pub record Locked (id user : ℕ) (ws : List Wallet) (locked : Wallet × List Wallet) : Type 0 where
  pub found : find_wallet user locked.1 ≡ some locked.0
  pub same : (v : ℕ) → balance_of v locked.1 ≡ balance_of v ws
  pub unique : UniqueWallets locked.1
  pub nonneg : NonNegative ws → NonNegative locked.1

Locked-new :
    (id user : ℕ) (ws : List Wallet)
    → find_wallet user ws ≡ none
    → UniqueWallets ws
    → elem id (wallet_ids ws) ≡ false
    → Locked id user ws (empty_wallet id user, ws ++ empty_wallet id user ∷ [])
Locked-new id user ws h u fresh = record {
  found = find_wallet-append user id user ws h ∙ rw (==_refl user);
  same = λ v.
      ap balance (find_wallet-append v id user ws h)
      ∙ elim (Bool-cases (user == v)) [ inl e ↦ rw (e, ← (==_iff _ _).0 e, h) | inr e ↦ rw e ];
  unique = append-UniqueWallets id user ws u fresh;
  nonneg = append-NonNegative id user ws;
}

pub lock_wallet-Locked :
    (id user : ℕ) (ws : List Wallet)
    → UniqueWallets ws
    → elem id (wallet_ids ws) ≡ false
    → Locked id user ws (lock_wallet id user ws)
unfolding lock_wallet
lock_wallet-Locked id user ws u fresh = elim (Option-cases (find_wallet user ws)) [
  | inl h ↦ rw h (Locked-new id user ws h u fresh)
  | inr (w, h) ↦ rw h (record { found = h; same = λ v. refl; unique = u; nonneg = λ n. n })
]

elem_found :
    (user : ℕ) (ws : List Wallet) {w : Wallet}
    → find_wallet user ws ≡ some w
    → elem w.id (wallet_ids ws) ≡ true
elem_found user [] h = cc
elem_found user (y ∷ ws) {w} h = elim (Bool-cases (y.user_id == user)) [
  | inl e ↦
      subst (λ (x : Wallet). elem x.id (wallet_ids (y ∷ ws)) ≡ true) (some_eq (rw e at h))
        (rw (==_refl y.id))
  | inr e ↦ elim (Bool-cases (w.id == y.id)) [
    | inl same ↦ rw same
    | inr other ↦ rw other (elem_found user ws (rw e at h))
  ]
]

update_wallet_absent :
    (i : ℕ) (f : Wallet → Wallet) (ws : List Wallet)
    → elem i (wallet_ids ws) ≡ false
    → update_wallet i f ws ≡ ws
update_wallet_absent i f [] h = refl
update_wallet_absent i f (w ∷ ws) h = elim (Bool-cases (i == w.id)) [
  | inl e ↦ cc (rw e at h)
  | inr e ↦ rw (==_sym w.id i ∙ e) (ap (λ us. w ∷ us) (update_wallet_absent i f ws (rw e at h)))
]

-- The update of the locked row.
module _ (w after : Wallet) (same_id : after.id ≡ w.id)
    (same_user : after.user_id ≡ w.user_id) where
  find_updated_here :
      (v : ℕ) (ws : List Wallet)
      → elem w.id (wallet_ids ws) ≡ false
      → find_wallet v (update_wallet w.id (λ _. after) (w ∷ ws))
        ≡ (if w.user_id == v then some after else find_wallet v (w ∷ ws))
  find_updated_here v ws h = rw (==_refl w.id) (elim (Bool-cases (w.user_id == v)) [
    | inl e ↦ rw (ap (λ u. u == v) same_user ∙ e, e)
    | inr e ↦
        rw (ap (λ u. u == v) same_user ∙ e, e)
          (ap (find_wallet v) (update_wallet_absent w.id (λ _. after) ws h))
  ])

  -- The update is seen through the user's wallet only.
  pub find_wallet-updated :
      (v : ℕ) (ws : List Wallet)
      → UniqueWallets ws
      → find_wallet w.user_id ws ≡ some w
      → find_wallet v (update_wallet w.id (λ _. after) ws)
        ≡ (if w.user_id == v then some after else find_wallet v ws)
  find_wallet-updated v [] u h = cc
  find_wallet-updated v (y ∷ ws) u h = elim (Bool-cases (y.user_id == w.user_id)) [
    | inl e ↦
        let p : y ≡ w = some_eq (rw e at h) in
        subst
          (λ (x : Wallet).
            find_wallet v (update_wallet w.id (λ _. after) (x ∷ ws))
            ≡ (if w.user_id == v then some after else find_wallet v (x ∷ ws)))
          (sym p)
          (find_updated_here v ws (subst (λ (x : Wallet). elem x.id (wallet_ids ws) ≡ false) p u.0))
    | inr e ↦
        let h' : find_wallet w.user_id ws ≡ some w = rw e at h in
        let ih = find_wallet-updated v ws u.1 h' in
        elim (Bool-cases (y.id == w.id)) [
          | inl k ↦ absurd (
              clash (elem_found w.user_id ws h')
                (subst (λ i. elem i (wallet_ids ws) ≡ false) ((==_iff _ _).0 k) u.0))
          | inr k ↦ rw k (elim (Bool-cases (y.user_id == v)) [
            | inl j ↦ let k' : (w.user_id == v) ≡ false = ground arith in rw (j, k')
            | inr j ↦ rw j ih
          ])
        ]
  ]

  -- So it keeps the ids of the table.
  pub ids-updated :
      (ws : List Wallet) → wallet_ids (update_wallet w.id (λ _. after) ws) ≡ wallet_ids ws
  ids-updated [] = refl
  ids-updated (y ∷ ws) = elim (Bool-cases (y.id == w.id)) [
    | inl e ↦ rw (e, same_id, ← (==_iff _ _).0 e) (ap (λ is. y.id ∷ is) (ids-updated ws))
    | inr e ↦ rw e (ap (λ is. y.id ∷ is) (ids-updated ws))
  ]

  pub updated-UniqueWallets :
      (ws : List Wallet) → UniqueWallets ws → UniqueWallets (update_wallet w.id (λ _. after) ws)
  updated-UniqueWallets [] u = tt
  updated-UniqueWallets (y ∷ ws) u = elim (Bool-cases (y.id == w.id)) [
    | inl e ↦
        let p : after.id ≡ y.id = same_id ∙ sym ((==_iff _ _).0 e) in
        rw e (
          subst (λ i. elem i (wallet_ids (update_wallet w.id (λ _. after) ws)) ≡ false) (sym p)
              (rw (ids-updated ws) u.0),
          updated-UniqueWallets ws u.1,
        )
    | inr e ↦ rw e (rw (ids-updated ws) u.0, updated-UniqueWallets ws u.1)
  ]

  pub updated-NonNegative :
      (ws : List Wallet)
      → NonNegative ws
      → pos 0 ≤ℤ after.current_balance
      → NonNegative (update_wallet w.id (λ _. after) ws)
  updated-NonNegative [] n h = tt
  updated-NonNegative (y ∷ ws) n h = elim (Bool-cases (y.id == w.id)) [
    | inl e ↦ rw e (h, updated-NonNegative ws n.1 h)
    | inr e ↦ rw e (n.0, updated-NonNegative ws n.1 h)
  ]
