-- ===== src/Production/Execution/Bounds.antt =====
-- The whole seconds that a session logs, against the time it took.
use geeta_backend.Common.{
  true, ℕ, ◌+◌, ◌*◌, ◌≤◌, List, [], ◌∷◌, length, ◌≡◌, refl, ap, ◌∙◌, arith, ◌==◌, if◌then◌else◌,
}
use geeta_backend.Ledger.Types.{get_or}
use geeta_backend.Production.Execution.{
  IntervalType, Interval, Session, interval_code, compute_total_duration, is_active,
  complete_session, close_active_interval,
}
use geeta_backend.Production.Execution.Timed.{Covers, logged, IsTimed, IsBefore, active-IsClosed}

-- All closed intervals together.
abbrev logged_seconds : List Interval → ℕ
logged_seconds [] = 0
logged_seconds (i ∷ rest) = get_or i.duration_seconds 0 + logged_seconds rest

interval_code_le : (t : IntervalType) → interval_code t ≤ 2
interval_code_le t = ground arith

-- A duration is logged once.
spread :
    (k d a b c : ℕ)
    → k ≤ 2
    → (if k == 0 then d + a else a) + (if k == 1 then d + b else b) + (if k == 2 then d + c else c)
      ≡ d + (a + b + c)
spread k d a b c h = ground arith

logged-logged_seconds :
    (xs : List Interval)
    → logged IntervalType.working xs + logged IntervalType.paused xs + logged IntervalType.hold xs
      ≡ logged_seconds xs
logged-logged_seconds [] = refl
logged-logged_seconds (i ∷ xs) =
    spread (interval_code i.type) (get_or i.duration_seconds 0) _ _ _ (interval_code_le i.type)
    ∙ ap (λ n. get_or i.duration_seconds 0 + n) (logged-logged_seconds xs)

Covers-bounds :
    (from to : ℕ) (xs : List Interval)
    → Covers from to xs
    → (logged_seconds xs * 1000 + from ≤ to)
      × (to ≤ logged_seconds xs * 1000 + from + 999 * length xs)
Covers-bounds from to [] h = (omega (arith, h), omega (arith, h))
Covers-bounds from to (i ∷ xs) (e, d, l, h) =
    let (low, high) = Covers-bounds from i.started_at xs h in rw d (omega arith, omega arith)

-- Completing an active session whose intervals follow each other, with a clock that has not gone
-- back, stores a total that is at most the time since its start, and short of it by less
-- than a second for each of its intervals.
pub complete_session-bounds :
    (now : ℕ) (s : Session)
    → IsTimed s
    → is_active s ≡ true
    → IsBefore now s
    → let done = complete_session now s in
      (done.total_duration * 1000 + s.started_at ≤ now)
      × (now ≤ done.total_duration * 1000 + s.started_at + 999 * length done.intervals)
unfolding complete_session
complete_session-bounds now s timed active begun =
    let h = active-IsClosed now s timed active begun in
    let (low, high) = Covers-bounds s.started_at now (close_active_interval now s).1 h.covers in
    let total : compute_total_duration (close_active_interval now s).0
        ≡ logged_seconds (close_active_interval now s).1 =
      omega (
        arith,
        h.adds_up.working,
        h.adds_up.paused,
        h.adds_up.hold,
        logged-logged_seconds (close_active_interval now s).1,
      ) in
    (omega arith, omega arith)
