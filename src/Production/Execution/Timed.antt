-- ===== src/Production/Execution/Timed.antt =====
-- The sessions of a task: one is active at most, and its times add up.
use geeta_backend.Common.{
  ℕ, ◌+◌, ◌≤◌, true, false, not, Option, none, some, List, [], ◌∷◌, map, All, find_first,
  update_first, ◌==◌, ==_refl, ◌≡◌, refl, sym, ◌∙◌, inl, inr, Bool-cases, if◌then◌else◌, arith,
}
use mathlib.Core.Path.{subst}
use geeta_backend.Ledger.Types.{get_or}
use geeta_backend.Workflow.TaskStatus.{TaskStatus}
use geeta_backend.Workflow.Store.{SessionStatus}
use geeta_backend.Production.Execution.{
  IntervalType, Interval, SessionTotals, Session, Execution, session_code, interval_code,
  duration_seconds, accumulate_duration, compute_total_duration, close_interval,
  close_active_interval, open_interval, is_active, update_active,
}

-- The intervals, newest first, follow each other from one instant to another, each closed with its
-- own duration.
abbrev pub Covers : ℕ → ℕ → List Interval → Type 0
Covers from to [] = from ≡ to
Covers from to (i ∷ rest) =
    (i.ended_at ≡ some to)
    × (i.duration_seconds ≡ some (duration_seconds i.started_at to))
    × (i.started_at ≤ to)
    × Covers from i.started_at rest

-- The seconds that the closed intervals of a type have logged.
abbrev pub logged : IntervalType → List Interval → ℕ
logged type [] = 0
logged type (i ∷ rest) =
    let others = logged type rest in
    if interval_code i.type == interval_code type
    then get_or i.duration_seconds 0 + others
    else others

pub record AddsUp (t : SessionTotals) (intervals : List Interval) : Type 0 where
  pub working : t.working ≡ logged IntervalType.working intervals
  pub paused : t.paused ≡ logged IntervalType.paused intervals
  pub hold : t.hold ≡ logged IntervalType.hold intervals

-- An active session: the newest interval is open, the others cover the time since the start.
pub record IsRunning (type : IntervalType) (s : Session) : Type 0 where
  pub since : ℕ
  pub closed : List Interval
  pub intervals : s.intervals ≡ open_interval type since ∷ closed
  pub active_started_at : s.active_started_at ≡ some since
  pub active_type : s.active_type ≡ some type
  pub covers : Covers s.started_at since closed
  pub adds_up : AddsUp s.totals closed

-- A completed session: its intervals cover the time from start to end.
pub record IsFinished (s : Session) : Type 0 where
  pub end : ℕ
  pub completed_at : s.completed_at ≡ some end
  pub covers : Covers s.started_at end s.intervals
  pub adds_up : AddsUp s.totals s.intervals
  pub total : s.total_duration ≡ compute_total_duration s.totals

abbrev pub IsTimedAs : SessionStatus → Session → Type 0
IsTimedAs SessionStatus.in_progress s = IsRunning IntervalType.working s
IsTimedAs SessionStatus.paused s = IsRunning IntervalType.paused s
IsTimedAs SessionStatus.on_hold s = IsRunning IntervalType.hold s
IsTimedAs SessionStatus.completed s = IsFinished s

abbrev pub IsTimed : Session → Type 0
IsTimed s = IsTimedAs s.status s

abbrev pub IsInactive : Session → Type 0
IsInactive s = is_active s ≡ false

-- Only the newest session may be active.
abbrev pub OneActive : List Session → Type 0
OneActive [] = Unit
OneActive (_ ∷ rest) = All IsInactive rest

abbrev pub status_of : SessionStatus → TaskStatus
status_of SessionStatus.in_progress = TaskStatus.in_progress
status_of SessionStatus.paused = TaskStatus.paused
status_of SessionStatus.on_hold = TaskStatus.on_hold
status_of SessionStatus.completed = TaskStatus.completed

-- The task has the status of its active session.
abbrev pub Agrees : TaskStatus → Option Session → Type 0
Agrees status none = Unit
Agrees status (some s) = status_of s.status ≡ status

pub record IsOrderly (status : TaskStatus) (sessions : List Session) : Type 0 where
  pub timed : All IsTimed sessions
  pub one_active : OneActive sessions
  pub agrees : Agrees status (find_first is_active sessions)

abbrev pub IsExecution : Execution → Type 0
IsExecution e = IsOrderly e.status e.sessions

-- The clock does not stand before the start of an open interval.
abbrev pub HasBegun : ℕ → Option ℕ → Type 0
HasBegun now none = Unit
HasBegun now (some t) = t ≤ now

abbrev pub IsBefore : ℕ → Session → Type 0
IsBefore now s = HasBegun now s.active_started_at

closed_already :
    (type : IntervalType) (now seconds from to : ℕ) (xs : List Interval)
    → Covers from to xs
    → map (close_interval type now seconds) xs ≡ xs
closed_already type now seconds from to [] h = refl
closed_already type now seconds from to (i ∷ xs) (e, _, _, h) =
    rw (e, closed_already type now seconds from i.started_at xs h)

-- What `closeActiveInterval` gives for an active session.
pub record IsClosed (now : ℕ) (s : Session) (c : SessionTotals × List Interval) : Type 0 where
  pub covers : Covers s.started_at now c.1
  pub adds_up : AddsUp c.0 c.1

accumulate_duration-AddsUp :
    (type : IntervalType) (since now : ℕ) (t : SessionTotals) (closed : List Interval)
    → AddsUp t closed
    → AddsUp (accumulate_duration type (duration_seconds since now) t) (
        record {
          type = type;
          started_at = since;
          ended_at = some now;
          duration_seconds = some (duration_seconds since now);
        }
        ∷ closed)
unfolding accumulate_duration
accumulate_duration-AddsUp IntervalType.working since now t closed h = record {
  working = omega (arith, h.working);
  paused = h.paused;
  hold = h.hold;
}
accumulate_duration-AddsUp IntervalType.paused since now t closed h = record {
  working = h.working;
  paused = omega (arith, h.paused);
  hold = h.hold;
}
accumulate_duration-AddsUp IntervalType.hold since now t closed h = record {
  working = h.working;
  paused = h.paused;
  hold = omega (arith, h.hold);
}

close_active_interval-IsClosed :
    (type : IntervalType) (now : ℕ) (s : Session)
    → IsRunning type s
    → IsBefore now s
    → IsClosed now s (close_active_interval now s)
unfolding close_active_interval
close_active_interval-IsClosed type now s h b =
    let since_now : h.since ≤ now = subst (HasBegun now) h.active_started_at b in
    rw
      (
        h.active_started_at,
        h.active_type,
        h.intervals,
        ==_refl (interval_code type),
        closed_already type now (duration_seconds h.since now) s.started_at h.since h.closed
            h.covers,
      )
      record {
        covers = (refl, refl, since_now, h.covers);
        adds_up = accumulate_duration-AddsUp type h.since now s.totals h.closed h.adds_up;
      }

-- Whatever the session's status, if it is active.
pub active-IsClosed :
    (now : ℕ) (s : Session)
    → IsTimed s
    → is_active s ≡ true
    → IsBefore now s
    → IsClosed now s (close_active_interval now s)
active-IsClosed now s h a b = status-IsClosed s.status h a
  where
    status-IsClosed :
        (st : SessionStatus)
        → IsTimedAs st s
        → not (session_code st == 3) ≡ true
        → IsClosed now s (close_active_interval now s)
    status-IsClosed SessionStatus.in_progress h a =
        close_active_interval-IsClosed IntervalType.working now s h b
    status-IsClosed SessionStatus.paused h a =
        close_active_interval-IsClosed IntervalType.paused now s h b
    status-IsClosed SessionStatus.on_hold h a =
        close_active_interval-IsClosed IntervalType.hold now s h b
    status-IsClosed SessionStatus.completed h a = cc

-- An update of the active session.
module _ (now : ℕ) (f : Session → Session)
    (timed : (s : Session) → IsClosed now s (close_active_interval now s) → IsTimed (f s)) where
  pub update_first-IsTimed :
      (xs : List Session)
      → All IsTimed xs
      → All (IsBefore now) xs
      → All IsTimed (update_first is_active f xs)
  update_first-IsTimed [] h b = tt
  update_first-IsTimed (x ∷ xs) (here, h) (begun, b) = elim (Bool-cases (is_active x)) [
    | inl a ↦ rw a (timed x (active-IsClosed now x here a begun), h)
    | inr a ↦ rw a (here, update_first-IsTimed xs h b)
  ]

pub no_active :
    (f : Session → Session) (xs : List Session)
    → All IsInactive xs
    → update_first is_active f xs ≡ xs
no_active f [] h = refl
no_active f (x ∷ xs) (here, h) = rw (here, no_active f xs h)

pub none_found : (xs : List Session) → All IsInactive xs → find_first is_active xs ≡ none
none_found [] h = refl
none_found (x ∷ xs) (here, h) = rw (here, none_found xs h)

-- The active session is the newest.
head_active :
    (x : Session) (xs : List Session) (s : Session)
    → All IsInactive xs
    → find_first is_active (x ∷ xs) ≡ some s
    → is_active x ≡ true
head_active x xs s h found = elim (Bool-cases (is_active x)) [
  | inl a ↦ a
  | inr a ↦ cc (sym (none_found xs h) ∙ (rw a at found))
]

-- An update of the active session, found before, to one with this status.
module _ (now : ℕ) (f : Session → Session)
    (timed : (s : Session) → IsClosed now s (close_active_interval now s) → IsTimed (f s)) where
  pub switched-IsExecution :
      (e : Execution) (status : TaskStatus) (s : Session)
      → ((x : Session) → Agrees status (some (f x)))
      → IsExecution e
      → All (IsBefore now) e.sessions
      → find_first is_active e.sessions ≡ some s
      → ((x : Session) → is_active (f x) ≡ true)
      → IsExecution (record (update_active f e) { status = status })
  switched-IsExecution e status s agrees h b found stays =
      go e.sessions h.timed h.one_active b found
    where
      go :
          (xs : List Session)
          → All IsTimed xs
          → OneActive xs
          → All (IsBefore now) xs
          → find_first is_active xs ≡ some s
          → IsExecution (record e { status = status; sessions = update_first is_active f xs })
      go [] t o b found = cc
      go (x ∷ xs) t o b found =
          let a = head_active x xs s o found in
          let t' = update_first-IsTimed now f timed (x ∷ xs) t b in
          rw a record { timed = rw a at t'; one_active = o; agrees = rw (stays x) (agrees x) }

  pub completed-IsExecution :
      (e : Execution) (status : TaskStatus)
      → IsExecution e
      → All (IsBefore now) e.sessions
      → ((x : Session) → is_active (f x) ≡ false)
      → IsExecution (record (update_active f e) { status = status })
  completed-IsExecution e status h b ends = go e.sessions h.timed h.one_active b
    where
      go :
          (xs : List Session)
          → All IsTimed xs
          → OneActive xs
          → All (IsBefore now) xs
          → IsExecution (record e { status = status; sessions = update_first is_active f xs })
      go [] t o b = record { timed = tt; one_active = tt; agrees = tt }
      go (x ∷ xs) t o b =
          let t' = update_first-IsTimed now f timed (x ∷ xs) t b in
          elim (Bool-cases (is_active x)) [
            | inl a ↦ rw a record {
              timed = rw a at t';
              one_active = o;
              agrees = rw (ends x, none_found xs o) tt;
            }
            | inr a ↦
                rw (a, no_active f xs o)
                  record { timed = t; one_active = o; agrees = rw (a, none_found xs o) tt }
          ]
