-- ===== src/Export/Queue/Listed.antt =====
-- How often an id is listed in a queue, and that no helper of the queue lists one twice.
use silk_studio.Prelude.{
  ℕ, ◌+◌, ◌≤◌, ◌≡◌, Bool, List, [], ◌∷◌, ◌++◌, Option, none, some, arith, if◌then◌else◌, drop,
  head?, find, ok,
}
use silk_studio.Export.Queue.Job.{ExportStatus, ExportJobState}
use silk_studio.Export.Queue.State.{
  QueueEntry, QueueState, has_id, was_id, snapshot_entry, take_active, promote_next, push_terminal,
  place, remove_id,
}

abbrev pub once_if : Bool → ℕ
once_if b = if b then 1 else 0

abbrev pub waits : ℕ → List QueueEntry → ℕ
waits i [] = 0
waits i (entry ∷ rest) = once_if (has_id i entry) + waits i rest

abbrev pub runs : ℕ → Option QueueEntry → ℕ
runs i none = 0
runs i (some entry) = once_if (has_id i entry)

abbrev pub ended : ℕ → List ExportJobState → ℕ
ended i [] = 0
ended i (entry ∷ rest) = once_if (was_id i entry) + ended i rest

-- The number of entries with the id: active, pending or in the history.
unfoldable pub listed : ℕ → QueueState → ℕ
listed i s = runs i s.active + waits i s.pending + ended i s.terminal_history

pub waits-append : (i : ℕ) (xs ys : List QueueEntry) → waits i (xs ++ ys) ≡ waits i xs + waits i ys
waits-append i [] ys = omega arith
waits-append i (x ∷ xs) ys = omega (arith, waits-append i xs ys)

pub ended-append :
    (i : ℕ) (xs ys : List ExportJobState) → ended i (xs ++ ys) ≡ ended i xs + ended i ys
ended-append i [] ys = omega arith
ended-append i (x ∷ xs) ys = omega (arith, ended-append i xs ys)

pub ended-drop-le : (i : ℕ) (xs : List ExportJobState) → ended i (drop 1 xs) ≤ ended i xs
ended-drop-le i [] = omega arith
ended-drop-le i (x ∷ xs) = omega arith

pub waits-head-drop :
    (i : ℕ) (xs : List QueueEntry) → runs i (head? xs) + waits i (drop 1 xs) ≡ waits i xs
waits-head-drop i [] = omega arith
waits-head-drop i (x ∷ xs) = omega arith

-- Removing the first entry with an id takes that entry out.
pub waits-remove_id :
    (i id : ℕ) (xs : List QueueEntry) {entry : QueueEntry}
    → find (has_id id) xs ≡ some entry
    → waits i (remove_id id xs) + once_if (has_id i entry) ≡ waits i xs
unfolding remove_id
waits-remove_id i id [] h = cc
waits-remove_id i id (x ∷ xs) {entry} h = ground (arith, waits-remove_id i id xs {entry = entry})

pub listed-promote_next : (i : ℕ) (s : QueueState) → listed i (promote_next s) ≡ listed i s
unfolding listed promote_next
listed-promote_next i s = ground (arith, waits-head-drop i s.pending)

-- A terminal record adds its entry's id at most.
pub listed-push_terminal-le :
    (i : ℕ) (s : QueueState) (entry : QueueEntry) (status : ExportStatus) (requested : Bool)
    (limit : ℕ)
    → listed i (push_terminal s entry status requested limit)
      ≤ listed i s + once_if (has_id i entry)
unfolding listed push_terminal
listed-push_terminal-le i s entry status requested limit = ground (
  arith,
  ended-drop-le i s.terminal_history,
  ended-append i s.terminal_history (snapshot_entry entry status requested ∷ []),
  ended-append i (drop 1 s.terminal_history) (snapshot_entry entry status requested ∷ []),
)

pub listed-take_active :
    (i id : ℕ) (s : QueueState) {entry : QueueEntry} {t : QueueState}
    → take_active s id ≡ ok (entry, t)
    → listed i t + once_if (has_id i entry) ≡ listed i s
unfolding listed take_active
listed-take_active i id s h = ground arith

pub listed-place :
    (i : ℕ) (entry : QueueEntry) (s : QueueState)
    → listed i (place entry s) ≡ listed i s + once_if (has_id i entry)
unfolding listed
listed-place i entry s = ground (arith, waits-append i s.pending (entry ∷ []))

-- Putting a taken entry back restores the state.
pub take_active_back :
    (id : ℕ) (s : QueueState) {entry : QueueEntry} {t : QueueState}
    → take_active s id ≡ ok (entry, t)
    → record t { active = some entry } ≡ s
unfolding take_active
take_active_back id s h = ground arith
