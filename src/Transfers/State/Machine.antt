-- ===== src/Transfers/State/Machine.antt =====
-- The graph of the permitted transitions of transfer-task-state.ts, and the texts of the statuses.
use icedr.Prelude.{
  ◌≡◌, refl, sym, ◌↔◌, String, true, false, Option, none, some, arith, eq_iff, any, str_eq, subst,
  any_of_find?,
}
use icedr.Transfers.State.{
  transfer_task_statuses, TransferTaskStatus, pending, running, paused, completed, failed, expired,
  canceled, status_text, same_status, known_status, can_transition, can_transition_transfer_task,
  get_transfer_task_transition_sources, is_terminal_transfer_task_status,
  normalize_transfer_task_status, both_known,
}

pub same_status_iff : (s t : TransferTaskStatus) → (same_status s t ≡ true) ↔ (s ≡ t)
same_status_iff s t = ground arith

pub same_status_self : (s : TransferTaskStatus) → same_status s s ≡ true
same_status_self s = (same_status_iff s s).1 refl

known_status-literal : (s : TransferTaskStatus) → known_status (status_text s) ≡ some s
unfolding known_status
known_status-literal pending = refl
known_status-literal running = refl
known_status-literal paused = refl
known_status-literal completed = refl
known_status-literal failed = refl
known_status-literal expired = refl
known_status-literal canceled = refl

-- A text is read as a status exactly when it is that status's literal.
pub known_status_iff :
    (value : String) (s : TransferTaskStatus)
    → (known_status value ≡ some s) ↔ (value ≡ status_text s)
unfolding known_status
known_status_iff value s = (
  λ e. sym (
      (eq_iff (status_text s) value).0
        (any_of_find? (λ t. str_eq (status_text t) value) transfer_task_statuses e).0),
  λ e. rw e (known_status-literal s),
)

pub known_status-status_text : (s : TransferTaskStatus) → known_status (status_text s) ≡ some s
known_status-status_text s = known_status-literal s

pub normalize-status_text :
    (s : TransferTaskStatus) → normalize_transfer_task_status (status_text s) ≡ s
unfolding normalize_transfer_task_status
normalize-status_text s = rw (known_status-status_text s)

-- A task moves by permitted transitions, any number of them.
pub data Reach (s : TransferTaskStatus) : TransferTaskStatus → Type 0 where
  here : Reach s s
  step : {t u : TransferTaskStatus} → Reach s t → can_transition t u ≡ true → Reach s u

absorbing :
    (s t : TransferTaskStatus)
    → is_terminal_transfer_task_status s ≡ true
    → can_transition s t ≡ true
    → t ≡ s
unfolding can_transition
absorbing s t h k = ground arith

-- A completed, expired or canceled task stays as it is, whatever transitions follow.
Reach-terminal :
    {s t : TransferTaskStatus} → is_terminal_transfer_task_status s ≡ true → Reach s t → t ≡ s
Reach-terminal h here = refl
Reach-terminal {s} h (step {t} {u} r k) =
    let e = Reach-terminal h r in absorbing s u h (subst (λ v. can_transition v u ≡ true) e k)

Reach-running : (s : TransferTaskStatus) → can_transition s running ≡ true → Reach s running
Reach-running s h = step here h

-- From every status that is not terminal both cancellation and completion can be reached.
pub Reach-ends :
    (s : TransferTaskStatus)
    → is_terminal_transfer_task_status s ≡ false
    → Reach s canceled × Reach s completed
unfolding can_transition
Reach-ends pending h = (step here refl, step here refl)
Reach-ends running h = (step here refl, step here refl)
Reach-ends paused h = (step here refl, step (Reach-running paused refl) refl)
Reach-ends failed h = (step here refl, step (Reach-running failed refl) refl)
Reach-ends completed h = cc
Reach-ends expired h = cc
Reach-ends canceled h = cc

-- The sources of a status are the statuses from which the transition to it is permitted.
pub transition_sources_iff :
    (s t : TransferTaskStatus)
    → any (same_status s) (get_transfer_task_transition_sources t) ≡ can_transition s t
unfolding get_transfer_task_transition_sources
transition_sources_iff s t = ground arith

both_known_iff :
    (current next : String) (a b : Option TransferTaskStatus)
    → known_status current ≡ a
    → known_status next ≡ b
    → (both_known a b ≡ true) ↔ (
        (s : TransferTaskStatus) × (t : TransferTaskStatus) × (current ≡ status_text s)
        × (next ≡ status_text t)
        × (can_transition s t ≡ true))
both_known_iff current next (some s) (some t) p q = (
  λ h. (s, t, (known_status_iff current s).0 p, (known_status_iff next t).0 q, h),
  λ (s', t', e, f, h).
      cc (p, q, (known_status_iff current s').1 e, (known_status_iff next t').1 f, h),
)
both_known_iff current next none b p q =
    (λ h. cc, λ (s', t', e, f, h). cc (p, (known_status_iff current s').1 e))
both_known_iff current next (some s) none p q =
    (λ h. cc, λ (s', t', e, f, h). cc (q, (known_status_iff next t').1 f))

-- On texts: both are literals of statuses, and the transition between those is permitted.
pub can_transition_transfer_task_iff :
    (current next : String)
    → (can_transition_transfer_task current next ≡ true) ↔ (
        (s : TransferTaskStatus) × (t : TransferTaskStatus) × (current ≡ status_text s)
        × (next ≡ status_text t)
        × (can_transition s t ≡ true))
unfolding can_transition_transfer_task
can_transition_transfer_task_iff current next =
    both_known_iff current next (known_status current) (known_status next) refl refl
