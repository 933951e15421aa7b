-- ===== src/Storage/Integrity/Runner/Wakeups.antt =====
-- No request for a claim is lost, and none is begun after the end.
use icedr.Prelude.{
  ℕ, ◌≤◌, ◌≡◌, refl, Bool, true, false, not, ◌&&◌, ◌||◌, List, [], ◌∷◌, if◌then◌else◌, ltb, arith,
  Bool-cases, inl, inr, subst, sym, ap, ◌<◌,
}
use icedr.Storage.Integrity.Runner.Loop.{
  LoopPhase, idle, claiming, running, finishing, RunnerLoop, is_idle, loop_again, kick, LoopEvent,
  kicked, claimed_task, claimed_nothing, task_ended, threw, loop_ended, destroys, after_nothing,
  after_end, in_phase, run_loop,
}

-- A claim more than so many was begun, or one is still asked for while the loop runs.
abbrev will_claim : ℕ → RunnerLoop → Bool
will_claim n s = s.destroyed || ltb n s.claims || s.requested && not (is_idle s.phase)

loop_again-will_claim : (n : ℕ) (s : RunnerLoop) → n ≤ s.claims → will_claim n (loop_again s) ≡ true
loop_again-will_claim n s l = elim (Bool-cases s.destroyed) [
  | inl d ↦ rw d refl
  | inr d ↦ rw d (ground arith)
]

kick-will_claim : (n : ℕ) (s : RunnerLoop) → n ≤ s.claims → will_claim n (kick s) ≡ true
unfolding kick
kick-will_claim n s l = elim (Bool-cases s.destroyed) [
  | inl d ↦ rw (kick, d) refl
  | inr d ↦ elim (Bool-cases (is_idle s.phase)) [
    | inl i ↦ rw (kick, d, i) (ground arith)
    | inr i ↦ rw (kick, d, i) (ground arith)
  ]
]

loop_again-claims : (n : ℕ) (s : RunnerLoop) → n ≤ s.claims → n ≤ (loop_again s).claims
loop_again-claims n s l = elim (Bool-cases s.destroyed) [
  | inl d ↦ rw d l
  | inr d ↦ rw d (omega arith)
]

kick-claims : (n : ℕ) (s : RunnerLoop) → n ≤ s.claims → n ≤ (kick s).claims
unfolding kick
kick-claims n s l = elim (Bool-cases s.destroyed) [
  | inl d ↦ rw (kick, d) l
  | inr d ↦ elim (Bool-cases (is_idle s.phase)) [
    | inl i ↦ rw (kick, d, i) (omega arith)
    | inr i ↦ rw (kick, d, i) l
  ]
]

-- What the events keep of a request.
IsPending : ℕ → RunnerLoop → Type 0
IsPending n s = (n ≤ s.claims) × (will_claim n s ≡ true)

loop_again-IsPending : (n : ℕ) (s : RunnerLoop) → n ≤ s.claims → IsPending n (loop_again s)
unfolding IsPending
loop_again-IsPending n s l = (loop_again-claims n s l, loop_again-will_claim n s l)

kick-IsPending : (n : ℕ) (s : RunnerLoop) → n ≤ s.claims → IsPending n (kick s)
unfolding IsPending
kick-IsPending n s l = (kick-claims n s l, kick-will_claim n s l)

nothing-IsPending : (n : ℕ) (s : RunnerLoop) → IsPending n s → IsPending n (after_nothing s)
unfolding IsPending
nothing-IsPending n s (l, w) = elim (Bool-cases s.requested) [
  | inl r ↦
      subst (λ b. IsPending n (if not b then record s { phase = finishing } else loop_again s))
        (sym r) (loop_again-IsPending n s l)
  | inr r ↦ rw r (l, ground arith)
]

end-IsPending : (n : ℕ) (s : RunnerLoop) → IsPending n s → IsPending n (after_end s)
unfolding IsPending
end-IsPending n s (l, w) = elim (Bool-cases (s.requested && not s.destroyed)) [
  | inl r ↦
      subst
        (λ b.
          IsPending n (if b then kick (record s { phase = idle }) else record s { phase = idle }))
        (sym r) (kick-IsPending n (record s { phase = idle }) l)
  | inr r ↦ rw r (l, ground arith)
]

busy-will_claim :
    (n : ℕ) (phase : LoopPhase)
    → is_idle phase ≡ false
    → (s : RunnerLoop) → will_claim n s ≡ true
    → will_claim n (record s { phase = phase }) ≡ true
busy-will_claim n phase b s w = ground arith

served :
    (n : ℕ) (s : RunnerLoop)
    → s.phase ≡ idle
    → s.destroyed ≡ false
    → will_claim n s ≡ true
    → n < s.claims
served n s i d w = ground (arith, ap is_idle i)

event-IsPending :
    (n : ℕ) (e : LoopEvent) (phase : LoopPhase) (s : RunnerLoop)
    → s.phase ≡ phase
    → IsPending n s
    → IsPending n (in_phase e phase s)
unfolding in_phase IsPending
event-IsPending n kicked phase s p (l, w) = kick-IsPending n s l
event-IsPending n claimed_task claiming s p (l, w) = (l, busy-will_claim n running refl s w)
event-IsPending n claimed_nothing claiming s p h = nothing-IsPending n s h
event-IsPending n task_ended running s p (l, w) = loop_again-IsPending n s l
event-IsPending n threw claiming s p (l, w) = (l, busy-will_claim n finishing refl s w)
event-IsPending n threw running s p (l, w) = (l, busy-will_claim n finishing refl s w)
event-IsPending n loop_ended finishing s p h = end-IsPending n s h
event-IsPending n destroys phase s p (l, w) = (l, refl)
event-IsPending n _ _ s p h = h

run-IsPending :
    (n : ℕ) (es : List LoopEvent) (s : RunnerLoop) → IsPending n s → IsPending n (run_loop es s)
unfolding run_loop
run-IsPending n [] s h = h
run-IsPending n (e ∷ es) s h =
    run-IsPending n es (in_phase e s.phase s) (event-IsPending n e s.phase s refl h)

-- No request is lost: whatever happens after a `kick`, with other requests, failures of claims and
-- tasks and the end of the runner anywhere in between, once the loop stands still and the runner has
-- not been destroyed, a claim was begun after the request.
pub kick-is_served :
    (s : RunnerLoop) (es : List LoopEvent)
    → (run_loop es (kick s)).phase ≡ idle
    → (run_loop es (kick s)).destroyed ≡ false
    → s.claims < (run_loop es (kick s)).claims
unfolding IsPending
kick-is_served s es i d =
    let (l, w) = run-IsPending s.claims es (kick s) (kick-IsPending s.claims s (omega arith)) in
    served s.claims (run_loop es (kick s)) i d w

-- What the events keep once the runner is destroyed.
IsOver : ℕ → RunnerLoop → Type 0
IsOver n s = (s.destroyed ≡ true) × (s.claims ≡ n)

kick-IsOver : (n : ℕ) (s : RunnerLoop) → IsOver n s → IsOver n (kick s)
unfolding kick IsOver
kick-IsOver n s (d, c) = rw (kick, d) (refl, c)

loop_again-IsOver : (n : ℕ) (s : RunnerLoop) → IsOver n s → IsOver n (loop_again s)
unfolding IsOver
loop_again-IsOver n s (d, c) = rw d (refl, c)

nothing-IsOver : (n : ℕ) (s : RunnerLoop) → IsOver n s → IsOver n (after_nothing s)
unfolding IsOver
nothing-IsOver n s (d, c) = elim (Bool-cases s.requested) [
  | inl r ↦ rw (r, d) (refl, c)
  | inr r ↦ rw (r, d) (refl, c)
]

end-IsOver : (n : ℕ) (s : RunnerLoop) → IsOver n s → IsOver n (after_end s)
unfolding IsOver
end-IsOver n s (d, c) =
    let ends : s.requested && not s.destroyed ≡ false = ground arith in rw ends (d, c)

event-IsOver :
    (n : ℕ) (e : LoopEvent) (phase : LoopPhase) (s : RunnerLoop)
    → IsOver n s
    → IsOver n (in_phase e phase s)
unfolding in_phase IsOver
event-IsOver n kicked phase s h = kick-IsOver n s h
event-IsOver n claimed_task claiming s h = h
event-IsOver n claimed_nothing claiming s h = nothing-IsOver n s h
event-IsOver n task_ended running s h = loop_again-IsOver n s h
event-IsOver n threw claiming s h = h
event-IsOver n threw running s h = h
event-IsOver n loop_ended finishing s h = end-IsOver n s h
event-IsOver n destroys phase s (d, c) = (refl, c)
event-IsOver n _ _ s h = h

run-IsOver : (n : ℕ) (es : List LoopEvent) (s : RunnerLoop) → IsOver n s → IsOver n (run_loop es s)
unfolding run_loop
run-IsOver n [] s h = h
run-IsOver n (e ∷ es) s h = run-IsOver n es (in_phase e s.phase s) (event-IsOver n e s.phase s h)

-- Once the runner is destroyed no claim is begun, whatever is requested and whatever ends.
pub run_destroyed-claims :
    (es : List LoopEvent) (s : RunnerLoop) → s.destroyed ≡ true → (run_loop es s).claims ≡ s.claims
unfolding IsOver
run_destroyed-claims es s d = (run-IsOver s.claims es s (d, refl)).1
