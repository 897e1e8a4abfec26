-- ===== src/Core/StateMachines/Laws.antt =====
-- src/llmmaxxing/core/state_machines.py: what the key transitions and the activation stages allow.
use llmmaxxing.Base.{◌≡◌, Result, ok, List, [], ◌∷◌, ◌>>=◌}
use llmmaxxing.Core.StateMachines.{
  KeyLifecycleState, KeyEvent, key_transition, activate, suspend, resume, revoke,
}

-- A run of events, which stops at the first that is refused.
abbrev pub run_key : KeyLifecycleState → List KeyEvent → Result KeyLifecycleState
run_key state [] = ok state
run_key state (event ∷ events) = key_transition state event >>= λ next. run_key next events

-- A revoked key stays revoked: no run of events that is accepted leads out of `REVOKED`.
pub key_transition-revoked :
    (events : List KeyEvent) {state : KeyLifecycleState}
    → run_key KeyLifecycleState.revoked events ≡ ok state
    → state ≡ KeyLifecycleState.revoked
unfolding key_transition
key_transition-revoked [] h = cc
key_transition-revoked (activate ∷ events) h = cc
key_transition-revoked (suspend ∷ events) h = cc
key_transition-revoked (resume ∷ events) h = cc
key_transition-revoked (revoke ∷ events) h = key_transition-revoked events h
key_transition-revoked (KeyEvent.other ∷ events) h = cc
