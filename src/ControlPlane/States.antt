-- ===== src/ControlPlane/States.antt =====
-- domain/state.py: the states of a deployment and transition_state.
pub mod Paths
use greencompute_api.Prelude.{Bool, true, false, Option, none, some, if◌then◌else◌}

pub data DeploymentState : Type 0 where
  pending scheduled pulling starting ready draining suspended failed terminated : DeploymentState

abbrev pub same_state : DeploymentState → DeploymentState → Bool
same_state pending pending = true
same_state scheduled scheduled = true
same_state pulling pulling = true
same_state starting starting = true
same_state ready ready = true
same_state draining draining = true
same_state suspended suspended = true
same_state failed failed = true
same_state terminated terminated = true
same_state _ _ = false

-- `desired in ALLOWED_TRANSITIONS[current]`
abbrev pub is_allowed : DeploymentState → DeploymentState → Bool
is_allowed pending scheduled = true
is_allowed pending failed = true
is_allowed pending terminated = true
is_allowed scheduled pulling = true
is_allowed scheduled starting = true
is_allowed scheduled ready = true
is_allowed scheduled failed = true
is_allowed scheduled terminated = true
is_allowed pulling starting = true
is_allowed pulling ready = true
is_allowed pulling failed = true
is_allowed pulling terminated = true
is_allowed starting ready = true
is_allowed starting failed = true
is_allowed starting terminated = true
is_allowed ready draining = true
is_allowed ready suspended = true
is_allowed ready failed = true
is_allowed ready terminated = true
is_allowed draining terminated = true
is_allowed draining failed = true
is_allowed suspended pulling = true
is_allowed suspended starting = true
is_allowed suspended ready = true
is_allowed suspended terminated = true
is_allowed failed pending = true
is_allowed failed terminated = true
is_allowed _ _ = false

-- `transition_state`; `none` is InvalidDeploymentTransition.
unfoldable pub transition_state : DeploymentState → DeploymentState → Option DeploymentState
transition_state current desired =
    if same_state desired current
    then some current
    else if is_allowed current desired
    then some desired
    else none
