-- ===== src/ControlPlane/States/Paths.antt =====
-- Where a deployment can get by transitions of transition_state.
use greencompute_api.Prelude.{◌≡◌, refl, Bool, true, false, some, arith, ◌||◌, ◌⊎◌, inl, inr}
use greencompute_api.ControlPlane.States.{
  DeploymentState, pending, scheduled, failed, terminated, transition_state, same_state,
}

-- The states that a sequence of accepted transitions leads through, the last one first.
pub data Reaches (start : DeploymentState) : DeploymentState → Type 0 where
  here : Reaches start start
  next :
      {s t : DeploymentState}
      → Reaches start s
      → (desired : DeploymentState) → transition_state s desired ≡ some t
      → Reaches start t

terminated-step :
    (s desired : DeploymentState) {t : DeploymentState}
    → s ≡ terminated
    → transition_state s desired ≡ some t
    → t ≡ terminated
unfolding transition_state
terminated-step s pending h e = ground arith
terminated-step s desired h e = ground arith

-- A terminated deployment stays terminated, whatever transitions are asked for.
pub terminated_absorbs : {s : DeploymentState} → Reaches terminated s → s ≡ terminated
terminated_absorbs here = refl
terminated_absorbs (next {s} p desired e) = terminated-step s desired (terminated_absorbs p) e

-- A deployment can be terminated in every state.
pub transition-terminated : (s : DeploymentState) → transition_state s terminated ≡ some terminated
unfolding transition_state
transition-terminated pending = refl
transition-terminated s = refl

-- Whether a deployment was SCHEDULED at some step of a path.
pub was_scheduled : {start s : DeploymentState} → Reaches start s → Bool
was_scheduled {start} here = same_state scheduled start
was_scheduled (next {t = t} p desired e) = same_state scheduled t || was_scheduled p

-- The states in which a deployment holds or held a placement.
abbrev pub is_placed : DeploymentState → Bool
is_placed pending = false
is_placed failed = false
is_placed terminated = false
is_placed _ = true

placed-step :
    (s desired t : DeploymentState)
    → transition_state s desired ≡ some t
    → is_placed t ≡ true
    → (same_state scheduled t ≡ true) ⊎ (is_placed s ≡ true)
unfolding transition_state
placed-step pending desired t e h = ground arith
placed-step s desired t e h = ground arith

-- A deployment that starts PENDING is pulling, starting, ready, draining or suspended only after it
-- was SCHEDULED: none of them can be reported for a deployment that was never placed.
pub placed-was_scheduled :
    {s : DeploymentState} (p : Reaches pending s) → is_placed s ≡ true → was_scheduled p ≡ true
unfolding was_scheduled
placed-was_scheduled here h = absurd (cc)
placed-was_scheduled (next {s} {t} p desired e) h = elim (placed-step s desired t e h) [
  | inl now_scheduled ↦ rw now_scheduled
  | inr placed ↦ rw (placed-was_scheduled p placed) (ground arith)
]
