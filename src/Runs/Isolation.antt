-- ===== src/Runs/Isolation.antt =====
-- `resolve_isolation` and `_select_backend_for_run` of core/executor.py.
use Prim.Native.String.{String}
use text.Mathlib.Text.{◌==◌ as str_eq}
use text.Mathlib.TextEquality.{eq_iff}
use py_runner.Prelude.{
  ℕ, ◌≡◌, ◌≤◌, ◌⊎◌, ◌≢◌, sym, subst, Bool, true, false, not, ◌&&◌, ◌||◌, Option, none, some, ltb,
  if◌then◌else◌, arith,
}

-- SandboxMode and Workspace.SandboxPolicy; a blank instance default counts as off
pub data Policy : Type 0 where
  off optional required : Policy

-- `_SANDBOX_STRICTNESS`
abbrev pub strictness : Policy → ℕ
strictness off = 0
strictness optional = 1
strictness required = 2

-- Script.isolation_mode
pub data IsolationMode : Type 0 where
  inherit sandboxed : IsolationMode

pub data Reason : Type 0 where
  policy_required policy_off script_sandboxed script_not_sandboxed override_sandbox : Reason

pub record IsolationDecision : Type 0 where
  pub sandbox : Bool
  pub mandatory : Bool
  pub reason : Reason

-- the workspace policy counts only where it is stricter than the instance default
unfoldable pub effective_policy : Policy → Option Policy → Policy
effective_policy base none = base
effective_policy base (some ws) = if ltb (strictness base) (strictness ws) then ws else base

abbrev pub decide_mode : IsolationMode → IsolationDecision
decide_mode sandboxed = record { sandbox = true; mandatory = false; reason = script_sandboxed }
decide_mode inherit = record { sandbox = false; mandatory = false; reason = script_not_sandboxed }

abbrev pub decide_policy : Policy → IsolationMode → IsolationDecision
decide_policy required mode = record { sandbox = true; mandatory = true; reason = policy_required }
decide_policy off mode = record { sandbox = false; mandatory = false; reason = policy_off }
decide_policy optional mode = decide_mode mode

-- The policy of the run's workspace, or else of the script's; either may be missing or have none.
abbrev pub workspace_policy : Option (Option Policy) → Option (Option Policy) → Option Policy
workspace_policy (some p) of_script = p
workspace_policy none (some p) = p
workspace_policy none none = none

unfoldable pub resolve_isolation :
    Policy → Option (Option Policy) → Option (Option Policy) → IsolationMode → IsolationDecision
unfolding effective_policy
resolve_isolation base run_ws script_ws mode =
    decide_policy (effective_policy base (workspace_policy run_ws script_ws)) mode

pub data Backend : Type 0 where
  sandboxed_backend default_backend : Backend

-- `override` is the trimmed, lower-case value of PYRUNNER_RUN_BACKEND.
unfoldable pub select_backend : String → IsolationDecision → Backend × IsolationDecision
select_backend override d =
    if str_eq override "sandbox" || d.sandbox && not (str_eq override "local")
    then (
      sandboxed_backend,
      record {
        sandbox = true;
        mandatory = d.mandatory;
        reason = if str_eq override "sandbox" then override_sandbox else d.reason;
      },
    )
    else (default_backend, record { sandbox = false; mandatory = false; reason = d.reason })

-- A workspace can only tighten: the effective policy is the stricter of the two, so an instance
-- default is never weakened and a stricter workspace policy always applies.
pub effective_policy-max :
    (base ws : Policy)
    → (strictness base ≤ strictness (effective_policy base (some ws)))
      × (strictness ws ≤ strictness (effective_policy base (some ws)))
unfolding effective_policy
effective_policy-max off off = ground arith
effective_policy-max off optional = ground arith
effective_policy-max off required = ground arith
effective_policy-max optional ws = ground arith
effective_policy-max required ws = ground arith

-- The policy of a 'required' instance or workspace is a mandatory sandbox, whatever the script says,
-- and no other is mandatory; a sandbox that is not is one that the script asks for.
pub resolve_isolation-policy :
    (base : Policy) (run_ws script_ws : Option (Option Policy)) (mode : IsolationMode)
    → let d = resolve_isolation base run_ws script_ws mode in
      ((base ≡ required) ⊎ (workspace_policy run_ws script_ws ≡ some required)
        → (d.sandbox ≡ true) × (d.mandatory ≡ true))
      × (d.mandatory ≡ true
          → (base ≡ required) ⊎ (workspace_policy run_ws script_ws ≡ some required))
      × (d.sandbox ≡ true → (d.mandatory ≡ true) ⊎ (mode ≡ sandboxed))
unfolding resolve_isolation
resolve_isolation-policy base run_ws script_ws mode = (ground arith, ground arith, ground arith)

-- The override 'sandbox' always isolates, 'local' never does, and any other value leaves the
-- decision as it is; only an isolated run can stay mandatory.
pub select_backend-cases :
    (override : String) (d : IsolationDecision)
    → let d' = (select_backend override d).1 in
      (override ≡ "sandbox" → (d'.sandbox ≡ true) × (d'.mandatory ≡ d.mandatory))
      × (override ≡ "local" → d'.sandbox ≡ false)
      × (override ≢ "sandbox" → override ≢ "local" → d'.sandbox ≡ d.sandbox)
      × (d'.mandatory ≡ true → (d'.sandbox ≡ true) × (d.mandatory ≡ true))
unfolding select_backend
select_backend-cases override d = (
  ground (arith, eq_iff override "sandbox"),
  (λ e. subst (λ o. (select_backend o d).1.sandbox ≡ false) (sym e) (ground arith)),
  ground (arith, eq_iff override "sandbox", eq_iff override "local"),
  ground arith,
)
