-- ===== src/Agent/LoopDetector.antt =====
-- agent/loop_detector.go: repeated calls of one tool with the same parameters.
pub mod Run
pub mod Warned
use simple_agent_framework.Prelude.{
  ℕ, suc, zero, ◌-◌, ltb, leb, if◌then◌else◌, Bool, true, false, not, ◌&&◌, List, [], ◌∷◌, ◌++◌,
  length, drop, all,
}
use simple_agent_framework.Prelude.Int.{ℤ, is_positive, pos_part}
use simple_agent_framework.Prelude.Text.{Text, text_eq, codes, decimal}
use simple_agent_framework.Model.Value.{Input}

abbrev pub default_loop_threshold : ℕ
default_loop_threshold = 3

pub data LoopStatus : Type 0 where
  normal warning terminate : LoopStatus

pub record ToolCallSig : Type 0 where
  pub tool_name : Text
  pub param_hash : Text

-- `a == b` of two signatures.
unfoldable pub sig_eq : ToolCallSig → ToolCallSig → Bool
sig_eq a b = text_eq a.tool_name b.tool_name && text_eq a.param_hash b.param_hash

pub record LoopDetector : Type 0 where
  pub threshold : ℕ
  pub history : List ToolCallSig
  pub warned : Bool

unfoldable pub new_loop_detector : ℤ → LoopDetector
new_loop_detector z = record {
  threshold = if is_positive z then pos_part z else default_loop_threshold;
  history = [];
  warned = false;
}

-- The loop that compares each signature of the window with the first.
unfoldable pub uniform : List ToolCallSig → Bool
unfolding sig_eq
uniform [] = true
uniform (first ∷ rest) = all (λ x. sig_eq x first) rest

-- `Record`, of the signature that it computes.
unfoldable pub record_sig : LoopDetector → ToolCallSig → LoopStatus × LoopDetector
record_sig d sig =
    let history = d.history ++ sig ∷ [] in
    let window = drop (length history - d.threshold) history in
    if ltb (length history) d.threshold
    then (normal, record d { history = history })
    else if not (uniform window)
    then (normal, record d { history = history; warned = false })
    else if not d.warned
    then (warning, record d { history = history; warned = true })
    else (terminate, record d { history = history })

-- `hashParams` is SHA-256 of the JSON of the parameters: an argument.
unfoldable pub signature : (Input → Text) → Text → Input → ToolCallSig
signature hash_params tool_name params = record {
  tool_name = tool_name;
  param_hash = hash_params params;
}

unfoldable pub inject_loop_warning : Text → Text → ℕ → Text
inject_loop_warning tool_result tool_name threshold =
    codes "<loop_detection_warning>\nYou have called tool \""
    ++ (tool_name
        ++ (codes "\" "
            ++ (decimal threshold
                ++ (codes
                      " times consecutively with identical parameters. Please reconsider your approach:\n1. Check if previous results already satisfy the requirement\n2. Consider using a different tool or modifying the parameters\n3. If the task is complete, output your final answer directly\nWARNING: Calling the same tool with the same parameters again will terminate execution.\n</loop_detection_warning>\n\n"
                    ++ tool_result))))
