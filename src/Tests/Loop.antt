-- ===== src/Tests/Loop.antt =====
-- agent/loop.go, agent/loop_detector.go and interrupter/hitl.go on small inputs.
use simple_agent_framework.Prelude.{
  ◌==◌, ℕ, suc, ltb, if◌then◌else◌, ◌≡◌, ◌≢◌, refl, arith, true, false, [], ◌∷◌, none, some, ◌⊎◌,
  inr,
}
use simple_agent_framework.Prelude.Int.{pos}
use simple_agent_framework.Prelude.Text.{codes, text_eq, to_lower, trim_space}
use simple_agent_framework.Errors.{ok}
use simple_agent_framework.Model.Value.{end}
use simple_agent_framework.Planner.{Action, tool_call, react, Planner}
use simple_agent_framework.Interrupter.{HumanResponse, before_tool_call}
use simple_agent_framework.Interrupter.Hitl.{
  HitlHandler, handler, should_interrupt, wait_for_human, should_interrupt_for_tool,
  keyword-unasked, tool_in_list,
}
use simple_agent_framework.Agent.LoopDetector.{
  LoopDetector, ToolCallSig, record_sig, normal, warning, terminate, sig_eq, uniform,
  new_loop_detector,
}
use simple_agent_framework.Agent.LoopDetector.Run.{tail_run, record_sig-run}
use simple_agent_framework.Agent.LoopDetector.Warned.{record_all, record_all-run}
use simple_agent_framework.Agent.Loop.State.{Env, Vars, LoopState, Reply, crash, go}
use simple_agent_framework.Agent.Loop.Effects.{
  effects, remember, ignore, change, maybe_save_checkpoint,
}
use simple_agent_framework.Agent.Loop.Interrupt.{
  revised, interrupt_step, approval, human_answer, unasked, hand_on, call_id,
}
use simple_agent_framework.Agent.Run.{run_loop, round, dispatch}
use simple_agent_framework.Agent.Run.Rank.{Inv, last_action}
use simple_agent_framework.Agent.Run.Termination.{run_loop_returns}
use simple_agent_framework.Agent.Run.Safety.{run_loop_safe}
use simple_agent_framework.Agent.Run.Consent.{Consented, round-licensed}
use simple_agent_framework.Agent.Run.Approved.{IsExempt, IsApproved, round-handled}

abbrev search_docs : Action
search_docs = record {
  kind = tool_call;
  tool_name = codes "search_docs";
  tool_input = some end;
  answer = [];
}

abbrev yes_sir : HumanResponse
yes_sir = record { approved = true; message = []; modified_input = none }

abbrev strict : HitlHandler ℕ
strict = record {
  config = record { require_approval = []; auto_approve_read = false };
  approval_fn = some (λ evt w. (ok (some yes_sir), w));
  expired = λ w. none;
}

abbrev lenient : HitlHandler ℕ
lenient = record {
  config = record { require_approval = codes "delete_widget" ∷ []; auto_approve_read = true };
  approval_fn = none;
  expired = λ w. none;
}

abbrev always_search : Planner ℕ
always_search state w = (ok (record { action = search_docs; reasoning = [] }), w)

-- An agent whose model asks for the same call again and again.
abbrev pub unattended : Env ℕ
unattended = record {
  ctx_err = λ w. none;
  emit = λ e w. w;
  checkpoint_enabled = true;
  save_checkpoint = λ s w. suc w;
  memory = record { messages = λ w. (ok [], w); add = λ ms w. (ok tt, w); clear = λ w. (ok tt, w) };
  build_prompt = λ w. [];
  tools = λ w. [];
  planner = some always_search;
  mode = react;
  max_iterations = 2;
  validate_output = none;
  evaluator = none;
  eval_enabled = false;
  plan_and_solve = none;
  stream_on = false;
  stream = none;
  parse_json = λ t. none;
  model_max_tokens = 0;
  interrupter = none;
  compressor = none;
  execute =
      λ a w. (ok (record { tool_name = a.tool_name; output = codes "none"; error = none }), suc w);
  content_store = none;
  tool_result_max_len = 100;
  recent_tool_result_tokens = 100;
  loop_detection_threshold = 3;
  hash_params = λ x. [];
  now = λ w. (w, suc w);
}

abbrev attended : Env ℕ
attended = record unattended { interrupter = some (handler strict) }

abbrev fresh_detector : LoopDetector
fresh_detector = record { threshold = 3; history = []; warned = false }

run_loop_returns_example :
    (x : Reply × LoopDetector) × ((run_loop attended fresh_detector 0 100 0).0 ≡ some x)
run_loop_returns_example =
    run_loop_returns attended fresh_detector 0 100 0 (omega arith) (inr refl) (omega arith)

run_loop_safe_example : (run_loop attended fresh_detector 0 100 0).0 ≢ some (crash, fresh_detector)
run_loop_safe_example = run_loop_safe attended fresh_detector 0 100 0 fresh_detector (omega arith)

-- The variables when a call waits for its check, and when it has passed.
abbrev waiting : Vars
waiting = record {
  state = LoopState.interrupt;
  iteration = 1;
  history = [];
  pending_action = some search_docs;
  pending_reasoning = [];
  pending_tool_call_id = [];
  plan_gen_first = none;
  complete_answer = [];
  last_exec = none;
  eval_escalate = false;
  validate_left = 0;
  detector = fresh_detector;
}

abbrev checked : Vars
checked = record waiting { state = LoopState.executing; pending_tool_call_id = call_id 1 1 }

waiting-Inv : Inv unattended waiting
waiting-Inv = record { shape = refl; threshold = omega arith }

waiting-round : round unattended always_search waiting 0 ≡ (go checked, 2)
unfolding round dispatch interrupt_step approval unasked hand_on effects remember ignore change
    maybe_save_checkpoint
waiting-round = refl

round-licensed_example :
    ((waiting.state ≡ LoopState.interrupt)
      × ((act act' : Action) × (waiting.pending_action ≡ some act)
          × (checked.pending_action ≡ some act')
          × Consented unattended act act'))
    ⊎ ((waiting.state ≡ LoopState.evaluating)
        × (checked.pending_action ≡ last_action unattended waiting.last_exec))
round-licensed_example =
    round-licensed unattended always_search waiting checked 0 2 waiting-Inv waiting-round refl

attended-Inv : Inv attended waiting
attended-Inv = record { shape = refl; threshold = omega arith }

attended-round : round attended always_search waiting 0 ≡ (go checked, 2)
unfolding round dispatch interrupt_step approval human_answer revised hand_on effects remember
    ignore change maybe_save_checkpoint handler should_interrupt should_interrupt_for_tool
    wait_for_human
attended-round = refl

round-handled_example :
    ((waiting.state ≡ LoopState.interrupt)
      × ((act act' : Action) × (waiting.pending_action ≡ some act)
          × (checked.pending_action ≡ some act')
          × ((IsExempt strict act × (act' ≡ act)) ⊎ IsApproved strict act act')))
    ⊎ ((waiting.state ≡ LoopState.evaluating)
        × (checked.pending_action ≡ last_action attended waiting.last_exec))
round-handled_example =
    round-handled attended strict refl always_search waiting checked 0 2 attended-Inv attended-round
      refl

abbrev delete_widget : Action
delete_widget = record {
  kind = tool_call;
  tool_name = codes "delete_widget";
  tool_input = none;
  answer = [];
}

keyword-unasked_example :
    (should_interrupt lenient (record { kind = before_tool_call; action = delete_widget }) 0).0
    ≡ ok false
unfolding tool_in_list text_eq to_lower trim_space
keyword-unasked_example =
    keyword-unasked lenient delete_widget (codes "delete_wid") (codes "get") [] 0 refl refl refl
      refl

abbrev search_sig : ToolCallSig
search_sig = record { tool_name = codes "search"; param_hash = [] }

abbrev warned_detector : LoopDetector
warned_detector = record { threshold = 2; history = search_sig ∷ search_sig ∷ []; warned = true }

record_all-run_example :
    (record_sig
      (record_all (search_sig ∷ search_sig ∷ []) (new_loop_detector (pos 2)))
      search_sig).0
    ≡ (if ltb (suc (tail_run search_sig (search_sig ∷ search_sig ∷ []))) 2
        then normal
        else if suc (tail_run search_sig (search_sig ∷ search_sig ∷ [])) == 2
        then warning
        else terminate)
unfolding new_loop_detector
record_all-run_example =
    record_all-run (pos 2) (search_sig ∷ search_sig ∷ []) search_sig (omega arith)

third_call_terminates :
    (record_sig
      (record_all (search_sig ∷ search_sig ∷ []) (new_loop_detector (pos 2)))
      search_sig).0
    ≡ terminate
unfolding record_sig record_all new_loop_detector uniform text_eq sig_eq
third_call_terminates = refl

record_sig-run_example : (record_sig warned_detector search_sig).0 ≡ (
    if ltb (suc (tail_run search_sig warned_detector.history)) 2
    then normal
    else if true
    then terminate
    else warning)
record_sig-run_example = record_sig-run warned_detector search_sig (omega arith)
