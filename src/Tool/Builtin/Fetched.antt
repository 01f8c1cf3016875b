-- ===== src/Tool/Builtin/Fetched.antt =====
-- tool/builtin/fetch_full_result.go over memory/compressor.go: what was truncated can be fetched.
use simple_agent_framework.Prelude.{ℕ, ◌≡◌, ap, ◌⊎◌, inl, inr, Option, none, some}
use simple_agent_framework.Prelude.Text.{Text, codes, text_eq}
use simple_agent_framework.Errors.{ok}
use simple_agent_framework.Model.Value.{str, end, field}
use simple_agent_framework.Memory.ContentStore.{InMemoryContentStore, in_memory}
use simple_agent_framework.Memory.Compressor.{truncate_tool_result}
use simple_agent_framework.Memory.Compressor.Truncate.{truncate_tool_result-load}
use simple_agent_framework.Tool.Builtin.{fetch_full_result_tool, fetch_execute, not_loaded}

-- The result of a tool is given to the model whole; or else `fetch_full_result`, called next with the
-- identifier of the call in the same session, whose contents are in memory and whose context is live,
-- returns it whole.
pub truncate_tool_result-fetch :
    {S : Type 0} (schema : Option S) (quote : Text → Text) (content : Text) (max_len : ℕ)
    (id : Text) (s : InMemoryContentStore)
    → let (out, s') = truncate_tool_result content max_len (some (in_memory none)) id s in
      (out ≡ content)
      ⊎ (((fetch_full_result_tool schema quote (λ ctx. some (in_memory ctx))).execute none
            (some (field (codes "id") (str id) end))
            s').0
          ≡ ok content)
unfolding fetch_full_result_tool fetch_execute text_eq
truncate_tool_result-fetch schema quote content max_len id s =
    elim (truncate_tool_result-load content max_len id s) [
      | inl same ↦ inl same
      | inr loaded ↦ inr (ap (not_loaded quote id) loaded)
    ]
