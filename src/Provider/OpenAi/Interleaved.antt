-- ===== src/Provider/OpenAi/Interleaved.antt =====
-- model/provider/openai/openai.go: the pieces of tool calls, in whatever order those of different
-- calls come.
use simple_agent_framework.Prelude.{if◌then◌else◌, List, [], ◌∷◌, ◌++◌, Option}
use simple_agent_framework.Prelude.Int.{ℤ, int_eq}
use simple_agent_framework.Provider.Indices.{changed}
use simple_agent_framework.Provider.OpenAi.{
  StreamAnswer, StreamToolDelta, ToolCallAccumulator, new_accumulator, add_delta,
}
use simple_agent_framework.Provider.OpenAi.Stream.{Progress, take_chunk}

-- The loop over the chunks that can be read.
abbrev pub take_chunks : List StreamAnswer → Progress → Progress
take_chunks [] p = p
take_chunks (a ∷ answers) p = take_chunks answers (take_chunk a p)

-- The pieces in the first choice of a chunk, and of all chunks.
abbrev pub pieces_in : StreamAnswer → List StreamToolDelta
pieces_in a = elim a.choices [ [] ↦ [] | c ∷ cs ↦ c.tool_calls ]

abbrev pub pieces : List StreamAnswer → List StreamToolDelta
pieces [] = []
pieces (a ∷ answers) = pieces_in a ++ pieces answers

-- The pieces of the call with an index, put together in their order, behind what there is of it.
abbrev pub together :
    ℤ → List StreamToolDelta → Option ToolCallAccumulator → Option ToolCallAccumulator
together i [] a = a
together i (d ∷ ds) a =
    together i ds (if int_eq d.index i then changed new_accumulator (add_delta d) a else a)
