-- ===== src/Model/Stream.antt =====
-- model/model.go: the chunks of a stream, and the iterator over the two channels that carry them.
pub mod Reading
use simple_agent_framework.Prelude.{Bool, true, false, List, [], ◌∷◌, Option, none, some}
use simple_agent_framework.Prelude.Text.{Text}
use simple_agent_framework.Errors.{Error}
use simple_agent_framework.Model.{ToolCall, Usage}

pub record StreamChunk : Type 0 where
  pub delta : Text
  pub tool_calls : List ToolCall
  pub done : Bool
  pub usage : Option Usage

-- A chunk with a text alone.
abbrev pub text_chunk : Text → StreamChunk
text_chunk t = record { delta = t; tool_calls = []; done = false; usage = none }

-- A channel: what is in its buffer, and whether it is closed.
pub record Channel (A : Type 0) : Type 0 where
  pub queued : List A
  pub closed : Bool

pub record StreamIterator : Type 0 where
  pub msg_chan : Channel StreamChunk
  pub err_chan : Channel Error
  pub cur : Option StreamChunk
  pub error : Option Error

unfoldable pub new_stream_iterator : Channel StreamChunk → Channel Error → StreamIterator
new_stream_iterator msgs errs = record {
  msg_chan = msgs;
  err_chan = errs;
  cur = none;
  error = none;
}

-- `Next`, with what it returns: the `select` takes any channel that is ready, and a channel that is
-- closed and empty is ready too, with a zero value.
pub data Next : StreamIterator → Bool → StreamIterator → Type 0 where
  chunk :
      (c : StreamChunk) (cs : List StreamChunk) (closed : Bool) (errs : Channel Error)
      (cur : Option StreamChunk) (error : Option Error)
      → Next
          (record {
            msg_chan = record { queued = c ∷ cs; closed = closed };
            err_chan = errs;
            cur = cur;
            error = error;
          })
          true
          (record {
            msg_chan = record { queued = cs; closed = closed };
            err_chan = errs;
            cur = some c;
            error = error;
          })
  no_more :
      (errs : Channel Error) (cur : Option StreamChunk) (error : Option Error)
      → Next
          (record {
            msg_chan = record { queued = []; closed = true };
            err_chan = errs;
            cur = cur;
            error = error;
          })
          false
          (record {
            msg_chan = record { queued = []; closed = true };
            err_chan = errs;
            cur = cur;
            error = error;
          })
  failed :
      (msgs : Channel StreamChunk) (e : Error) (es : List Error) (closed : Bool)
      (cur : Option StreamChunk) (error : Option Error)
      → Next
          (record {
            msg_chan = msgs;
            err_chan = record { queued = e ∷ es; closed = closed };
            cur = cur;
            error = error;
          })
          false
          (record {
            msg_chan = msgs;
            err_chan = record { queued = es; closed = closed };
            cur = cur;
            error = some e;
          })
  no_error :
      (msgs : Channel StreamChunk) (cur : Option StreamChunk) (error : Option Error)
      → Next
          (record {
            msg_chan = msgs;
            err_chan = record { queued = []; closed = true };
            cur = cur;
            error = error;
          })
          false
          (record {
            msg_chan = msgs;
            err_chan = record { queued = []; closed = true };
            cur = cur;
            error = error;
          })
