-- ===== src/Model/Stream/Reading.antt =====
-- model/model.go: what a reader gets of a stream whose sender has finished.
use simple_agent_framework.Prelude.{
  ℕ, zero, suc, ◌≡◌, refl, ap, ap₂, sym, ◌∙◌, ◌↔◌, Bool, true, false, List, [], ◌∷◌, Option, none,
  some, some-injective, take, arith,
}
use simple_agent_framework.Errors.{Error}
use simple_agent_framework.Model.Stream.{StreamChunk, StreamIterator, Next, new_stream_iterator}

-- `for iter.Next() { ... iter.Chunk() ... }` and `iter.Err()`: the chunks that are read, and the error.
pub data Reads : StreamIterator → List StreamChunk → Option Error → Type 0 where
  stop : {s s' : StreamIterator} (e : Option Error) → Next s false s' → s'.error ≡ e → Reads s [] e
  more :
      {s s' : StreamIterator} (c : StreamChunk) (cs : List StreamChunk) (e : Option Error)
      → Next s true s'
      → s'.cur ≡ some c
      → Reads s' cs e
      → Reads s (c ∷ cs) e

-- What a `Next` that returns true does.
Advances : StreamIterator → StreamIterator → Type 0
Advances s s' =
    (c : StreamChunk) × (s.msg_chan.queued ≡ c ∷ s'.msg_chan.queued)
    × (s'.cur ≡ some c)
    × (s'.err_chan.queued ≡ s.err_chan.queued)
    × (s'.error ≡ s.error)

next-Advances : {s s' : StreamIterator} {b : Bool} → Next s b s' → b ≡ true → Advances s s'
unfolding Advances
next-Advances (Next.chunk c cs closed errs cur error) h = (c, refl, refl, refl, refl)
next-Advances (Next.no_more errs cur error) h = ground (arith, h)
next-Advances (Next.failed msgs e es closed cur error) h = ground (arith, h)
next-Advances (Next.no_error msgs cur error) h = ground (arith, h)

-- Without an error in its channel, a `Next` that returns false changes none.
next-stops :
    {s s' : StreamIterator} {b : Bool}
    → Next s b s'
    → b ≡ false
    → s.err_chan.queued ≡ []
    → s'.error ≡ s.error
next-stops (Next.chunk c cs closed errs cur error) h none_queued = refl
next-stops (Next.no_more errs cur error) h none_queued = refl
next-stops (Next.failed msgs e es closed cur error) h none_queued = ground (arith, none_queued)
next-stops (Next.no_error msgs cur error) h none_queued = refl

-- The iterator over both channels when the sender has sent the chunks, and closed the channels.
unfoldable pub finished : List StreamChunk → StreamIterator
unfolding new_stream_iterator
finished cs =
    new_stream_iterator (record { queued = cs; closed = true })
      (record { queued = []; closed = true })

Reads-prefix :
    {s : StreamIterator} {ds : List StreamChunk} {e : Option Error}
    → Reads s ds e
    → s.err_chan.queued ≡ []
    → (k : ℕ) × (ds ≡ take k s.msg_chan.queued) × (e ≡ s.error)
unfolding Advances
Reads-prefix (Reads.stop e n same) none_queued = (0, refl, sym same ∙ next-stops n refl none_queued)
Reads-prefix (Reads.more c cs e n got rest) none_queued =
    let (c', queued, got', errs, kept) = next-Advances n refl in
    let (k, prefix, same) = Reads-prefix rest (errs ∙ none_queued) in
    (
      suc k,
      ap₂ ◌∷◌ (some-injective c c' (sym got ∙ got')) prefix ∙ sym (ap (take (suc k)) queued),
      same ∙ kept,
    )

-- Any number of the chunks may be read, and then the reader is told that there are no more.
cut_short :
    (k : ℕ) (cs : List StreamChunk) (cur : Option StreamChunk)
    → Reads
        (record {
          msg_chan = record { queued = cs; closed = true };
          err_chan = record { queued = []; closed = true };
          cur = cur;
          error = none;
        })
        (take k cs)
        none
cut_short zero cs cur = Reads.stop none (Next.no_error _ cur none) refl
cut_short (suc k) [] cur = Reads.stop none (Next.no_error _ cur none) refl
cut_short (suc k) (c ∷ cs) cur =
    Reads.more c (take k cs) none (Next.chunk c cs true _ cur none) refl (cut_short k cs (some c))

-- Of a stream whose sender has sent its last chunk and closed both channels, a reader gets a prefix
-- of the chunks that are left, and no error; and every prefix may be all that it gets, since the
-- `select` may take the closed channel of errors first.
pub finished-Reads :
    (cs ds : List StreamChunk) (e : Option Error)
    → Reads (finished cs) ds e ↔ ((k : ℕ) × (ds ≡ take k cs) × (e ≡ none))
unfolding finished
finished-Reads cs ds e = (λ r. Reads-prefix r refl, λ p. rw (p.1, p.2) (cut_short p.0 cs none))
