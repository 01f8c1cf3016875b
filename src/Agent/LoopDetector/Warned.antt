-- ===== src/Agent/LoopDetector/Warned.antt =====
-- What the flag of agent/loop_detector.go stands for, and how soon repeated calls end.
use simple_agent_framework.Prelude.{
  ℕ, suc, ◌-◌, ◌+◌, ◌≤◌, ◌<◌, ◌≡◌, ◌≢◌, ltb, leb, ◌==◌, if◌then◌else◌, false, ◌&&◌, ap, sym, ◌∙◌,
  refl, List, [], ◌∷◌, ◌++◌, length, arith, length-append,
}
use mathlib.Core.List.{append_assoc, append-nil}
use simple_agent_framework.Prelude.Int.{ℤ}
use simple_agent_framework.Agent.LoopDetector.{
  LoopDetector, ToolCallSig, normal, warning, terminate, record_sig, new_loop_detector,
}
use simple_agent_framework.Agent.LoopDetector.Run.{
  tail_run, tail_run-snoc, tail_run_unique, sig_eq_refl, tail_run-le-length, record_sig-run,
  record_sig-recorded, recorded,
}

tail_run_same :
    (sig : ToolCallSig) (l : List ToolCallSig) → tail_run sig (l ++ sig ∷ []) ≡ suc (tail_run sig l)
tail_run_same sig l = rw (tail_run-snoc sig sig l) (rw (sig_eq_refl sig))

-- How many more calls of `sig` can follow that are not terminated.
unfoldable pub slack : LoopDetector → ToolCallSig → ℕ
slack d sig =
    (d.threshold - tail_run sig d.history)
    + (if leb d.threshold (tail_run sig d.history) && d.warned then 0 else 1)

pub slack-le : (d : LoopDetector) (sig : ToolCallSig) → slack d sig ≤ d.threshold + 1
unfolding slack
slack-le d sig = ground arith

pub slack-record_sig :
    (d : LoopDetector) (sig : ToolCallSig)
    → 0 < d.threshold
    → (record_sig d sig).0 ≢ terminate
    → slack (record_sig d sig).1 sig < slack d sig
unfolding slack recorded
slack-record_sig d sig pos h = rw (record_sig-recorded d sig pos) (
    ground (
      arith,
      record_sig-run d sig pos,
      tail_run_same sig d.history,
      tail_run-le-length sig d.history,
      length-append {0} d.history (sig ∷ []),
    ))

-- The detector after some calls.
unfoldable pub record_all : List ToolCallSig → LoopDetector → LoopDetector
record_all [] d = d
record_all (sig ∷ sigs) d = record_all sigs (record_sig d sig).1

-- A warning stands exactly when the run at the end of the history has reached the threshold.
record IsExact (d : LoopDetector) : Type 0 where
  pub positive : 0 < d.threshold
  pub fresh : length d.history < d.threshold → d.warned ≡ false
  pub exact :
      (sig : ToolCallSig)
      → 0 < tail_run sig d.history
      → d.warned ≡ leb d.threshold (tail_run sig d.history)

new-IsExact : (z : ℤ) → IsExact (new_loop_detector z)
unfolding new_loop_detector tail_run
new-IsExact z = ground arith

record_sig-IsExact :
    (d : LoopDetector) (sig : ToolCallSig) → IsExact d → IsExact (record_sig d sig).1
unfolding recorded
record_sig-IsExact d sig e = rw (record_sig-recorded d sig e.positive) (record {
  positive = e.positive;
  fresh = λ short. ground (arith, e.fresh, longer);
  exact = exact;
})
  where
    longer : length (d.history ++ sig ∷ []) ≡ length d.history + 1
    longer = length-append {0} d.history (sig ∷ [])

    own : (recorded d sig).warned ≡ leb d.threshold (tail_run sig (d.history ++ sig ∷ []))
    own =
        ground
          (arith, e.fresh, longer, tail_run_same sig d.history, tail_run-le-length sig d.history)

    exact :
        (x : ToolCallSig)
        → 0 < tail_run x (d.history ++ sig ∷ [])
        → (recorded d sig).warned ≡ leb d.threshold (tail_run x (d.history ++ sig ∷ []))
    exact x some_run =
        let same : sig ≡ x =
          tail_run_unique sig x (d.history ++ sig ∷ [])
            (let n = tail_run_same sig d.history in omega (arith, n)) some_run in
        own ∙ ap (λ y. leb d.threshold (tail_run y (d.history ++ sig ∷ []))) same

-- What is kept of the detector that the calls began with.
record_all-IsExact :
    (sigs : List ToolCallSig) (d : LoopDetector)
    → IsExact d
    → IsExact (record_all sigs d)
      × ((record_all sigs d).threshold ≡ d.threshold)
      × ((record_all sigs d).history ≡ d.history ++ sigs)
unfolding record_all recorded
record_all-IsExact [] d e = (e, refl, sym (append-nil d.history))
record_all-IsExact (sig ∷ sigs) d e =
    let (exact, same, longer) =
      record_all-IsExact sigs (record_sig d sig).1 (record_sig-IsExact d sig e) in
    let after = record_sig-recorded d sig e.positive in
    (
      exact,
      same ∙ ap (λ x. x.threshold) after,
      longer ∙ ap (λ x. x.history ++ sigs) after ∙ append_assoc d.history (sig ∷ []) sigs,
    )

no_history : (z : ℤ) → (new_loop_detector z).history ≡ []
unfolding new_loop_detector
no_history z = refl

-- A new detector with a threshold of at least two, whatever calls it has recorded, answers the next
-- call by how many calls in a row are now the same, with those right before it: fewer than the
-- threshold are normal, the call that makes them as many is warned about, and each one more of the
-- same is terminated.
pub record_all-run :
    (z : ℤ) (sigs : List ToolCallSig) (sig : ToolCallSig)
    → 2 ≤ (new_loop_detector z).threshold
    → let n = (new_loop_detector z).threshold in
      let run = suc (tail_run sig sigs) in
      (record_sig (record_all sigs (new_loop_detector z)) sig).0
      ≡ (if ltb run n then normal else if run == n then warning else terminate)
record_all-run z sigs sig two =
    let (e, same, history) = record_all-IsExact sigs (new_loop_detector z) (new-IsExact z) in
    let d = record_all sigs (new_loop_detector z) in
    let run : tail_run sig d.history ≡ tail_run sig sigs =
      ap (tail_run sig) (history ∙ ap (λ h. h ++ sigs) (no_history z)) in
    let exact = e.exact sig in
    let answer = record_sig-run d sig e.positive in ground (arith, same, run, exact, answer)
