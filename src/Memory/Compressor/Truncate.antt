-- ===== src/Memory/Compressor/Truncate.antt =====
-- memory/compressor.go, TruncateToolResult: how long the result is, and that nothing is lost.
use simple_agent_framework.Prelude.{
  ℕ, ◌+◌, ◌-◌, ◌*◌, ◌/◌, ◌≤◌, ◌<◌, min, ◌≡◌, refl, ap, ◌∙◌, false, ltb, leb, if◌then◌else◌, Option,
  ◌⊎◌, leb→le, leb_false→lt, ◌++◌, [], some, none, length, take, drop, length-append, length-take,
  length-drop, arith, Bool-cases, inl, inr,
}
use simple_agent_framework.Prelude.Text.{Text, text_eq_refl}
use simple_agent_framework.Errors.{ok}
use simple_agent_framework.Memory.ContentStore.{
  ContentStore, in_memory, InMemoryContentStore, load-store,
}
use simple_agent_framework.Memory.Compressor.{
  truncate_tool_result, truncated, truncation_notice, cut,
}

cut-length :
    (content ins : Text) (head tail : ℕ)
    → head + tail ≤ length content
    → length (cut content head tail ins) ≡ head + length ins + tail
cut-length content ins head tail h = omega (
  arith,
  length-append (take head content) (ins ++ drop (length content - tail) content),
  length-append ins (drop (length content - tail) content),
  length-take {0} head content,
  length-drop {0} (length content - tail) content,
)

-- The share of a budget that the head takes.
share-le : (n : ℕ) → n * 80 / 100 ≤ n
share-le n = omega arith

truncated-length :
    (content : Text) (max_len : ℕ) (id : Text)
    → max_len < length content
    → length (truncated content max_len id) ≡ max_len
unfolding truncated
truncated-length content max_len id h = elim (Bool-cases (ltb budget 2)) [
  | inl bare ↦ rw bare (elim (Bool-cases (ltb (length content) (whole + (max_len - whole)))) [
    | inl short ↦ absurd (ground (arith, share-le max_len))
    | inr long ↦ rw long (
        omega (
          arith,
          cut-length content [] whole (max_len - whole) (omega (arith, share-le max_len)),
          share-le max_len,
        ))
  ])
  | inr noted ↦ rw noted (elim (Bool-cases (ltb (length content) (part + (budget - part)))) [
    | inl short ↦ absurd (ground (arith, share-le budget))
    | inr long ↦ rw long (
        omega (
          arith,
          cut-length content ins part (budget - part) (omega (arith, share-le budget)),
          share-le budget,
          room noted,
        ))
  ])
]
  where
    ins : Text
    ins = truncation_notice (length content) max_len id

    budget : ℕ
    budget = max_len - length ins

    whole : ℕ
    whole = max_len * 80 / 100

    part : ℕ
    part = budget * 80 / 100

    room : ltb budget 2 ≡ false → length ins ≤ max_len
    room e = ground arith

-- The result has the length of the content where that is within the limit, and else the limit
-- itself, whatever the notice takes of it.
pub truncate_tool_result-length :
    {S : Type 0} (content : Text) (max_len : ℕ) (c : Option (ContentStore S)) (id : Text) (s : S)
    → length (truncate_tool_result content max_len c id s).0 ≡ min (length content) max_len
unfolding truncate_tool_result
truncate_tool_result-length content max_len c id s =
    elim (Bool-cases (leb (length content) max_len)) [
      | inl fits ↦ rw fits (let le = leb→le (length content) max_len fits in omega arith)
      | inr over ↦ rw over (
          let lt = leb_false→lt (length content) max_len over in
          omega (arith, truncated-length content max_len id lt))
    ]

pub truncate_tool_result-load :
    (content : Text) (max_len : ℕ) (id : Text) (s : InMemoryContentStore)
    → let (out, s') = truncate_tool_result content max_len (some (in_memory none)) id s in
      (out ≡ content) ⊎ (((in_memory none).load id s').0 ≡ ok content)
unfolding truncate_tool_result
truncate_tool_result-load content max_len id s = elim (Bool-cases (leb (length content) max_len)) [
  | inl fits ↦ rw fits (inl refl)
  | inr over ↦ rw over (
      inr (
        load-store id id content s
        ∙ ap (λ b. if b then ok content else ((in_memory none).load id s).0) (text_eq_refl id)))
]
