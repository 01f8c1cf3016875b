-- ===== src/Interrupter/Hitl.antt =====
-- interrupter/hitl.go: which tool calls a human is asked about.
use simple_agent_framework.Prelude.{
  Bool, true, false, ◌&&◌, ◌||◌, not, if◌then◌else◌, List, [], ◌∷◌, ◌++◌, Option, none, some, ◌≡◌,
  refl, ap, arith, Bool-cases, inl, inr,
}
use simple_agent_framework.Prelude.Text.{
  Text, codes, text_eq, text_eq_iff, is_empty, contains, has_prefix, trim_space, to_lower,
}
use simple_agent_framework.Errors.{Error, Exec, Result, ok, err}
use simple_agent_framework.Planner.{Action, ActionType, tool_call}
use simple_agent_framework.Interrupter.{
  Interrupter, InterruptEvent, before_tool_call, HumanResponse,
}

pub record HitlConfig : Type 0 where
  pub require_approval : List Text
  pub auto_approve_read : Bool

-- `approval_fn` may be nil. `expired` is what the waiting context reports by the time the approval
-- function has answered: it is cancelled, or the wait timeout has passed.
pub record HitlHandler (W : Type 0) : Type 0 where
  pub config : HitlConfig
  pub approval_fn : Option (InterruptEvent → Exec W (Option HumanResponse))
  pub expired : W → Option Error

abbrev pub read_keywords : List Text
read_keywords =
    codes "read"
    ∷ codes "get"
    ∷ codes "list"
    ∷ codes "fetch"
    ∷ codes "query"
    ∷ codes "search"
    ∷ codes "retrieve"
    ∷ codes "lookup"
    ∷ codes "view"
    ∷ codes "download"
    ∷ []

unfoldable pub contains_any : Text → List Text → Bool
contains_any name [] = false
contains_any name (kw ∷ kws) = contains name kw || contains_any name kws

unfoldable pub is_read_class_tool : Text → Bool
unfolding contains_any
is_read_class_tool tool_name =
    let name = to_lower (trim_space tool_name) in
    if is_empty name then false else contains_any name read_keywords

unfoldable pub tool_in_list : Text → List Text → Bool
tool_in_list tool_name [] = false
tool_in_list tool_name (t ∷ ts) = text_eq t tool_name || tool_in_list tool_name ts

abbrev pub is_tool_call : ActionType → Bool
is_tool_call tool_call = true
is_tool_call _ = false

abbrev pub listed : Text → List Text → Bool
listed tool_name [] = true
listed tool_name (t ∷ ts) = tool_in_list tool_name (t ∷ ts)

module _ {W : Type 0} (h : HitlHandler W) where
  unfoldable pub should_interrupt_for_tool : Action → Bool
  unfolding tool_in_list
  should_interrupt_for_tool act =
      if not (is_tool_call act.kind)
      then false
      else if h.config.auto_approve_read && is_read_class_tool act.tool_name
      then false
      else listed act.tool_name h.config.require_approval

  unfoldable pub should_interrupt : InterruptEvent → Exec W Bool
  should_interrupt evt w = elim evt.kind [
    | before_tool_call ↦ (ok (should_interrupt_for_tool evt.action), w)
    | _ ↦ (ok true, w)
  ]

  abbrev pub raced : Result (Option HumanResponse) × W → Result (Option HumanResponse) × W
  raced (r, w) = elim (h.expired w) [ none ↦ (r, w) | some e ↦ (err e, w) ]

  unfoldable pub wait_for_human : InterruptEvent → Exec W (Option HumanResponse)
  wait_for_human evt w = elim h.approval_fn [
    | none ↦ (err (Error.other (codes "interrupter: approval function is nil")), w)
    | some f ↦ raced (f evt w)
  ]

  unfoldable pub handler : Interrupter W
  handler = record { should_interrupt = should_interrupt; wait_for_human = wait_for_human }

has_prefix-append : (p b : Text) → has_prefix (p ++ b) p ≡ true
unfolding has_prefix
has_prefix-append [] b = ground arith
has_prefix-append (c ∷ p) b = ground (arith, has_prefix-append p b)

contains-append : (a p b : Text) → contains (a ++ (p ++ b)) p ≡ true
unfolding contains
contains-append [] [] [] = ground (arith, has_prefix-append [] [])
contains-append [] [] (c ∷ b) = ground (arith, has_prefix-append [] (c ∷ b))
contains-append [] (d ∷ p) b = ground (arith, has_prefix-append (d ∷ p) b)
contains-append (c ∷ a) p b = ground (arith, contains-append a p b)

contains_any-append :
    (a kw b : Text) (kws : List Text)
    → tool_in_list kw kws ≡ true
    → contains_any (a ++ (kw ++ b)) kws ≡ true
unfolding contains_any tool_in_list
contains_any-append a kw b [] h = absurd (cc)
contains_any-append a kw b (k ∷ kws) h = elim (Bool-cases (text_eq k kw)) [
  | inl same ↦ rw ((text_eq_iff k kw).0 same, contains-append a kw b) refl
  | inr differs ↦ ground (arith, contains_any-append a kw b kws (ground arith))
]

not_empty : (a kw b : Text) → is_empty kw ≡ false → is_empty (a ++ (kw ++ b)) ≡ false
not_empty [] [] b h = absurd (cc)
not_empty [] (c ∷ kw) b h = refl
not_empty (x ∷ a) kw b h = refl

if_same : (b : Bool) → (if not b then false else false) ≡ false
if_same b = ground arith

-- With AutoApproveRead, nobody is asked before a call of a tool whose name has one of the keywords
-- anywhere, at its start or not, even where the tool is one that requires approval.
pub keyword-unasked :
    {W : Type 0} (h : HitlHandler W) (act : Action) (a kw b : Text) (w : W)
    → h.config.auto_approve_read ≡ true
    → tool_in_list kw read_keywords ≡ true
    → is_empty kw ≡ false
    → to_lower (trim_space act.tool_name) ≡ a ++ (kw ++ b)
    → (should_interrupt h (record { kind = before_tool_call; action = act }) w).0 ≡ ok false
unfolding should_interrupt should_interrupt_for_tool is_read_class_tool
keyword-unasked h act a kw b w auto known full name = ap ok (
    rw
      (
        should_interrupt_for_tool,
        auto,
        is_read_class_tool,
        name,
        not_empty a kw b full,
        contains_any-append a kw b read_keywords known,
      )
      (if_same (is_tool_call act.kind)))
