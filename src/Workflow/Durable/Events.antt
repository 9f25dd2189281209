-- ===== src/Workflow/Durable/Events.antt =====
-- A run observed by the collector: the events it collects are those that the commit accepts.
use harness_loop_agent.Base.{
  ℕ, suc, ◌+◌, ◌≤◌, ◌<◌, ◌≡◌, refl, sym, String, true, List, [], ◌∷◌, ◌++◌, Option, ok, arith,
  length, length-append, eq_iff, ◌∙◌,
}
use harness_loop_agent.Base.Word.{word_mod, sign_bit}
use harness_loop_agent.Base.Dict.{lookup, insert, lookup-insert_self}
use harness_loop_agent.Workflow.Errors.{ErrorCode}
use harness_loop_agent.Workflow.Ident.{valid_identifier}
use harness_loop_agent.Workflow.State.{WorkflowState, touch}
use harness_loop_agent.Workflow.Event.{
  NodeEvent, NodeEventType, MemoryCollector, or_zero, observe, valid_event_type,
}
use harness_loop_agent.Workflow.Store.Commit.{check_events, validate_committed_events}
use harness_loop_agent.Workflow.Runner.{event_of, count_event}

-- The events are those of the run, numbered from `number` on.
abbrev pub Numbered : ℕ → String → List NodeEvent → Type 0
Numbered number run_id [] = Unit
Numbered number run_id (e ∷ es) =
    (e.run_id ≡ run_id)
    × (e.sequence ≡ number)
    × (valid_event_type e.kind ≡ true)
    × (valid_identifier e.workflow_id ≡ true)
    × (valid_identifier e.node_id ≡ true)
    × Numbered (suc number) run_id es

check_events-Numbered :
    (number : ℕ) (run_id : String) (es : List NodeEvent)
    → number + length es < word_mod
    → Numbered number run_id es
    → check_events number run_id es ≡ ok tt
unfolding check_events
check_events-Numbered number run_id [] b h = refl
check_events-Numbered number run_id (e ∷ es) b h =
    ground (arith, eq_iff e.run_id run_id, check_events-Numbered (suc number) run_id es)

Numbered-append :
    (number : ℕ) (run_id : String) (es : List NodeEvent) (e : NodeEvent)
    → Numbered number run_id es
    → Numbered (number + length es) run_id (e ∷ [])
    → Numbered number run_id (es ++ e ∷ [])
Numbered-append number run_id [] e h k = ground arith
Numbered-append number run_id (x ∷ es) e h k =
    ground (arith, Numbered-append (suc number) run_id es e)

-- The collector has the events of the run from `base` on, up to the state's own count.
pub record Covers {T : Type 0} (base : ℕ) (c : MemoryCollector) (s : WorkflowState T) : Type 0 where
  pub numbered : Numbered (suc base) s.meta.run_id c.events
  pub count : s.control.event_sequence ≡ base + length c.events
  pub last : or_zero (lookup s.meta.run_id c.last_by_run) ≤ s.control.event_sequence
  pub workflow : valid_identifier s.meta.workflow_id ≡ true
  pub run : valid_identifier s.meta.run_id ≡ true

-- What covers depends on is the metadata and the count of events.
pub Covers-same :
    {T : Type 0} (base : ℕ) (c : MemoryCollector) {s t : WorkflowState T}
    → s.meta ≡ t.meta
    → s.control.event_sequence ≡ t.control.event_sequence
    → Covers base c s
    → Covers base c t
Covers-same base c hm he h = record {
  numbered = rw (← hm) h.numbered;
  count = sym he ∙ h.count;
  last = rw (← hm) (rw (← he) h.last);
  workflow = rw (← hm) h.workflow;
  run = rw (← hm) h.run;
}

Numbered-committed :
    (base final : ℕ) (run_id : String) (es : List NodeEvent)
    → Numbered (suc base) run_id es
    → final ≡ base + length es
    → final < sign_bit
    → validate_committed_events base final run_id es ≡ ok tt
unfolding validate_committed_events
Numbered-committed base final run_id [] h q b = ground arith
Numbered-committed base final run_id (e ∷ es) h q b =
    ground (arith, check_events-Numbered (suc base) run_id (e ∷ es))

-- The events that cover a run are accepted by the commit's check.
pub validate_committed-Covers :
    {T : Type 0} (base : ℕ) (c : MemoryCollector) (s : WorkflowState T)
    → Covers base c s
    → s.control.event_sequence < sign_bit
    → validate_committed_events base s.control.event_sequence s.meta.run_id c.events ≡ ok tt
validate_committed-Covers base c s h b =
    Numbered-committed base s.control.event_sequence s.meta.run_id c.events h.numbered h.count b

-- One event more: the collector takes it, and covers the run again.
pub observe-Covers :
    {T : Type 0} (base : ℕ) (c : MemoryCollector) (s : WorkflowState T) (kind : NodeEventType)
    (node wait : String) (code : Option ErrorCode) (duration at : ℕ)
    → Covers base c s
    → valid_event_type kind ≡ true
    → valid_identifier node ≡ true
    → s.control.event_sequence + 1 < sign_bit
    → (d : MemoryCollector) × (observe c (event_of (count_event s) kind node wait code duration at)
        ≡ ok d)
      × Covers base d (count_event s)
unfolding observe count_event event_of touch
observe-Covers base c s kind node wait code duration at h k n b =
    let e = event_of (count_event s) kind node wait code duration at in
    let d : MemoryCollector = record {
      events = c.events ++ e ∷ [];
      last_by_run = insert e.run_id e.sequence c.last_by_run;
    } in
    (
      d,
      ground arith,
      record {
        numbered = Numbered-append (suc base) s.meta.run_id c.events e h.numbered (ground arith);
        count = ground (arith, length-append c.events (e ∷ []));
        last = rw lookup-insert_self (omega arith);
        workflow = h.workflow;
        run = h.run;
      },
    )
