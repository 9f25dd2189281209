-- ===== src/Chat/Steps.antt =====
-- internal/chat/memory_repository.go: the calls that change the repository as steps, and what holds
-- after any sequence of them.
use harness_loop_agent.Base.{
  ◌≡◌, String, true, false, [], ◌∷◌, Option, none, some, ok, arith, inl, inr, Option-cases, ◌++◌,
  eq_iff, subst, sym, ◌⊎◌,
}
use harness_loop_agent.Base.Word.{Time}
use harness_loop_agent.Base.Dict.{lookup, insert, lookup-insert, Each-insert}
use harness_loop_agent.Chat.{
  Session, Owner, Message, RunStatus, terminal, Run, Event, CreateRunInput, CreatedRun, running,
  completed, cancelled,
}
use harness_loop_agent.Chat.Store.{
  MemoryRepository, create_session, create_run, get_run, start_run, append_event, complete_run,
  fail_run, cancel_run, interrupt_running, any_active, or_empty,
}
use harness_loop_agent.Chat.Moves.{
  Moves, Moves-refl, Moves-insert, Moves-OneActive, OneActive, OneActive-insert,
  interrupt_all-Moves,
}
use harness_loop_agent.Chat.Journal.{
  InOrder, Journals, append_event_locked-Journals, interrupt_all-Journals,
}

module _ {D W : Type 0} (clock : W → Time × W) (note : RunStatus → D) where
  -- A call that changes the repository. A run is created for the session of its request, under an
  -- id that is new: the service draws it at random.
  pub data ChatStep : MemoryRepository D → MemoryRepository D → Type 0 where
    by_session : (r : MemoryRepository D) (s : Session) → ChatStep r (create_session r s)
    by_create :
        (r r' : MemoryRepository D) (input : CreateRunInput) (run : Run) (m : Message) (e : Event D)
        (c : CreatedRun)
        → run.session_id ≡ input.session_id
        → lookup run.id r.runs ≡ none
        → lookup run.id r.events ≡ none
        → create_run r input run m e ≡ ok (c, r')
        → ChatStep r r'
    by_start :
        (r r' : MemoryRepository D) (id : String) (e : Event D)
        → start_run r id e ≡ ok r'
        → ChatStep r r'
    by_append :
        (r r' : MemoryRepository D) (e e' : Event D)
        → append_event r e ≡ ok (e', r')
        → ChatStep r r'
    by_complete :
        (r r' : MemoryRepository D) (id : String) (m : Message) (e : Event D)
        → complete_run r id m e ≡ ok r'
        → ChatStep r r'
    by_fail :
        (r r' : MemoryRepository D) (id : String) (s : RunStatus) (code text : String) (e : Event D)
        → fail_run r id s code text e ≡ ok r'
        → ChatStep r r'
    by_cancel :
        (r r' : MemoryRepository D) (o : Owner) (id : String) (e : Event D) (a : Option Run)
        → cancel_run r o id e ≡ (a, ok r')
        → ChatStep r r'
    by_interrupt :
        (r : MemoryRepository D) (w : W) → ChatStep r (interrupt_running clock note r w).0

  pub data ChatSteps : MemoryRepository D → MemoryRepository D → Type 0 where
    stay : (r : MemoryRepository D) → ChatSteps r r
    step : (r s t : MemoryRepository D) → ChatStep r s → ChatSteps s t → ChatSteps r t

  start_run-Moves :
      (r r' : MemoryRepository D) (id : String) (e : Event D)
      → start_run r id e ≡ ok r'
      → Moves r.runs r'.runs
  unfolding start_run
  start_run-Moves r r' id e h = elim (Option-cases (lookup id r.runs)) [
    | inl n ↦ ground arith
    | inr (a, n) ↦ ground (
      arith,
      Moves-insert r.runs id a (record a { status = running; started_at = some e.created_at }) n,
    )
  ]

  complete_run-Moves :
      (r r' : MemoryRepository D) (id : String) (m : Message) (e : Event D)
      → complete_run r id m e ≡ ok r'
      → Moves r.runs r'.runs
  unfolding complete_run
  complete_run-Moves r r' id m e h = elim (Option-cases (lookup id r.runs)) [
    | inl n ↦ ground arith
    | inr (a, n) ↦ ground (
      arith,
      Moves-insert r.runs id a (record a { status = completed; completed_at = some e.created_at })
          n,
    )
  ]

  fail_run-Moves :
      (r r' : MemoryRepository D) (id : String) (s : RunStatus) (code text : String) (e : Event D)
      → fail_run r id s code text e ≡ ok r'
      → Moves r.runs r'.runs
  unfolding fail_run
  fail_run-Moves r r' id s code text e h = elim (Option-cases (lookup id r.runs)) [
    | inl n ↦ ground arith
    | inr (a, n) ↦ ground (
      arith,
      Moves-insert r.runs id a
          (record a {
            status = s;
            error_code = code;
            error_message = text;
            completed_at = some e.created_at;
          })
          n,
    )
  ]

  cancel_run-Moves :
      (r r' : MemoryRepository D) (o : Owner) (id : String) (e : Event D) (b : Option Run)
      → cancel_run r o id e ≡ (b, ok r')
      → Moves r.runs r'.runs
  unfolding cancel_run get_run
  cancel_run-Moves r r' o id e b h = elim (Option-cases (lookup id r.runs)) [
    | inl n ↦ ground arith
    | inr (a, n) ↦ ground (
      arith,
      Moves-insert r.runs id a (record a { status = cancelled; completed_at = some e.created_at })
          n,
    )
  ]

  append_event-runs :
      (r r' : MemoryRepository D) (e e' : Event D)
      → append_event r e ≡ ok (e', r')
      → r'.runs ≡ r.runs
  unfolding append_event
  append_event-runs r r' e e' h = ground arith

  create_run_cases :
      (r r' : MemoryRepository D) (input : CreateRunInput) (run : Run) (m : Message) (e : Event D)
      (c : CreatedRun)
      → create_run r input run m e ≡ ok (c, r')
      → (r' ≡ r)
        ⊎ ((any_active input.session_id r.runs ≡ false)
            × (r'.runs ≡ insert run.id run r.runs)
            × (r'.events
                ≡ insert run.id
                    (or_empty (lookup run.id r.events) ++ (record e { sequence = 1 } ∷ []))
                    r.events))
  unfolding create_run
  create_run_cases r r' input run m e c h =
      elim (Option-cases (lookup input.session_id r.sessions)) [
        | inl n ↦ ground arith
        | inr (s, n) ↦ ground arith
      ]

  -- Every call but `CreateRun` moves the runs that are there.
  ChatStep-Moves :
      (r r' : MemoryRepository D)
      → ChatStep r r'
      → Moves r.runs r'.runs
        ⊎ ((run : Run) × (lookup run.id r.runs ≡ none)
            × (any_active run.session_id r.runs ≡ false)
            × (r'.runs ≡ insert run.id run r.runs))
  unfolding create_session interrupt_running
  ChatStep-Moves r r' (by_session _ s) = inl (Moves-refl r.runs)
  ChatStep-Moves r r' (by_create _ _ input run m e c same n _ h) =
      elim (create_run_cases r r' input run m e c h) [
        | inl e' ↦ inl (subst (λ t. Moves r.runs t.runs) (sym e') (Moves-refl r.runs))
        | inr (free, e', _) ↦ inr (run, n, ground (arith, same, free), e')
      ]
  ChatStep-Moves r r' (by_start _ _ id e h) = inl (start_run-Moves r r' id e h)
  ChatStep-Moves r r' (by_append _ _ e e' h) =
      inl (
        subst (λ runs. Moves r.runs runs) (sym (append_event-runs r r' e e' h)) (Moves-refl r.runs))
  ChatStep-Moves r r' (by_complete _ _ id m e h) = inl (complete_run-Moves r r' id m e h)
  ChatStep-Moves r r' (by_fail _ _ id s code text e h) =
      inl (fail_run-Moves r r' id s code text e h)
  ChatStep-Moves r r' (by_cancel _ _ o id e a h) = inl (cancel_run-Moves r r' o id e a h)
  ChatStep-Moves r r' (by_interrupt _ w) = inl (interrupt_all-Moves clock note r.runs r.events w)

  ChatStep-OneActive :
      (r r' : MemoryRepository D) → ChatStep r r' → OneActive r.runs → OneActive r'.runs
  ChatStep-OneActive r r' h one = elim (ChatStep-Moves r r' h) [
    | inl m ↦ Moves-OneActive r.runs r'.runs m one
    | inr (run, _, free, e) ↦
        subst (λ runs. OneActive runs) (sym e) (OneActive-insert r.runs run.id run free one)
  ]

  ChatStep-terminal :
      (r r' : MemoryRepository D) (id : String) (run : Run)
      → ChatStep r r'
      → lookup id r.runs ≡ some run
      → terminal run.status ≡ true
      → lookup id r'.runs ≡ some run
  ChatStep-terminal r r' id run h e t = elim (ChatStep-Moves r r' h) [
    | inl m ↦ m.kept id run e t
    | inr (fresh, n, _, e') ↦
        ground (arith, e', lookup-insert fresh.id id fresh r.runs, eq_iff fresh.id id)
  ]

  -- A call leaves the events, appends one, stops open runs, or creates a run's first.
  ChatStep-Journals :
      (r r' : MemoryRepository D) → ChatStep r r' → Journals r.events → Journals r'.events
  unfolding create_session interrupt_running append_event start_run complete_run fail_run cancel_run
      get_run
  ChatStep-Journals r r' (by_session _ s) j = j
  ChatStep-Journals r r' (by_create _ _ input run m e c same _ n h) j =
      elim (create_run_cases r r' input run m e c h) [
        | inl e' ↦ ground (arith, e')
        | inr (_, _, e') ↦
            let first = record e { sequence = 1 } in
            subst Journals (sym e') (
              Each-insert (λ _ es. InOrder 1 es) run.id
                (or_empty (lookup run.id r.events) ++ (first ∷ [])) r.events (ground (arith, n)) j)
      ]
  ChatStep-Journals r r' (by_start _ _ id e h) j =
      ground (arith, append_event_locked-Journals e r.events j)
  ChatStep-Journals r r' (by_append _ _ e e' h) j =
      ground (arith, append_event_locked-Journals e r.events j)
  ChatStep-Journals r r' (by_complete _ _ id m e h) j =
      ground (arith, append_event_locked-Journals e r.events j)
  ChatStep-Journals r r' (by_fail _ _ id s code text e h) j =
      ground (arith, append_event_locked-Journals e r.events j)
  ChatStep-Journals r r' (by_cancel _ _ o id e a h) j =
      ground (arith, append_event_locked-Journals e r.events j)
  ChatStep-Journals r r' (by_interrupt _ w) j =
      interrupt_all-Journals clock note r.runs r.events w j

  -- After any sequence of successful calls that change the repository, where a run is created for
  -- the session of its request and under a new id, no session has two runs that are not terminal,
  -- if none had before.
  pub ChatSteps-OneActive :
      (r r' : MemoryRepository D) → ChatSteps r r' → OneActive r.runs → OneActive r'.runs
  ChatSteps-OneActive r r' (stay _) one = one
  ChatSteps-OneActive r r' (step _ s _ h hs) one =
      ChatSteps-OneActive s r' hs (ChatStep-OneActive r s h one)

  -- After any such sequence of calls, the events under every run are numbered 1, 2, 3 and so on,
  -- modulo 2 ^ 64, if they were before.
  pub ChatSteps-Journals :
      (r r' : MemoryRepository D) → ChatSteps r r' → Journals r.events → Journals r'.events
  ChatSteps-Journals r r' (stay _) j = j
  ChatSteps-Journals r r' (step _ s _ h hs) j =
      ChatSteps-Journals s r' hs (ChatStep-Journals r s h j)

  -- In any such sequence of calls, a run that is completed, failed, cancelled, timed out or
  -- interrupted stays as it is, field by field.
  pub ChatSteps-terminal :
      (r r' : MemoryRepository D) (id : String) (run : Run)
      → ChatSteps r r'
      → lookup id r.runs ≡ some run
      → terminal run.status ≡ true
      → lookup id r'.runs ≡ some run
  ChatSteps-terminal r r' id run (stay _) e t = e
  ChatSteps-terminal r r' id run (step _ s _ h hs) e t =
      ChatSteps-terminal s r' id run hs (ChatStep-terminal r s id run h e t) t
