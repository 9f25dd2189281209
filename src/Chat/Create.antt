-- ===== src/Chat/Create.antt =====
-- internal/chat/memory_repository.go: `CreateRun` called again with the same key.
use harness_loop_agent.Base.{◌≡◌, inl, inr, false, ok, arith, Option-cases}
use harness_loop_agent.Base.Dict.{lookup, lookup-insert_self}
use harness_loop_agent.Chat.{Message, Run, Event, CreateRunInput, CreatedRun, Session}
use harness_loop_agent.Chat.Store.{MemoryRepository, create_run, idem_key}

-- If `CreateRun` accepts a request, the same request made next, with whatever run, message and
-- event, returns the same run, marked as not created, and leaves the repository as it is.
pub create_run-create_run :
    {D : Type 0} (r r' : MemoryRepository D) (input : CreateRunInput) (run run' : Run)
    (m m' : Message) (e e' : Event D) (c : CreatedRun)
    → create_run r input run m e ≡ ok (c, r')
    → create_run r' input run' m' e' ≡ ok (record c { created = false }, r')
unfolding create_run
create_run-create_run r r' input run run' m m' e e' c h =
    elim (Option-cases (lookup input.session_id r.sessions)) [
      | inl n ↦ ground arith
      | inr (s, n) ↦
          let s' : Session = record s { updated_at = m.created_at } in
          let key = idem_key input in
          elim (Option-cases (lookup key r.idem)) [
            | inl k ↦ ground (
              arith,
              n,
              k,
              lookup-insert_self input.session_id s' r.sessions,
              lookup-insert_self key run.id r.idem,
              lookup-insert_self run.id run r.runs,
            )
            | inr (old, k) ↦ ground (arith, n, k)
          ]
    ]
