-- ===== src/Chat/Store.antt =====
-- internal/chat/memory_repository.go: the repository in memory. Its mutex makes each method one step.
-- The maps are association lists; a method that fails returns no store, since it has changed nothing.
use Prim.Native.String.{◌++◌ as append}
use harness_loop_agent.Base.{
  ℕ, ◌+◌, ◌%◌, String, Bool, true, false, not, ◌||◌, ◌&&◌, List, [], ◌∷◌, ◌++◌, length, Option,
  none, some, Result, ok, err, ◌>>=◌, ◌>>◌, reject_if, or_fail, if◌then◌else◌, str_eq, ◌==◌, drop,
  ◌-◌, ltb,
}
use harness_loop_agent.Base.Word.{Time, word_mod, slt}
use harness_loop_agent.Base.Dict.{Dict, lookup, insert}
use harness_loop_agent.Chat.{
  Session, Owner, Message, RunStatus, terminal, Run, Event, CreateRunInput, CreatedRun, ChatError,
  queued, running, completed, cancelled, interrupted, not_found, active_run, invalid_state,
}

pub record MemoryRepository (D : Type 0) : Type 0 where
  pub sessions : Dict Session
  pub messages : Dict (List Message)
  pub runs : Dict Run
  pub events : Dict (List (Event D))
  pub idem : Dict String

abbrev pub new_memory_repository : {D : Type 0} → MemoryRepository D
new_memory_repository = record { sessions = []; messages = []; runs = []; events = []; idem = [] }

-- A missing key reads as the zero value.
abbrev pub or_empty {ℓ} : {A : Type ℓ} → Option (List A) → List A
or_empty none = []
or_empty (some xs) = xs

abbrev pub or_zero_session : Option Session → Session
or_zero_session (some s) = s
or_zero_session none = record {
  id = "";
  user_id = 0;
  tenant_id = 0;
  title = "";
  status = "";
  created_at = 0;
  updated_at = 0;
}

abbrev pub or_zero_run : Option Run → Run
or_zero_run (some r) = r
or_zero_run none = record {
  id = "";
  session_id = "";
  status = RunStatus.other "";
  model = "";
  idempotency_key = "";
  error_code = "";
  error_message = "";
  created_at = 0;
  started_at = none;
  completed_at = none;
}

abbrev pub owned : Owner → Session → Bool
owned owner s = (s.user_id == owner.user_id) && (s.tenant_id == owner.tenant_id)

-- The key under which a session remembers a request.
abbrev pub idem_key : CreateRunInput → String
idem_key input = append input.session_id (append "\0" input.idempotency_key)

-- Whether a run of the session is not terminal.
abbrev pub any_active : String → Dict Run → Bool
any_active session_id [] = false
any_active session_id ((_, run) ∷ runs) =
    (str_eq run.session_id session_id && not (terminal run.status)) || any_active session_id runs

-- Events after a sequence, up to a limit that an empty answer never meets.
abbrev pub events_after : {D : Type 0} → ℕ → ℕ → ℕ → List (Event D) → List (Event D)
events_after after limit n [] = []
events_after after limit n (e ∷ es) =
    let more = events_after after limit (n + 1) es in
    let rest = events_after after limit n es in
    if slt after e.sequence then (if (n + 1) == limit then e ∷ [] else e ∷ more) else rest

abbrev pub number_message : List Message → Message → Message
number_message ms m = record m { sequence = (length ms + 1) % word_mod }

module _ {D : Type 0} where
  abbrev pub numbered : List (Event D) → Event D → Event D
  numbered es event = record event { sequence = (length es + 1) % word_mod }

  -- `appendEventLocked`, on the map of events
  abbrev pub append_event_locked : Event D → Dict (List (Event D)) → Dict (List (Event D))
  append_event_locked event all =
      let es = or_empty (lookup event.run_id all) in
      insert event.run_id (es ++ (numbered es event ∷ [])) all

  module _ (r : MemoryRepository D) where
    unfoldable pub create_session : Session → MemoryRepository D
    create_session session = record r { sessions = insert session.id session r.sessions }

    unfoldable pub get_session : Owner → String → Result ChatError Session
    get_session owner id = do
      session ← or_fail (lookup id r.sessions) not_found
      reject_if (not (owned owner session)) not_found
      ok session

    -- The answer for a limit that is not negative.
    unfoldable pub list_messages : Owner → String → ℕ → Result ChatError (List Message)
    list_messages owner session_id limit = do
      session ← or_fail (lookup session_id r.sessions) not_found
      reject_if (not (owned owner session)) not_found
      let messages = or_empty (lookup session_id r.messages)
      ok (if ltb limit (length messages) then drop (length messages - limit) messages else messages)

    -- `CreateRun` behind its checks
    abbrev pub insert_run : CreateRunInput → Session → Run → Message → Event D → MemoryRepository D
    insert_run input session run user_message first =
        let ms = or_empty (lookup input.session_id r.messages) in
        record {
          sessions =
              insert input.session_id (record session { updated_at = user_message.created_at })
                r.sessions;
          messages =
              insert input.session_id (ms ++ (number_message ms user_message ∷ [])) r.messages;
          runs = insert run.id run r.runs;
          events =
              insert run.id
                (or_empty (lookup run.id r.events) ++ (record first { sequence = 1 } ∷ []))
                r.events;
          idem = insert (idem_key input) run.id r.idem;
        }

    -- `CreateRun` for a request that was not seen before
    abbrev pub create_fresh :
        CreateRunInput
        → Session
        → Run
        → Message
        → Event D
        → Result ChatError (CreatedRun × MemoryRepository D)
    create_fresh input session run user_message first =
        if any_active input.session_id r.runs
        then err active_run
        else ok
            (record { run = run; created = true }, insert_run input session run user_message first)

    unfoldable pub create_run :
        CreateRunInput
        → Run
        → Message
        → Event D
        → Result ChatError (CreatedRun × MemoryRepository D)
    create_run input run user_message first = do
      session ← or_fail (lookup input.session_id r.sessions) not_found
      reject_if (not (owned input.owner session)) not_found
      elim (lookup (idem_key input) r.idem) [
        | none ↦ create_fresh input session run user_message first
        | some existing ↦
            ok (record { run = or_zero_run (lookup existing r.runs); created = false }, r)
      ]

    -- `GetRun`, which `CancelRun` and `ListEvents` start as well
    unfoldable pub get_run : Owner → String → Result ChatError Run
    get_run owner id = do
      run ← or_fail (lookup id r.runs) not_found
      reject_if (not (owned owner (or_zero_session (lookup run.session_id r.sessions)))) not_found
      ok run

    -- A run is stored and an event is appended.
    abbrev pub put_run : String → Run → Event D → MemoryRepository D
    put_run id run event = record r {
      runs = insert id run r.runs;
      events = append_event_locked event r.events;
    }

    unfoldable pub start_run : String → Event D → Result ChatError (MemoryRepository D)
    start_run run_id event = do
      run ← or_fail (lookup run_id r.runs) not_found
      elim run.status [
        | queued ↦ ok (
            put_run run_id (record run { status = running; started_at = some event.created_at })
              event)
        | _ ↦ err invalid_state
      ]

    unfoldable pub append_event : Event D → Result ChatError (Event D × MemoryRepository D)
    append_event event = do
      _ ← or_fail (lookup event.run_id r.runs) not_found
      ok (
        numbered (or_empty (lookup event.run_id r.events)) event,
        record r { events = append_event_locked event r.events },
      )

    unfoldable pub complete_run : String → Message → Event D → Result ChatError (MemoryRepository D)
    complete_run run_id assistant event = do
      run ← or_fail (lookup run_id r.runs) not_found
      let ms = or_empty (lookup run.session_id r.messages)
      elim run.status [
        | running ↦ ok (record r {
          messages = insert run.session_id (ms ++ (number_message ms assistant ∷ [])) r.messages;
          runs =
              insert run_id
                (record run { status = completed; completed_at = some event.created_at }) r.runs;
          events = append_event_locked event r.events;
        })
        | _ ↦ err invalid_state
      ]

    unfoldable pub fail_run :
        String → RunStatus → String → String → Event D → Result ChatError (MemoryRepository D)
    fail_run run_id status code message event = do
      run ← or_fail (lookup run_id r.runs) not_found
      reject_if (terminal run.status) invalid_state
      ok (
          put_run run_id
            (record run {
              status = status;
              error_code = code;
              error_message = message;
              completed_at = some event.created_at;
            })
            event)

    -- A run that has ended is returned together with the error.
    unfoldable pub cancel_run :
        Owner → String → Event D → Option Run × Result ChatError (MemoryRepository D)
    unfolding get_run
    cancel_run owner run_id event = elim (get_run owner run_id) [
      | err e ↦ (none, err e)
      | ok run ↦ elim (terminal run.status) [
        | true ↦ (some run, err invalid_state)
        | false ↦
            let stopped : Run = record run {
              status = cancelled;
              completed_at = some event.created_at;
            } in
            (some stopped, ok (put_run run_id stopped event))
      ]
    ]

    unfoldable pub list_events : Owner → String → ℕ → ℕ → Result ChatError (List (Event D))
    unfolding get_run
    list_events owner run_id after limit = do
      _ ← get_run owner run_id
      ok (events_after after limit 0 (or_empty (lookup run_id r.events)))

-- What `InterruptRunning` stops.
abbrev pub is_open : RunStatus → Bool
is_open queued = true
is_open running = true
is_open _ = false

-- `InterruptRunning`: a walk over the runs, with a reading of the clock for each that is stopped.
-- `note` is the event's data, a status under its name.
module _ {D W : Type 0} (clock : W → Time × W) (note : RunStatus → D) where
  abbrev pub interruption : String → Time → Event D
  interruption id now = record {
    run_id = id;
    sequence = 0;
    kind = "run.interrupted";
    payload = note interrupted;
    created_at = now;
  }

  abbrev pub interrupt_all :
      Dict Run → Dict (List (Event D)) → W → Dict Run × Dict (List (Event D)) × W
  interrupt_all [] events w = ([], events, w)
  interrupt_all ((id, run) ∷ runs) events w =
      let (now, w1) = clock w in
      let stopped : Run = record run { status = interrupted; completed_at = some now } in
      let (rest, events1, w2) =
        interrupt_all runs (append_event_locked (interruption id now) events) w1 in
      let (rest', events1', w2') = interrupt_all runs events w in
      if is_open run.status
      then ((id, stopped) ∷ rest, events1, w2)
      else ((id, run) ∷ rest', events1', w2')

  unfoldable pub interrupt_running : MemoryRepository D → W → MemoryRepository D × W
  interrupt_running r w =
      let (runs, events, w1) = interrupt_all r.runs r.events w in
      (record r { runs = runs; events = events }, w1)
