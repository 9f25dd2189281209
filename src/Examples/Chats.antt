-- ===== src/Examples/Chats.antt =====
-- The chat repository: a run that is created, started and completed.
use harness_loop_agent.Base.{
  ℕ, ◌≡◌, refl, String, Bool, true, false, List, [], ◌∷◌, Option, none, some, Result, ok, err,
  arith, eq_iff,
}
use harness_loop_agent.Base.Word.{Time}
use harness_loop_agent.Base.Dict.{Dict, lookup}
use harness_loop_agent.Chat.{
  Session, Message, RunStatus, queued, running, completed, Run, Event, CreateRunInput,
}
use harness_loop_agent.Chat.Store.{
  MemoryRepository, new_memory_repository, create_session, create_run, start_run, complete_run,
  append_event,
}
use harness_loop_agent.Chat.Moves.{OneActive}
use harness_loop_agent.Chat.Journal.{Journals}
use harness_loop_agent.Chat.Steps.{
  ChatSteps, stay, step, by_create, by_start, by_complete, by_append, ChatSteps-OneActive,
  ChatSteps-Journals, ChatSteps-terminal,
}
use harness_loop_agent.Chat.Create.{create_run-create_run}

abbrev session : Session
session = record {
  id = "s";
  user_id = 1;
  tenant_id = 2;
  title = "";
  status = "active";
  created_at = 1;
  updated_at = 1;
}

abbrev input : CreateRunInput
input = record {
  session_id = "s";
  owner = record { user_id = 1; tenant_id = 2 };
  content = "hello";
  model = "m";
  idempotency_key = "k";
  user_access_token = "";
  knowledge_base_ids = [];
}

abbrev message : Message
message = record {
  id = "m";
  session_id = "s";
  run_id = "r";
  sequence = 0;
  role = "user";
  content = "hello";
  created_at = 2;
}

abbrev run : Run
run = record {
  id = "r";
  session_id = "s";
  status = queued;
  model = "m";
  idempotency_key = "k";
  error_code = "";
  error_message = "";
  created_at = 2;
  started_at = none;
  completed_at = none;
}

abbrev event : Event String
event = record { run_id = "r"; sequence = 0; kind = "run"; payload = ""; created_at = 3 }

abbrev clock : ℕ → Time × ℕ
clock w = (w, w)

abbrev note : RunStatus → String
note _ = "interrupted"

abbrev empty : MemoryRepository String
empty = new_memory_repository

abbrev with_session : MemoryRepository String
with_session = record empty { sessions = ("s", session) ∷ [] }

abbrev created : MemoryRepository String
created = record {
  sessions = ("s", record session { updated_at = 2 }) ∷ [];
  messages = ("s", record message { sequence = 1 } ∷ []) ∷ [];
  runs = ("r", run) ∷ [];
  events = ("r", record event { sequence = 1 } ∷ []) ∷ [];
  idem = ("s\0k", "r") ∷ [];
}

abbrev started_run : Run
started_run = record run { status = running; started_at = some 3 }

abbrev started : MemoryRepository String
started = record created {
  runs = ("r", started_run) ∷ [];
  events = ("r", record event { sequence = 1 } ∷ record event { sequence = 2 } ∷ []) ∷ [];
}

abbrev completed_run : Run
completed_run = record started_run { status = completed; completed_at = some 3 }

abbrev finished : MemoryRepository String
finished = record started {
  messages = ("s", record message { sequence = 1 } ∷ record message { sequence = 2 } ∷ []) ∷ [];
  runs = ("r", completed_run) ∷ [];
  events =
      (
        "r",
        record event { sequence = 1 }
            ∷ record event { sequence = 2 }
            ∷ record event { sequence = 3 }
            ∷ [],
      )
      ∷ [];
}

abbrev noted : MemoryRepository String
noted = record finished {
  events =
      (
        "r",
        record event { sequence = 1 }
            ∷ record event { sequence = 2 }
            ∷ record event { sequence = 3 }
            ∷ record event { sequence = 4 }
            ∷ [],
      )
      ∷ [];
}

session-added : create_session empty session ≡ with_session
unfolding create_session harness_loop_agent.Base.Dict.insert
session-added = refl

run-created :
    create_run with_session input run message event
    ≡ ok (record { run = run; created = true }, created)
unfolding create_run lookup harness_loop_agent.Base.Dict.insert
run-created = refl

run-started : start_run created "r" event ≡ ok started
unfolding start_run lookup harness_loop_agent.Base.Dict.insert
run-started = refl

run-completed : complete_run started "r" message event ≡ ok finished
unfolding complete_run lookup harness_loop_agent.Base.Dict.insert
run-completed = refl

run-noted : append_event finished event ≡ ok (record event { sequence = 4 }, noted)
unfolding append_event lookup harness_loop_agent.Base.Dict.insert
run-noted = refl

create_run-create_run_example :
    create_run created input run message event ≡ ok (record { run = run; created = false }, created)
create_run-create_run_example =
    create_run-create_run with_session created input run run message message event event
      (record { run = run; created = true }) run-created

afterwards : ChatSteps clock note finished noted
afterwards =
    step finished noted noted
      (by_append finished noted event (record event { sequence = 4 }) run-noted) (stay noted)

history : ChatSteps clock note with_session finished
unfolding lookup
history =
    step with_session created finished
      (by_create with_session created input run message event (record { run = run; created = true })
        refl refl refl run-created)
      (step created started finished (by_start created started "r" event run-started) (
        step started finished finished
          (by_complete started finished "r" message event run-completed) (stay finished)))

with_session-OneActive : OneActive with_session.runs
unfolding lookup
with_session-OneActive i j a b ea eb same ta tb = ground arith

ChatSteps-OneActive_example : OneActive finished.runs
ChatSteps-OneActive_example =
    ChatSteps-OneActive clock note with_session finished history with_session-OneActive

ChatSteps-Journals_example : Journals finished.events
ChatSteps-Journals_example = ChatSteps-Journals clock note with_session finished history tt

finished_run : lookup "r" finished.runs ≡ some completed_run
unfolding lookup
finished_run = refl

ChatSteps-terminal_example : lookup "r" noted.runs ≡ some completed_run
ChatSteps-terminal_example =
    ChatSteps-terminal clock note finished noted "r" completed_run afterwards finished_run refl
