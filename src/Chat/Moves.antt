-- ===== src/Chat/Moves.antt =====
-- internal/chat/memory_repository.go: how the methods change the runs.
use harness_loop_agent.Base.{
  ◌≡◌, refl, String, true, false, inl, inr, List, [], ◌∷◌, some, arith, eq_iff, str_eq, Bool-cases,
}
use harness_loop_agent.Base.Word.{Time}
use harness_loop_agent.Base.Dict.{Dict, lookup, insert, lookup-insert}
use harness_loop_agent.Chat.{Run, RunStatus, terminal, Event, interrupted}
use harness_loop_agent.Chat.Store.{
  any_active, is_open, interrupt_all, append_event_locked, interruption,
}

-- A run that is stored behind comes from one stored before, of the same session, which was not
-- terminal unless it is terminal now; and a terminal run is kept as it was.
pub record Moves (runs runs' : Dict Run) : Type 0 where
  pub from :
      (k : String) (b : Run)
      → lookup k runs' ≡ some b
      → (a : Run) × (lookup k runs ≡ some a)
        × (a.session_id ≡ b.session_id)
        × (terminal b.status ≡ false → terminal a.status ≡ false)
  pub kept :
      (k : String) (a : Run)
      → lookup k runs ≡ some a
      → terminal a.status ≡ true
      → lookup k runs' ≡ some a

pub Moves-refl : (runs : Dict Run) → Moves runs runs
Moves-refl runs = record { from = λ k b e. (b, e, refl, λ t. t); kept = λ k a e t. e }

pub Moves-insert :
    (runs : Dict Run) (id : String) (a b : Run)
    → lookup id runs ≡ some a
    → terminal a.status ≡ false
    → a.session_id ≡ b.session_id
    → Moves runs (insert id b runs)
Moves-insert runs id a b e t same = record {
  from = λ k c h. ground (arith, lookup-insert id k b runs, eq_iff id k);
  kept = λ k c h u. ground (arith, lookup-insert id k b runs, eq_iff id k);
}

-- Two runs of one session that are both not terminal are stored under one key.
abbrev pub OneActive : Dict Run → Type 0
OneActive runs =
    (i j : String) (a b : Run)
    → lookup i runs ≡ some a
    → lookup j runs ≡ some b
    → a.session_id ≡ b.session_id
    → terminal a.status ≡ false
    → terminal b.status ≡ false
    → i ≡ j

pub Moves-OneActive : (runs runs' : Dict Run) → Moves runs runs' → OneActive runs → OneActive runs'
Moves-OneActive runs runs' m one i j a b ea eb same ta tb =
    let (a', ha, sa, fa) = m.from i a ea in
    let (b', hb, sb, fb) = m.from j b eb in one i j a' b' ha hb (ground arith) (fa ta) (fb tb)

pub lookup-any_active :
    (session_id : String) (runs : Dict Run) (k : String) (a : Run)
    → any_active session_id runs ≡ false
    → lookup k runs ≡ some a
    → a.session_id ≡ session_id
    → terminal a.status ≡ true
unfolding lookup
lookup-any_active s [] k a none_active e same = ground arith
lookup-any_active s ((j, r) ∷ runs) k a none_active e same =
    ground (arith, eq_iff r.session_id s, eq_iff j k, lookup-any_active s runs k a)

-- A session without an active run takes one more run.
pub OneActive-insert :
    (runs : Dict Run) (id : String) (run : Run)
    → any_active run.session_id runs ≡ false
    → OneActive runs
    → OneActive (insert id run runs)
OneActive-insert runs id run free one i j a b ea eb same ta tb = ground (
  arith,
  lookup-insert id i run runs,
  lookup-insert id j run runs,
  eq_iff id i,
  eq_iff id j,
  lookup-any_active run.session_id runs i a,
  lookup-any_active run.session_id runs j b,
  one i j a b,
)

pub Moves-cons :
    {runs runs' : Dict Run} (id : String) (a b : Run)
    → a.session_id ≡ b.session_id
    → (terminal b.status ≡ false → terminal a.status ≡ false)
    → (terminal a.status ≡ true → b ≡ a)
    → Moves runs runs'
    → Moves ((id, a) ∷ runs) ((id, b) ∷ runs')
unfolding lookup
Moves-cons id a b same back fixed m = record {
  from = λ k c e. elim (Bool-cases (str_eq id k)) [
    | inl h ↦ (a, ground arith, ground arith, ground (arith, back))
    | inr h ↦ let (d, e', s, f) = m.from k c (ground arith) in (d, ground arith, s, f)
  ];
  kept = λ k c e t. elim (Bool-cases (str_eq id k)) [
    | inl h ↦ ground (arith, fixed)
    | inr h ↦ ground (arith, m.kept k c)
  ];
}

not_terminal : (s : RunStatus) → is_open s ≡ true → terminal s ≡ false
not_terminal s o = ground arith

module _ {D W : Type 0} (clock : W → Time × W) (note : RunStatus → D) where
  pub interrupt_all-Moves :
      (runs : Dict Run) (events : Dict (List (Event D))) (w : W)
      → Moves runs (interrupt_all clock note runs events w).0
  unfolding lookup
  interrupt_all-Moves [] events w = Moves-refl []
  interrupt_all-Moves ((id, run) ∷ runs) events w =
      let (now, w1) = clock w in
      let m =
        interrupt_all-Moves runs (append_event_locked (interruption clock note id now) events) w1 in
      let n = interrupt_all-Moves runs events w in
      elim (Bool-cases (is_open run.status)) [
        | inl o ↦ ground (
          arith,
          o,
          Moves-cons id run (record run { status = interrupted; completed_at = some now }) refl
              (λ _. not_terminal run.status o) (λ t. ground (arith, not_terminal run.status o)) m,
        )
        | inr o ↦ ground (arith, o, Moves-cons id run run refl (λ t. t) (λ _. refl) n)
      ]
