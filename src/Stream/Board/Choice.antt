-- ===== src/Stream/Board/Choice.antt =====
-- internal/stream/manager.go: `nextTask`, for one look through the queue by a worker. The heap is a list from which the
-- first task by `Less` is taken; waiting on the condition variable is left to the caller, which looks again.
-- The count of the session's downloads under way is raised by the caller too.
use baidu_disk_link.Common.{
  ℕ, zero, suc, ◌≡◌, refl, Bool, true, false, not, ◌&&◌, ◌||◌, inl, inr, Option, none, some, List,
  [], ◌∷◌, ◌++◌, length, ltb, leb, ◌==◌, if◌then◌else◌, arith, Bool-cases, Option-cases,
}
use baidu_disk_link.Common.Maps.{lookup}
use baidu_disk_link.ChunkStore.Types.{Bytes, Bytes-discrete}
use baidu_disk_link.Stream.Config.{Config}
use baidu_disk_link.Stream.Session.{Session, worker_limit}
use baidu_disk_link.Stream.Board.{Task, Board, object, rank, discard, start_task, is_foreground}
use baidu_disk_link.Stream.Board.Sound.{object-write_task}

-- whether a session is there and has as many downloads under way as it may
unfoldable pub is_full : Config → List (Bytes × Session) → Bytes → Bool
unfolding worker_limit
is_full cfg sessions version = elim (lookup Bytes-discrete version sessions) [
  | none ↦ false
  | some s ↦ leb (worker_limit cfg sessions) s.inflight
]

-- taskHeap.Less: by priority, then in the order in which the tasks were made
unfoldable pub less : Board → ℕ → ℕ → Bool
less b i j = elim (object i b) [
  | none ↦ false
  | some t ↦ elim (object j b) [
    | none ↦ true
    | some u ↦
        ltb (rank t.priority) (rank u.priority) || (rank t.priority == rank u.priority && ltb i j)
  ]
]

-- the first task of a queue, and the others
unfoldable pub take_first : Board → ℕ → List ℕ → ℕ × List ℕ
unfolding less
take_first b i [] = (i, [])
take_first b i (j ∷ queue) =
    let rest = take_first b (if less b j i then j else i) queue in
    (rest.0, (if less b j i then i else j) ∷ rest.1)

unfoldable pub pop : Board → Option (ℕ × Board)
unfolding take_first
pop b = elim b.queue [
  | [] ↦ none
  | i ∷ queue ↦ let first = take_first b i queue in some (first.0, record b { queue = first.1 })
]

-- the tasks that were skipped go back into the queue
abbrev pub push_all : List ℕ → Board → Board
push_all skipped b = record b { queue = b.queue ++ skipped }

abbrev pub may_start : (Bytes → Bool) → Task → Bool
may_start full t = is_foreground t.priority || not (full t.key.version)

-- the loop over the queue
unfoldable pub choose : ℕ → (Bytes → Bool) → List ℕ → Board → Board × Option ℕ
unfolding pop
choose zero full skipped b = (push_all skipped b, none)
choose (suc rounds) full skipped b = elim (pop b) [
  | none ↦ (push_all skipped b, none)
  | some (id, popped) ↦ elim (object id popped) [
    | none ↦ choose rounds full skipped popped
    | some t ↦
        if t.finished
        then choose rounds full skipped popped
        else if t.canceled
        then choose rounds full skipped (discard id popped)
        else if may_start full t
        then (push_all skipped (start_task id popped), some id)
        else choose rounds full (skipped ++ id ∷ []) popped
  ]
]

unfoldable pub next_task : Config → List (Bytes × Session) → Board → Board × Option ℕ
unfolding choose is_full
next_task cfg sessions b = choose (length b.queue) (is_full cfg sessions) [] b

-- A task that is under way and that the limit of its session does not hold back.
pub record Admitted (full : Bytes → Bool) (id : ℕ) (b : Board) : Type 0 where
  pub task : Task
  pub there : object id b ≡ some task
  pub started : task.started ≡ true
  pub unfinished : task.finished ≡ false
  pub wanted : task.canceled ≡ false
  pub permitted : may_start full task ≡ true

choose-Admitted :
    (rounds : ℕ) (full : Bytes → Bool) (skipped : List ℕ) (b : Board) (id : ℕ)
    → (choose rounds full skipped b).1 ≡ some id
    → Admitted full id (choose rounds full skipped b).0
unfolding choose start_task
choose-Admitted zero full skipped b id e = absurd (cc)
choose-Admitted (suc rounds) full skipped b id e = elim (Option-cases (pop b)) [
  | inl q ↦ absurd (ground (arith, e, q))
  | inr ((j, popped), q) ↦ elim (Option-cases (object j popped)) [
    | inl o ↦
        rw (q, o, choose) (choose-Admitted rounds full skipped popped id (ground (arith, e, q, o)))
    | inr (t, o) ↦ elim (Bool-cases t.finished) [
      | inl f ↦
          rw (q, o, f, choose)
            (choose-Admitted rounds full skipped popped id (ground (arith, e, q, o, f)))
      | inr f ↦ elim (Bool-cases t.canceled) [
        | inl c ↦
            rw (q, o, f, c, choose)
              (choose-Admitted rounds full skipped (discard j popped) id
                (ground (arith, e, q, o, f, c)))
        | inr c ↦ elim (Bool-cases (may_start full t)) [
          | inr m ↦
              rw (q, o, f, c, m, choose)
                (choose-Admitted rounds full (skipped ++ j ∷ []) popped id
                  (ground (arith, e, q, o, f, c, m)))
          | inl m ↦
              let same : j ≡ id = ground (arith, e, q, o, f, c, m) in
              rw (q, o, f, c, m, choose)
                (record {
                  task = record t { started = true };
                  there =
                      ground (
                        arith,
                        o,
                        same,
                        object-write_task j id (record t { started = true }) popped,
                      );
                  started = refl;
                  unfinished = f;
                  wanted = c;
                  permitted = m;
                })
        ]
      ]
    ]
  ]
]

-- A task that `nextTask` hands to a worker is marked as started, neither finished nor cancelled, and either in the foreground or of a
-- version whose session has a download left.
pub next_task-Admitted :
    (cfg : Config) (sessions : List (Bytes × Session)) (b : Board) (id : ℕ)
    → (next_task cfg sessions b).1 ≡ some id
    → Admitted (is_full cfg sessions) id (next_task cfg sessions b).0
unfolding next_task
next_task-Admitted cfg sessions b id e =
    choose-Admitted (length b.queue) (is_full cfg sessions) [] b id e
