-- ===== src/Stream/Board.antt =====
-- internal/stream/manager.go: the tasks of the manager. A task is an object of a heap, named by the
-- sequence number that it is made with; the map `tasks`, the queue and the workers hold such names.
-- Closing the channel `done` of a task twice would panic, which is `panicked` here.
-- What the operations do besides to the sessions, the chunk store and the counters is no part of the
-- board.
pub mod Sound
pub mod Run
pub mod Final
pub mod Choice
use baidu_disk_link.Common.{
  ℕ, zero, suc, ◌+◌, ◌-◌, ◌*◌, ◌≤◌, ◌<◌, ◌≡◌, ite, Bool, true, false, not, ◌&&◌, ◌||◌, Option, none,
  some, List, [], ◌∷◌, ◌++◌, map, length, ltb, leb, ◌==◌, if◌then◌else◌, ℕ_discrete,
}
use baidu_disk_link.Common.Maps.{lookup, without, insert}
use baidu_disk_link.ChunkStore.Types.{Bytes, File, ChunkKey, ChunkKey-discrete, Bytes-discrete}
use baidu_disk_link.Stream.Types.{Priority, foreground, near, ahead, back}
use baidu_disk_link.Stream.Assembly.{ReadError, canceled}

pub record Task : Type 0 where
  pub key : ChunkKey
  pub file : File
  pub offset : ℕ
  pub length : ℕ
  pub priority : Priority
  pub epoch : ℕ
  pub canceled : Bool
  pub done : Bool
  pub bytes : Bytes
  pub error : Option ReadError
  pub started : Bool
  pub finished : Bool
  pub foreground : Bool
  pub hedged : Bool
  pub hedge_pending : Bool

pub record Board : Type 0 where
  pub objects : List (ℕ × Task)
  pub tasks : List (ChunkKey × ℕ)
  pub queue : List ℕ
  pub sequence : ℕ
  pub panicked : Bool

abbrev pub empty_board : Board
empty_board = record { objects = []; tasks = []; queue = []; sequence = 0; panicked = false }

abbrev pub object : ℕ → Board → Option Task
object id b = lookup ℕ_discrete id b.objects

abbrev pub rank : Priority → ℕ
rank foreground = 0
rank near = 1
rank ahead = 2
rank back = 3

unfoldable pub write_task : ℕ → Task → Board → Board
write_task id t b = record b { objects = insert ℕ_discrete id t b.objects }

-- if m.tasks[task.key] == task { delete(m.tasks, task.key) }
unfoldable pub forget_task : ℕ → ChunkKey → Board → Board
forget_task id key b = elim (lookup ChunkKey-discrete key b.tasks) [
  | none ↦ b
  | some held ↦
      ite (ℕ_discrete held id) (record b { tasks = without ChunkKey-discrete key b.tasks }) b
]

-- the task is finished with a result, leaves the map, and its channel is closed
unfoldable pub conclude : ℕ → Task → Bytes → Option ReadError → Board → Board
unfolding write_task forget_task
conclude id t bytes error b =
    let finished : Task = record t { finished = true; bytes = bytes; error = error; done = true } in
    let forgotten = forget_task id t.key (write_task id finished b) in
    record forgotten { panicked = b.panicked || t.done }

-- the chunk of a task: its offset, and its length cut off at the end of the file
unfoldable pub chunk_span : ℕ → File → ℕ → ℕ × ℕ
chunk_span chunk_size file index =
    let offset = index * chunk_size in
    (
      offset,
      if ltb 0 file.size && ltb file.size (offset + chunk_size)
          then file.size - offset
          else chunk_size,
    )

unfoldable pub new_task : ChunkKey → File → ℕ → ℕ → ℕ → Priority → Task
new_task key file offset size epoch priority = record {
  key = key;
  file = file;
  offset = offset;
  length = size;
  priority = priority;
  epoch = epoch;
  canceled = false;
  done = false;
  bytes = [];
  error = none;
  started = false;
  finished = false;
  foreground = false;
  hedged = false;
  hedge_pending = false;
}

-- the end of `ensureTask`: a new task is entered in the map and the queue
unfoldable pub add_task : ChunkKey → Task → Board → Board
add_task key t b =
    let id = suc b.sequence in
    record b {
      sequence = id;
      objects = insert ℕ_discrete id t b.objects;
      tasks = insert ChunkKey-discrete key id b.tasks;
      queue = b.queue ++ id ∷ [];
    }

-- the priority of a waiting task is raised, never lowered
unfoldable pub promote : ℕ → Task → Priority → Board → Board
unfolding write_task
promote id t priority b =
    if ltb (rank priority) (rank t.priority) && not t.started
    then write_task id (record t { priority = priority }) b
    else b

-- What `ensureTask` gives back: the name of a task that is under way, or a result that is there.
pub data Ensured : Type 0 where
  pending : ℕ → Ensured
  ready : Bytes → Ensured
  refused : Ensured

unfoldable pub ensure_new : ℕ → ChunkKey → File → ℕ → ℕ → Priority → Board → Board × Ensured
unfolding chunk_span new_task add_task
ensure_new chunk_size key file index epoch priority b =
    let span = chunk_span chunk_size file index in
    if ltb 0 span.1
    then (add_task key (new_task key file span.0 span.1 epoch priority) b, pending (suc b.sequence))
    else (b, ready [])

-- the existing task of a key, if it is still under way
unfoldable pub live_task : ChunkKey → Board → Option (ℕ × Task)
live_task key b = elim (lookup ChunkKey-discrete key b.tasks) [
  | none ↦ none
  | some id ↦ elim (object id b) [
    | none ↦ none
    | some t ↦ if t.finished || t.canceled then none else some (id, t)
  ]
]

-- the part of `ensureTask` that follows the look into the cache
unfoldable pub ensure : Bool → ℕ → ChunkKey → File → ℕ → ℕ → Priority → Board → Board × Ensured
unfolding live_task promote ensure_new
ensure closed chunk_size key file index epoch priority b =
    if closed then (b, refused) else elim (live_task key b) [
      | some (id, t) ↦ (promote id t priority b, pending id)
      | none ↦ ensure_new chunk_size key file index epoch priority b
    ]

-- the end of `finishTask`, and `publishHedge`: the first of the two to come concludes the task
unfoldable pub finish : ℕ → Bytes → Option ReadError → Board → Board
unfolding conclude
finish id bytes error b = elim (object id b) [
  | none ↦ b
  | some t ↦
      if t.finished then b else conclude id (record t { hedge_pending = false }) bytes error b
]

-- `publishHedge` also cancels the download that it has overtaken
unfoldable pub publish_hedge : ℕ → Bytes → Board → Board
unfolding conclude
publish_hedge id bytes b = elim (object id b) [
  | none ↦ b
  | some t ↦
      if t.finished
      then b
      else conclude id (record t { hedge_pending = false; canceled = true }) bytes t.error b
]

-- discardCanceledTaskLocked
unfoldable pub discard : ℕ → Board → Board
unfolding conclude
discard id b = elim (object id b) [
  | none ↦ b
  | some t ↦ if t.finished then b else conclude id t t.bytes (some canceled) b
]

-- the part of `startHedge` that marks the task
unfoldable pub mark_hedged : Bool → ℕ → Board → Board
unfolding write_task
mark_hedged closed id b = elim (object id b) [
  | none ↦ b
  | some t ↦
      if closed || (t.finished || (t.hedged || t.canceled))
      then b
      else write_task id (record t { hedged = true; hedge_pending = true }) b
]

-- markForeground
unfoldable pub mark_foreground : ℕ → Board → Board
unfolding write_task
mark_foreground id b = elim (object id b) [
  | none ↦ b
  | some t ↦ if t.finished then b else write_task id (record t { foreground = true }) b
]

abbrev pub is_foreground : Priority → Bool
is_foreground foreground = true
is_foreground near = false
is_foreground ahead = false
is_foreground back = false

-- the test of `cancelSessionTasksLocked`
unfoldable pub is_outdated : Bytes → ℕ → Task → Bool
is_outdated version epoch t =
    ite (Bytes-discrete t.key.version version) true false
    && (ltb t.epoch epoch && not (is_foreground t.priority))

unfoldable pub cancel_task : ℕ → Board → Board
unfolding write_task
cancel_task id b = elim (object id b) [
  | none ↦ b
  | some t ↦ write_task id (record t { canceled = true }) b
]

-- `cancelSessionTasksLocked`, over the tasks that the map held when it was called
unfoldable pub cancel_outdated : Bytes → ℕ → List (ChunkKey × ℕ) → Board → Board
unfolding is_outdated cancel_task
cancel_outdated version epoch [] b = b
cancel_outdated version epoch ((key, id) ∷ l) b =
    cancel_outdated version epoch l (elim (object id b) [
      | none ↦ b
      | some t ↦ if is_outdated version epoch t then cancel_task id b else b
    ])

-- the loop of `Close`
unfoldable pub cancel_all : List (ChunkKey × ℕ) → Board → Board
unfolding cancel_task
cancel_all [] b = b
cancel_all ((key, id) ∷ l) b = cancel_all l (cancel_task id b)

-- the end of `nextTask`, for the task that it has chosen
unfoldable pub start_task : ℕ → Board → Board
unfolding write_task
start_task id b = elim (object id b) [
  | none ↦ b
  | some t ↦ write_task id (record t { started = true }) b
]
