-- ===== src/Stream/Board/Sound.antt =====
-- internal/stream/manager.go: the state of the tasks between two operations.
use baidu_disk_link.Common.{
  ℕ, suc, ◌≤◌, ◌≡◌, refl, ◌∙◌, ite, Bool, true, false, inl, inr, Option, none, some, ltb,
  ℕ_discrete, arith, Bool-cases, Option-cases,
}
use baidu_disk_link.Common.Maps.{lookup, lookup-insert, lookup-without}
use baidu_disk_link.ChunkStore.Types.{Bytes, File, ChunkKey, ChunkKey-discrete}
use baidu_disk_link.Stream.Types.{Priority}
use baidu_disk_link.Stream.Assembly.{ReadError}
use baidu_disk_link.Stream.Board.{
  Task, Board, object, write_task, forget_task, conclude, add_task, promote, ensure_new, live_task,
  ensure, new_task, chunk_span,
}

abbrev pub IsSettled : ℕ → ℕ → Option Task → Type 0
IsSettled sequence id none = Unit {0}
IsSettled sequence id (some t) = (t.done ≡ t.finished) × (id ≤ sequence)

abbrev pub Holds : ChunkKey → Option Task → Type 0
Holds key none = ⊥
Holds key (some t) = (t.key ≡ key) × (t.finished ≡ false)

abbrev pub IsLive : ChunkKey → Board → Option ℕ → Type 0
IsLive key b none = Unit {0}
IsLive key b (some id) = Holds key (object id b)

-- No channel has been closed twice, a task's channel is closed exactly when the task is finished, and the map holds only
-- tasks under way, each under its own key.
pub record IsSound (b : Board) : Type 0 where
  pub calm : b.panicked ≡ false
  pub settled : (id : ℕ) → IsSettled b.sequence id (object id b)
  pub live : (key : ChunkKey) → IsLive key b (lookup ChunkKey-discrete key b.tasks)

pub object-write_task :
    (id j : ℕ) (t : Task) (b : Board)
    → object j (write_task id t b) ≡ ite (ℕ_discrete j id) (some t) (object j b)
unfolding write_task
object-write_task id j t b = lookup-insert ℕ_discrete j id t b.objects

held_lem :
    (key : ChunkKey) (held : ℕ) (b : Board)
    → IsSound b
    → lookup ChunkKey-discrete key b.tasks ≡ some held
    → Holds key (object held b)
held_lem key held b s q = rw q at (s.live key)

-- To show that the map is right, take an entry of it.
IsLive-of :
    (b : Board) (key : ChunkKey)
    → ((held : ℕ) → lookup ChunkKey-discrete key b.tasks ≡ some held → Holds key (object held b))
    → IsLive key b (lookup ChunkKey-discrete key b.tasks)
IsLive-of b key h = elim (Option-cases (lookup ChunkKey-discrete key b.tasks)) [
  | inl q ↦ rw q tt
  | inr (held, q) ↦ rw q (h held q)
]

pub object-forget_task :
    (id j : ℕ) (key : ChunkKey) (b : Board)
    → (object j (forget_task id key b) ≡ object j b)
      × ((forget_task id key b).sequence ≡ b.sequence)
unfolding forget_task
object-forget_task id j key b = ground arith

tasks-forget_task :
    (id held : ℕ) (key j : ChunkKey) (b : Board)
    → lookup ChunkKey-discrete j (forget_task id key b).tasks ≡ some held
    → (lookup ChunkKey-discrete j b.tasks ≡ some held) × ¬ ((j ≡ key) × (held ≡ id))
unfolding forget_task
tasks-forget_task id held key j b h = ground (arith, lookup-without ChunkKey-discrete j key b.tasks)

abbrev pub concluded : Task → Bytes → Option ReadError → Task
concluded t bytes error = record t { finished = true; bytes = bytes; error = error; done = true }

pub object-conclude :
    (id j : ℕ) (t : Task) (bytes : Bytes) (error : Option ReadError) (b : Board)
    → object j (conclude id t bytes error b)
      ≡ ite (ℕ_discrete j id) (some (concluded t bytes error)) (object j b)
unfolding conclude
object-conclude id j t bytes error b =
    (object-forget_task id j t.key (write_task id (concluded t bytes error) b)).0
    ∙ object-write_task id j (concluded t bytes error) b

sequence-conclude :
    (id : ℕ) (t : Task) (bytes : Bytes) (error : Option ReadError) (b : Board)
    → (conclude id t bytes error b).sequence ≡ b.sequence
unfolding conclude write_task
sequence-conclude id t bytes error b =
    (object-forget_task id id t.key (write_task id (concluded t bytes error) b)).1

tasks-conclude :
    (id held : ℕ) (t : Task) (bytes : Bytes) (error : Option ReadError) (j : ChunkKey) (b : Board)
    → lookup ChunkKey-discrete j (conclude id t bytes error b).tasks ≡ some held
    → (lookup ChunkKey-discrete j b.tasks ≡ some held) × ¬ ((j ≡ t.key) × (held ≡ id))
unfolding conclude write_task
tasks-conclude id held t bytes error j b h =
    tasks-forget_task id held t.key j (write_task id (concluded t bytes error) b) h

module _ (id : ℕ) (t : Task) (b : Board) (s : IsSound b) (e : object id b ≡ some t) where
  -- a write that leaves the key of a task, its channel and its end alone
  pub write_task-IsSound :
      (t' : Task)
      → t'.key ≡ t.key
      → t'.finished ≡ t.finished
      → t'.done ≡ t.done
      → IsSound (write_task id t' b)
  unfolding write_task
  write_task-IsSound t' k f d = record {
    calm = s.calm;
    settled = λ j.
        ground (arith, lookup-insert ℕ_discrete j id t' b.objects, s.settled j, s.settled id, e);
    live = λ key. IsLive-of (write_task id t' b) key λ held q.
        ground (arith, held_lem key held b s q, lookup-insert ℕ_discrete held id t' b.objects, e);
  }

  -- the end of a task that is under way
  pub conclude-IsSound :
      (t' : Task) (bytes : Bytes) (error : Option ReadError)
      → t'.key ≡ t.key
      → t'.done ≡ t.done
      → t.finished ≡ false
      → IsSound (conclude id t' bytes error b)
  conclude-IsSound t' bytes error k d u = record {
    calm = unfold conclude in ground (arith, s.calm, s.settled id, e);
    settled = λ j. ground (
      arith,
      object-conclude id j t' bytes error b,
      sequence-conclude id t' bytes error b,
      s.settled j,
      s.settled id,
      e,
    );
    live = λ key. IsLive-of (conclude id t' bytes error b) key λ held q. ground (
      arith,
      tasks-conclude id held t' bytes error key b q,
      held_lem key held b s (tasks-conclude id held t' bytes error key b q).0,
      object-conclude id held t' bytes error b,
      e,
    );
  }

add_task-IsSound :
    (key : ChunkKey) (t : Task) (b : Board)
    → IsSound b
    → t.key ≡ key
    → t.finished ≡ false
    → t.done ≡ false
    → IsSound (add_task key t b)
unfolding add_task
add_task-IsSound key t b s k f d = record {
  calm = s.calm;
  settled =
      λ j. ground (arith, lookup-insert ℕ_discrete j (suc b.sequence) t b.objects, s.settled j);
  live = λ j. IsLive-of (add_task key t b) j λ held q. ground (
    arith,
    held_lem j held b s,
    lookup-insert ChunkKey-discrete j key (suc b.sequence) b.tasks,
    lookup-insert ℕ_discrete held (suc b.sequence) t b.objects,
    s.settled held,
  );
}

pub live_task_lem :
    (key : ChunkKey) (b : Board) (id : ℕ) (t : Task)
    → live_task key b ≡ some (id, t)
    → (object id b ≡ some t)
      × (lookup ChunkKey-discrete key b.tasks ≡ some id)
      × (t.finished ≡ false)
      × (t.canceled ≡ false)
unfolding live_task
live_task_lem key b id t h = ground (arith, h)

-- the reader's side
promote-IsSound :
    (id : ℕ) (t : Task) (priority : Priority) (b : Board)
    → IsSound b
    → object id b ≡ some t
    → IsSound (promote id t priority b)
unfolding promote
promote-IsSound id t priority b s e =
    ground
      (arith, write_task-IsSound id t b s e (record t { priority = priority }) refl refl refl, s)

ensure_new-IsSound :
    (chunk_size : ℕ) (key : ChunkKey) (file : File) (index epoch : ℕ) (priority : Priority)
    (b : Board)
    → IsSound b
    → IsSound (ensure_new chunk_size key file index epoch priority b).0
unfolding ensure_new new_task
ensure_new-IsSound chunk_size key file index epoch priority b s =
    elim (Bool-cases (ltb 0 (chunk_span chunk_size file index).1)) [
      | inl long ↦ rw long (add_task-IsSound key _ b s refl refl refl)
      | inr short ↦ rw short s
    ]

pub ensure-IsSound :
    (closed : Bool) (chunk_size : ℕ) (key : ChunkKey) (file : File) (index epoch : ℕ)
    (priority : Priority) (b : Board)
    → IsSound b
    → IsSound (ensure closed chunk_size key file index epoch priority b).0
unfolding ensure
ensure-IsSound true chunk_size key file index epoch priority b s = s
ensure-IsSound false chunk_size key file index epoch priority b s =
    elim (Option-cases (live_task key b)) [
      | inl e ↦ rw (e, ensure) (ensure_new-IsSound chunk_size key file index epoch priority b s)
      | inr ((id, t), e) ↦
          rw (e, ensure) (promote-IsSound id t priority b s (live_task_lem key b id t e).0)
    ]
