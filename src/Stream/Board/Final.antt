-- ===== src/Stream/Board/Final.antt =====
-- internal/stream/manager.go: the results of the tasks over time.
use baidu_disk_link.Common.{
  ℕ, suc, ◌≡◌, refl, Bool, true, false, inl, inr, not, ◌&&◌, ◌||◌, Option, some, List, [], ◌∷◌,
  if◌then◌else◌, arith, Bool-cases, Option-cases, ltb, ℕ_discrete,
}
use baidu_disk_link.Common.Maps.{lookup-insert}
use baidu_disk_link.ChunkStore.Types.{Bytes, File, ChunkKey}
use baidu_disk_link.Stream.Types.{Priority}
use baidu_disk_link.Stream.Assembly.{ReadError, canceled}
use baidu_disk_link.Stream.Board.{
  Task, Board, object, write_task, conclude, ensure, ensure_new, promote, live_task, chunk_span,
  add_task, finish, publish_hedge, discard, mark_hedged, mark_foreground, cancel_task,
  cancel_outdated, cancel_all, start_task, is_outdated, rank,
}
use baidu_disk_link.Stream.Board.Sound.{IsSound, object-write_task, object-conclude, live_task_lem}
use baidu_disk_link.Stream.Board.Run.{
  BoardCall, ensured, finished, hedge_came, discarded, started, foregrounded, hedge_marked, seeked,
  shut, board_step, board_run, board_step-IsSound,
}

if_lem {ℓ} : (P : Board → Type ℓ) (c : Bool) (x y : Board) → P x → P y → P (if c then x else y)
if_lem P true x y p q = p
if_lem P false x y p q = q

-- A task that is finished with a result.
abbrev pub HasResult : ℕ → Bytes → Option ReadError → Board → Type 0
HasResult id bytes error b =
    (t : Task) × (object id b ≡ some t)
    × (t.finished ≡ true)
    × (t.bytes ≡ bytes)
    × (t.error ≡ error)

module _ (id : ℕ) (bytes : Bytes) (error : Option ReadError) (b : Board)
    (r : HasResult id bytes error b) where
  -- writing a task keeps the result, if it is another task or keeps its own result
  write_task-HasResult :
      (j : ℕ) (t t' : Task)
      → object j b ≡ some t
      → t'.finished ≡ t.finished
      → t'.bytes ≡ t.bytes
      → t'.error ≡ t.error
      → HasResult id bytes error (write_task j t' b)
  write_task-HasResult j t t' e f d g = elim (ℕ_discrete id j) [
    | yes p ↦ (
      t',
      ground (arith, object-write_task j id t' b),
      ground (arith, r, e),
      ground (arith, r, e),
      ground (arith, r, e),
    )
    | no p ↦ (r.0, ground (arith, object-write_task j id t' b, r.1), r.2, r.3, r.4)
  ]

  conclude-HasResult :
      (j : ℕ) (t t' : Task) (d : Bytes) (g : Option ReadError)
      → object j b ≡ some t
      → t.finished ≡ false
      → HasResult id bytes error (conclude j t' d g b)
  conclude-HasResult j t t' d g e f =
      (r.0, ground (arith, object-conclude j id t' d g b, r.1, r.2, e), r.2, r.3, r.4)

module _ (i : ℕ) (result : Bytes) (end : Option ReadError) (id : ℕ) (b : Board)
    (s : HasResult i result end b) where
  finish-HasResult :
      (bytes : Bytes) (error : Option ReadError) → HasResult i result end (finish id bytes error b)
  unfolding finish
  finish-HasResult bytes error = elim (Option-cases (object id b)) [
    | inl e ↦ rw (e, finish) s
    | inr (t, e) ↦ elim (Bool-cases t.finished) [
      | inl over ↦ rw (e, finish) (rw over s)
      | inr open_yet ↦
          rw (e, finish)
            (rw open_yet (
              conclude-HasResult i result end b s id t (record t { hedge_pending = false }) bytes
                error e open_yet))
    ]
  ]

  publish_hedge-HasResult : (bytes : Bytes) → HasResult i result end (publish_hedge id bytes b)
  unfolding publish_hedge
  publish_hedge-HasResult bytes = elim (Option-cases (object id b)) [
    | inl e ↦ rw (e, publish_hedge) s
    | inr (t, e) ↦ elim (Bool-cases t.finished) [
      | inl over ↦ rw (e, publish_hedge) (rw over s)
      | inr open_yet ↦
          rw (e, publish_hedge)
            (rw open_yet (
              conclude-HasResult i result end b s id t
                (record t { hedge_pending = false; canceled = true }) bytes t.error e open_yet))
    ]
  ]

  discard-HasResult : HasResult i result end (discard id b)
  unfolding discard
  discard-HasResult = elim (Option-cases (object id b)) [
    | inl e ↦ rw (e, discard) s
    | inr (t, e) ↦ elim (Bool-cases t.finished) [
      | inl over ↦ rw (e, discard) (rw over s)
      | inr open_yet ↦
          rw (e, discard)
            (rw open_yet
              (conclude-HasResult i result end b s id t t t.bytes (some canceled) e open_yet))
    ]
  ]

  mark_hedged-HasResult : (closed : Bool) → HasResult i result end (mark_hedged closed id b)
  unfolding mark_hedged
  mark_hedged-HasResult closed = elim (Option-cases (object id b)) [
    | inl e ↦ rw (e, mark_hedged) s
    | inr (t, e) ↦
        rw (e, mark_hedged)
          (if_lem (HasResult i result end) (closed || (t.finished || (t.hedged || t.canceled))) b _
            s
            (write_task-HasResult i result end b s id t
              (record t { hedged = true; hedge_pending = true }) e refl refl refl))
  ]

  mark_foreground-HasResult : HasResult i result end (mark_foreground id b)
  unfolding mark_foreground
  mark_foreground-HasResult = elim (Option-cases (object id b)) [
    | inl e ↦ rw (e, mark_foreground) s
    | inr (t, e) ↦
        rw (e, mark_foreground)
          (ground (
            arith,
            s,
            write_task-HasResult i result end b s id t (record t { foreground = true }) e refl refl
                refl,
          ))
  ]

  cancel_task-HasResult : HasResult i result end (cancel_task id b)
  unfolding cancel_task
  cancel_task-HasResult = elim (Option-cases (object id b)) [
    | inl e ↦ rw (e, cancel_task) s
    | inr (t, e) ↦
        rw (e, cancel_task)
          (write_task-HasResult i result end b s id t (record t { canceled = true }) e refl refl
            refl)
  ]

  start_task-HasResult : HasResult i result end (start_task id b)
  unfolding start_task
  start_task-HasResult = elim (Option-cases (object id b)) [
    | inl e ↦ rw (e, start_task) s
    | inr (t, e) ↦
        rw (e, start_task)
          (write_task-HasResult i result end b s id t (record t { started = true }) e refl refl
            refl)
  ]

module _ (i : ℕ) (result : Bytes) (end : Option ReadError) where
  promote-HasResult :
      (id : ℕ) (t : Task) (priority : Priority) (b : Board)
      → HasResult i result end b
      → object id b ≡ some t
      → HasResult i result end (promote id t priority b)
  unfolding promote
  promote-HasResult id t priority b r e =
      if_lem (HasResult i result end) (ltb (rank priority) (rank t.priority) && not t.started) _ b
        (write_task-HasResult i result end b r id t (record t { priority = priority }) e refl refl
          refl)
        r

  add_task-HasResult :
      (key : ChunkKey) (t : Task) (b : Board)
      → IsSound b
      → HasResult i result end b
      → HasResult i result end (add_task key t b)
  unfolding add_task
  add_task-HasResult key t b s r = (
    r.0,
    ground (arith, lookup-insert ℕ_discrete i (suc b.sequence) t b.objects, r.1, s.settled i),
    r.2,
    r.3,
    r.4,
  )

  ensure_new-HasResult :
      (chunk_size : ℕ) (key : ChunkKey) (file : File) (index epoch : ℕ) (priority : Priority)
      (b : Board)
      → IsSound b
      → HasResult i result end b
      → HasResult i result end (ensure_new chunk_size key file index epoch priority b).0
  unfolding ensure_new
  ensure_new-HasResult chunk_size key file index epoch priority b s r =
      elim (Bool-cases (ltb 0 (chunk_span chunk_size file index).1)) [
        | inl long ↦ rw long (add_task-HasResult key _ b s r)
        | inr short ↦ rw short r
      ]

  ensure-HasResult :
      (closed : Bool) (chunk_size : ℕ) (key : ChunkKey) (file : File) (index epoch : ℕ)
      (priority : Priority) (b : Board)
      → IsSound b
      → HasResult i result end b
      → HasResult i result end (ensure closed chunk_size key file index epoch priority b).0
  unfolding ensure
  ensure-HasResult true chunk_size key file index epoch priority b s r = r
  ensure-HasResult false chunk_size key file index epoch priority b s r =
      elim (Option-cases (live_task key b)) [
        | inl e ↦
            rw (e, ensure) (ensure_new-HasResult chunk_size key file index epoch priority b s r)
        | inr ((id, t), e) ↦
            rw (e, ensure) (promote-HasResult id t priority b r (live_task_lem key b id t e).0)
      ]

  cancel_outdated-HasResult :
      (version : Bytes) (epoch : ℕ) (l : List (ChunkKey × ℕ)) (b : Board)
      → HasResult i result end b
      → HasResult i result end (cancel_outdated version epoch l b)
  unfolding cancel_outdated
  cancel_outdated-HasResult version epoch [] b r = r
  cancel_outdated-HasResult version epoch ((key, id) ∷ l) b r =
      cancel_outdated-HasResult version epoch l _ (elim (Option-cases (object id b)) [
        | inl e ↦ rw e r
        | inr (t, e) ↦ elim (Bool-cases (is_outdated version epoch t)) [
          | inl old ↦ rw e (rw old (cancel_task-HasResult i result end id b r))
          | inr fresh ↦ rw e (rw fresh r)
        ]
      ])

  cancel_all-HasResult :
      (l : List (ChunkKey × ℕ)) (b : Board)
      → HasResult i result end b
      → HasResult i result end (cancel_all l b)
  unfolding cancel_all
  cancel_all-HasResult [] b r = r
  cancel_all-HasResult ((key, id) ∷ l) b r =
      cancel_all-HasResult l _ (cancel_task-HasResult i result end id b r)

  board_step-HasResult :
      (call : BoardCall) (b : Board)
      → IsSound b
      → HasResult i result end b
      → HasResult i result end (board_step call b)
  unfolding board_step
  board_step-HasResult (ensured closed chunk_size key file index epoch priority) b s r =
      ensure-HasResult closed chunk_size key file index epoch priority b s r
  board_step-HasResult (finished id bytes error) b s r =
      finish-HasResult i result end id b r bytes error
  board_step-HasResult (hedge_came id bytes) b s r =
      publish_hedge-HasResult i result end id b r bytes
  board_step-HasResult (discarded id) b s r = discard-HasResult i result end id b r
  board_step-HasResult (started id) b s r = start_task-HasResult i result end id b r
  board_step-HasResult (foregrounded id) b s r = mark_foreground-HasResult i result end id b r
  board_step-HasResult (hedge_marked closed id) b s r =
      mark_hedged-HasResult i result end id b r closed
  board_step-HasResult (seeked version epoch) b s r =
      cancel_outdated-HasResult version epoch b.tasks b r
  board_step-HasResult shut b s r = cancel_all-HasResult b.tasks b r

  -- On a sound board, once a task is finished, by a worker, a hedged download or a cancellation, no
  -- later operation changes its bytes or its error.
  pub board_run-HasResult :
      (calls : List BoardCall) (b : Board)
      → IsSound b
      → HasResult i result end b
      → HasResult i result end (board_run calls b)
  unfolding board_run
  board_run-HasResult [] b s r = r
  board_run-HasResult (call ∷ calls) b s r =
      board_run-HasResult calls _ (board_step-IsSound call b s) (board_step-HasResult call b s r)
