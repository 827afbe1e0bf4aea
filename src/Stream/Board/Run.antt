-- ===== src/Stream/Board/Run.antt =====
-- internal/stream/manager.go: runs of readers, workers, hedged downloads and seeks over the tasks, in
-- any order.
use baidu_disk_link.Common.{
  ℕ, refl, Bool, true, false, inl, inr, Option, some, List, [], ◌∷◌, arith, Bool-cases,
  Option-cases,
}
use baidu_disk_link.Common.Maps.{lookup}
use baidu_disk_link.ChunkStore.Types.{Bytes, File, ChunkKey}
use baidu_disk_link.Stream.Types.{Priority}
use baidu_disk_link.Stream.Assembly.{ReadError, canceled}
use baidu_disk_link.Stream.Board.{
  Board, empty_board, object, ensure, finish, publish_hedge, discard, mark_hedged, mark_foreground,
  cancel_task, cancel_outdated, cancel_all, start_task,
}
use baidu_disk_link.Stream.Board.Sound.{
  IsSound, write_task-IsSound, conclude-IsSound, ensure-IsSound,
}

module _ (id : ℕ) (b : Board) (s : IsSound b) where
  finish-IsSound : (bytes : Bytes) (error : Option ReadError) → IsSound (finish id bytes error b)
  unfolding finish
  finish-IsSound bytes error = elim (Option-cases (object id b)) [
    | inl e ↦ rw (e, finish) s
    | inr (t, e) ↦ elim (Bool-cases t.finished) [
      | inl over ↦ rw (e, finish) (rw over s)
      | inr open_yet ↦
          rw (e, finish)
            (rw open_yet (
              conclude-IsSound id t b s e (record t { hedge_pending = false }) bytes error refl refl
                open_yet))
    ]
  ]

  publish_hedge-IsSound : (bytes : Bytes) → IsSound (publish_hedge id bytes b)
  unfolding publish_hedge
  publish_hedge-IsSound bytes = elim (Option-cases (object id b)) [
    | inl e ↦ rw (e, publish_hedge) s
    | inr (t, e) ↦ elim (Bool-cases t.finished) [
      | inl over ↦ rw (e, publish_hedge) (rw over s)
      | inr open_yet ↦
          rw (e, publish_hedge)
            (rw open_yet (
              conclude-IsSound id t b s e (record t { hedge_pending = false; canceled = true })
                bytes t.error refl refl open_yet))
    ]
  ]

  discard-IsSound : IsSound (discard id b)
  unfolding discard
  discard-IsSound = elim (Option-cases (object id b)) [
    | inl e ↦ rw (e, discard) s
    | inr (t, e) ↦ elim (Bool-cases t.finished) [
      | inl over ↦ rw (e, discard) (rw over s)
      | inr open_yet ↦
          rw (e, discard)
            (rw open_yet (conclude-IsSound id t b s e t t.bytes (some canceled) refl refl open_yet))
    ]
  ]

  mark_hedged-IsSound : (closed : Bool) → IsSound (mark_hedged closed id b)
  unfolding mark_hedged
  mark_hedged-IsSound closed = elim (Option-cases (object id b)) [
    | inl e ↦ rw (e, mark_hedged) s
    | inr (t, e) ↦
        rw (e, mark_hedged)
          (ground (
            arith,
            s,
            write_task-IsSound id t b s e (record t { hedged = true; hedge_pending = true }) refl
                refl refl,
          ))
  ]

  mark_foreground-IsSound : IsSound (mark_foreground id b)
  unfolding mark_foreground
  mark_foreground-IsSound = elim (Option-cases (object id b)) [
    | inl e ↦ rw (e, mark_foreground) s
    | inr (t, e) ↦
        rw (e, mark_foreground)
          (ground (
            arith,
            s,
            write_task-IsSound id t b s e (record t { foreground = true }) refl refl refl,
          ))
  ]

  cancel_task-IsSound : IsSound (cancel_task id b)
  unfolding cancel_task
  cancel_task-IsSound = elim (Option-cases (object id b)) [
    | inl e ↦ rw (e, cancel_task) s
    | inr (t, e) ↦
        rw (e, cancel_task)
          (write_task-IsSound id t b s e (record t { canceled = true }) refl refl refl)
  ]

  start_task-IsSound : IsSound (start_task id b)
  unfolding start_task
  start_task-IsSound = elim (Option-cases (object id b)) [
    | inl e ↦ rw (e, start_task) s
    | inr (t, e) ↦
        rw (e, start_task)
          (write_task-IsSound id t b s e (record t { started = true }) refl refl refl)
  ]

cancel_outdated-IsSound :
    (version : Bytes) (epoch : ℕ) (l : List (ChunkKey × ℕ)) (b : Board)
    → IsSound b
    → IsSound (cancel_outdated version epoch l b)
unfolding cancel_outdated
cancel_outdated-IsSound version epoch [] b s = s
cancel_outdated-IsSound version epoch ((key, id) ∷ l) b s =
    cancel_outdated-IsSound version epoch l _ (elim (Option-cases (object id b)) [
      | inl e ↦ rw e s
      | inr (t, e) ↦ rw e (ground (arith, s, cancel_task-IsSound id b s))
    ])

cancel_all-IsSound : (l : List (ChunkKey × ℕ)) (b : Board) → IsSound b → IsSound (cancel_all l b)
unfolding cancel_all
cancel_all-IsSound [] b s = s
cancel_all-IsSound ((key, id) ∷ l) b s = cancel_all-IsSound l _ (cancel_task-IsSound id b s)

-- One critical section of a reader, a worker, a hedged download, a seek or a shutdown.
pub data BoardCall : Type 0 where
  ensured : Bool → ℕ → ChunkKey → File → ℕ → ℕ → Priority → BoardCall
  finished : ℕ → Bytes → Option ReadError → BoardCall
  hedge_came : ℕ → Bytes → BoardCall
  discarded started foregrounded : ℕ → BoardCall
  hedge_marked : Bool → ℕ → BoardCall
  seeked : Bytes → ℕ → BoardCall
  shut : BoardCall

unfoldable pub board_step : BoardCall → Board → Board
board_step (ensured closed chunk_size key file index epoch priority) b =
    (ensure closed chunk_size key file index epoch priority b).0
board_step (finished id bytes error) b = finish id bytes error b
board_step (hedge_came id bytes) b = publish_hedge id bytes b
board_step (discarded id) b = discard id b
board_step (started id) b = start_task id b
board_step (foregrounded id) b = mark_foreground id b
board_step (hedge_marked closed id) b = mark_hedged closed id b
board_step (seeked version epoch) b = cancel_outdated version epoch b.tasks b
board_step shut b = cancel_all b.tasks b

unfoldable pub board_run : List BoardCall → Board → Board
unfolding board_step
board_run [] b = b
board_run (call ∷ calls) b = board_run calls (board_step call b)

pub board_step-IsSound : (call : BoardCall) (b : Board) → IsSound b → IsSound (board_step call b)
unfolding board_step
board_step-IsSound (ensured closed chunk_size key file index epoch priority) b s =
    ensure-IsSound closed chunk_size key file index epoch priority b s
board_step-IsSound (finished id bytes error) b s = finish-IsSound id b s bytes error
board_step-IsSound (hedge_came id bytes) b s = publish_hedge-IsSound id b s bytes
board_step-IsSound (discarded id) b s = discard-IsSound id b s
board_step-IsSound (started id) b s = start_task-IsSound id b s
board_step-IsSound (foregrounded id) b s = mark_foreground-IsSound id b s
board_step-IsSound (hedge_marked closed id) b s = mark_hedged-IsSound id b s closed
board_step-IsSound (seeked version epoch) b s = cancel_outdated-IsSound version epoch b.tasks b s
board_step-IsSound shut b s = cancel_all-IsSound b.tasks b s

board_run-IsSound_from :
    (calls : List BoardCall) (b : Board) → IsSound b → IsSound (board_run calls b)
unfolding board_run
board_run-IsSound_from [] b s = s
board_run-IsSound_from (call ∷ calls) b s =
    board_run-IsSound_from calls _ (board_step-IsSound call b s)

-- From the start, in any order of the operations and with any answers of the network, no channel is closed twice, a task's
-- channel is closed exactly when the task is finished, and the map holds only tasks under way, each under its own key.
pub board_run-IsSound : (calls : List BoardCall) → IsSound (board_run calls empty_board)
unfolding lookup
board_run-IsSound calls =
    board_run-IsSound_from calls empty_board
      (record { calm = refl; settled = λ id. tt; live = λ key. tt })
