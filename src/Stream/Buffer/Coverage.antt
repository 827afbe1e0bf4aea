-- ===== src/Stream/Buffer/Coverage.antt =====
-- internal/stream/manager.go: the chunks that a plan of `scheduleBuffer` asks for.
use baidu_disk_link.Common.{
  ℕ, zero, suc, ◌+◌, ◌-◌, ◌*◌, ◌/◌, ◌≤◌, ◌<◌, ◌≡◌, ◌⊎◌, inl, inr, refl, Bool, true, false, List,
  some, [], ◌∷◌, ◌++◌, ltb, leb, ◌==◌, ◌&&◌, ◌||◌, if◌then◌else◌, min, max, sym, dec_le, arith,
  Bool-cases,
}
use native.Mathlib.Nat.{div-mul-le_self, mul-le-mul_right, le-div_iff_mul-le}
use baidu_disk_link.ChunkStore.Types.{File}
use baidu_disk_link.Stream.Types.{Priority}
use baidu_disk_link.Stream.Config.{Config}
use baidu_disk_link.Stream.Session.{Session}
use baidu_disk_link.Stream.Buffer.{
  Window, Plan, chunks, extend_jobs, reset_jobs, advance_jobs, end_offset, window, reset_plan,
  advance_plan, schedule,
}

-- whether a chunk is among the jobs
unfoldable pub asks : ℕ → List (ℕ × Priority) → Bool
asks index [] = false
asks index ((first, priority) ∷ l) = (first == index) || asks index l

asks-append :
    (index : ℕ) (l k : List (ℕ × Priority)) → asks index (l ++ k) ≡ (asks index l || asks index k)
unfolding asks
asks-append index [] k = refl
asks-append index (j ∷ l) k = ground (arith, asks-append index l k)

-- a run of chunks asks for exactly its chunks
asks-chunks :
    (index first count : ℕ) (priority : Priority)
    → asks index (chunks first count priority) ≡ (leb first index && ltb index (first + count))
unfolding asks chunks
asks-chunks index first zero priority = ground arith
asks-chunks index first (suc count) priority =
    ground (arith, asks-chunks index (first + 1) count priority)

asks-extend_jobs :
    (index near_end first count : ℕ)
    → asks index (extend_jobs near_end first count) ≡ (leb first index && ltb index (first + count))
unfolding asks extend_jobs
asks-extend_jobs index near_end first zero = ground arith
asks-extend_jobs index near_end first (suc count) =
    ground (arith, asks-extend_jobs index near_end (first + 1) count)

-- what the jobs of a new window ask for
asks-reset_jobs :
    (cfg : Config) (cursor index : ℕ) (w : Window)
    → asks index (reset_jobs cfg cursor w) ≡ (
        (leb w.start index && ltb index (w.start + (w.near_end + 1 - w.start)))
        || ((leb (w.near_end + 1) index
              && ltb index (w.near_end + 1 + (w.end + 1 - (w.near_end + 1))))
            || (if ltb 0 cfg.back_buffer && ltb 0 cursor
                then leb w.floor index
                  && ltb index (w.floor + ((cursor - 1) / cfg.chunk_size + 1 - w.floor))
                else false)))
unfolding asks reset_jobs
asks-reset_jobs cfg cursor index w = elim (Bool-cases (ltb 0 cfg.back_buffer && ltb 0 cursor)) [
  | inl e ↦ simp (e, asks-append, asks-chunks)
  | inr e ↦ simp (e, asks-append, asks-chunks)
]

-- what the jobs of a window that has moved on ask for
asks-advance_jobs :
    (previous_near previous_end index : ℕ) (w : Window)
    → let first = max (previous_near + 1) w.start in
      asks index (advance_jobs previous_near previous_end w) ≡ (
        (leb first index && ltb index (first + (min w.near_end previous_end + 1 - first)))
        || (leb (previous_end + 1) index
            && ltb index (previous_end + 1 + (w.end + 1 - (previous_end + 1)))))
unfolding advance_jobs
asks-advance_jobs previous_near previous_end index w =
    simp (asks-append, asks-chunks, asks-extend_jobs)

-- every chunk of a new window is asked for
reset_jobs-all :
    (cfg : Config) (cursor index : ℕ) (w : Window)
    → w.start ≤ index
    → index ≤ w.end
    → asks index (reset_jobs cfg cursor w) ≡ true
reset_jobs-all cfg cursor index w from to = ground (arith, asks-reset_jobs cfg cursor index w)

-- every chunk behind the previous end is asked for
advance_jobs-all :
    (previous_near previous_end index : ℕ) (w : Window)
    → previous_end < index
    → index ≤ w.end
    → asks index (advance_jobs previous_near previous_end w) ≡ true
advance_jobs-all previous_near previous_end index w from to =
    ground (arith, asks-advance_jobs previous_near previous_end index w)

-- no chunk behind the window is asked for
reset_jobs-bound :
    (cfg : Config) (cursor index : ℕ) (w : Window)
    → w.near_end ≤ w.end
    → asks index (reset_jobs cfg cursor w) ≡ true
    → (index ≤ w.end) ⊎ ((0 < cursor) × (index ≤ (cursor - 1) / cfg.chunk_size))
reset_jobs-bound cfg cursor index w ordered asked =
    ground (arith, asks-reset_jobs cfg cursor index w)

advance_jobs-bound :
    (previous_near previous_end index : ℕ) (w : Window)
    → w.near_end ≤ w.end
    → asks index (advance_jobs previous_near previous_end w) ≡ true
    → index ≤ w.end
advance_jobs-bound previous_near previous_end index w ordered asked =
    ground (arith, asks-advance_jobs previous_near previous_end index w)

-- the two kinds of plan
schedule-jobs :
    (cfg : Config) (file : File) (cursor epoch : ℕ) (s : Session) (p : Plan)
    → schedule cfg file cursor epoch s ≡ some p
    → let w = window cfg file cursor in
      (cursor < end_offset cfg file cursor)
      × ((0 < file.size) → cursor < file.size)
      × ((p.jobs ≡ reset_jobs cfg cursor w)
          ⊎ ((s.schedule_set ≡ true)
              × (s.schedule_epoch ≡ epoch)
              × (p.jobs ≡ advance_jobs s.scheduled_near s.scheduled_end w)))
unfolding schedule reset_plan advance_plan
schedule-jobs cfg file cursor epoch s p planned =
    (ground arith, λ some_file. ground arith, ground arith)

end_offset-file :
    (cfg : Config) (file : File) (cursor : ℕ)
    → 0 < file.size
    → end_offset cfg file cursor ≤ file.size
unfolding end_offset
end_offset-file cfg file cursor some_file = ground arith

window-start :
    (cfg : Config) (file : File) (cursor offset : ℕ)
    → 0 < cfg.chunk_size
    → cursor ≤ offset
    → (window cfg file cursor).start ≤ offset / cfg.chunk_size
unfolding window
window-start cfg file cursor offset some_chunk from =
    let low = div-mul-le_self cursor cfg.chunk_size in
    (le-div_iff_mul-le some_chunk).1 (omega arith)

window-end :
    (cfg : Config) (file : File) (cursor offset : ℕ)
    → 0 < cfg.chunk_size
    → offset < end_offset cfg file cursor
    → offset / cfg.chunk_size ≤ (window cfg file cursor).end
unfolding window
window-end cfg file cursor offset some_chunk to =
    let low = div-mul-le_self offset cfg.chunk_size in
    (le-div_iff_mul-le some_chunk).1 (omega arith)

window-near_end :
    (cfg : Config) (file : File) (cursor : ℕ)
    → (window cfg file cursor).near_end ≤ (window cfg file cursor).end
unfolding window
window-near_end cfg file cursor = omega arith

window-inside :
    (cfg : Config) (file : File) (cursor : ℕ)
    → (window cfg file cursor).end * cfg.chunk_size ≤ end_offset cfg file cursor - 1
unfolding window
window-inside cfg file cursor = div-mul-le_self (end_offset cfg file cursor - 1) cfg.chunk_size

-- A plan of `scheduleBuffer` leaves no gap: for a positive chunk size, the chunk of every offset from the cursor up to the end
-- of the window is among the jobs of the plan, unless the session has a plan of the same epoch already, whose window reached it.
pub schedule_complete :
    (cfg : Config) (file : File) (cursor epoch offset : ℕ) (s : Session) (p : Plan)
    → 0 < cfg.chunk_size
    → schedule cfg file cursor epoch s ≡ some p
    → cursor ≤ offset
    → offset < end_offset cfg file cursor
    → (asks (offset / cfg.chunk_size) p.jobs ≡ true)
      ⊎ ((s.schedule_set ≡ true)
          × (s.schedule_epoch ≡ epoch)
          × (offset / cfg.chunk_size ≤ s.scheduled_end))
schedule_complete cfg file cursor epoch offset s p some_chunk planned from to =
    let w = window cfg file cursor in
    let index = offset / cfg.chunk_size in
    let low = window-start cfg file cursor offset some_chunk from in
    let high = window-end cfg file cursor offset some_chunk to in
    elim (schedule-jobs cfg file cursor epoch s p planned).2 [
      | inl e ↦ inl (rw e (reset_jobs-all cfg cursor index w low high))
      | inr (planned_before, same, e) ↦ elim (dec_le index s.scheduled_end) [
        | yes known ↦ inr (planned_before, same, known)
        | no beyond ↦
            inl
              (rw e (advance_jobs-all s.scheduled_near s.scheduled_end index w (omega arith) high))
      ]
    ]

-- A plan of `scheduleBuffer` asks for no chunk behind the end of the file: for a positive chunk size, every chunk among the
-- jobs of a plan for a file that is not empty begins before the end of the file.
pub schedule_inside :
    (cfg : Config) (file : File) (cursor epoch index : ℕ) (s : Session) (p : Plan)
    → 0 < cfg.chunk_size
    → 0 < file.size
    → schedule cfg file cursor epoch s ≡ some p
    → asks index p.jobs ≡ true
    → index * cfg.chunk_size < file.size
schedule_inside cfg file cursor epoch index s p some_chunk some_file planned asked =
    let w = window cfg file cursor in
    let plan = schedule-jobs cfg file cursor epoch s p planned in
    let before = end_offset-file cfg file cursor some_file in
    let bound : index ≤ w.end ⊎ ((0 < cursor) × (index ≤ (cursor - 1) / cfg.chunk_size)) =
      elim plan.2 [
        | inl e ↦
            reset_jobs-bound cfg cursor index w (window-near_end cfg file cursor) (rw (sym e) asked)
        | inr (planned_before, same, e) ↦ inl (
            advance_jobs-bound s.scheduled_near s.scheduled_end index w
              (window-near_end cfg file cursor) (rw (sym e) asked))
      ] in
    elim bound [
      | inl ahead_of ↦
          let below = mul-le-mul_right cfg.chunk_size ahead_of in
          let inside = window-inside cfg file cursor in let some_end = plan.0 in omega arith
      | inr (some_cursor, behind) ↦
          let low = (le-div_iff_mul-le some_chunk).0 behind in
          let inside = plan.1 some_file in omega arith
    ]
