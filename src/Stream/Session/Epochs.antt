-- ===== src/Stream/Session/Epochs.antt =====
-- internal/stream/manager.go: what a read may do to the playback of a file.
use baidu_disk_link.Common.{ℕ, ◌+◌, ◌≤◌, ◌≡◌, ◌≢◌, ◌⊎◌, refl, Bool, true, false, arith}
use baidu_disk_link.Stream.Types.{Mode, Event, quiet, start, seek, Observation}
use baidu_disk_link.Stream.Config.{Config}
use baidu_disk_link.Stream.Session.{
  Session, Prepared, in_scheduled_window, decide, decide_quiet, decide_start, decide_seek,
  prepare_session,
}

-- What a read leaves of the session that it meets.
pub record Proceeds (s s' : Session) (p : Prepared) : Type 0 where
  pub onward : s.epoch ≤ s'.epoch
  pub ahead : s.cursor ≤ s'.cursor
  pub told : p.epoch ≡ s'.epoch
  pub kept : (p.cancels ≡ false) ⊎ (s'.epoch ≡ s.epoch + 1)
  pub cancelled : (p.cancels ≡ true) ⊎ (s'.epoch ≡ s.epoch)

decide_lem :
    (id : ℕ) (event : Event) (mode : Mode) (within : Bool) (offset : ℕ) (s : Session)
    → let d = decide id event mode within offset s in
      (s.epoch ≤ d.session.epoch)
      × (d.session.cursor ≡ s.cursor)
      × ((d.cancels ≡ false) ⊎ (d.session.epoch ≡ s.epoch + 1))
      × ((d.cancels ≡ true) ⊎ (d.session.epoch ≡ s.epoch))
unfolding decide decide_quiet decide_start decide_seek
decide_lem id quiet mode within offset s = ground arith
decide_lem id start mode within offset s = ground arith
decide_lem id seek mode within offset s = ground arith

-- A read moves neither the epoch nor the cursor of its session back, returns the epoch that the
-- session then has, and has the earlier tasks cancelled exactly when it begins the next epoch.
pub prepare_session-Proceeds :
    (cfg : Config) (id offset length now : ℕ) (observed : Observation) (s : Session)
    → Proceeds s
        (prepare_session cfg id observed offset length now s).0
        (prepare_session cfg id observed offset length now s).1
unfolding prepare_session
prepare_session-Proceeds cfg id offset length now observed s =
    let within = in_scheduled_window cfg s offset in
    let d = decide_lem id observed.event observed.mode within offset s in
    record { onward = d.0; ahead = ground (arith, d.1); told = refl; kept = d.2; cancelled = d.3 }

-- a seek by another handle decides to do nothing
decide_apart :
    (id : ℕ) (mode : Mode) (within : Bool) (offset : ℕ) (s : Session)
    → s.active_handle ≢ 0
    → s.active_handle ≢ id
    → let d = decide id seek mode within offset s in
      (d.session ≡ s) × (d.cancels ≡ false) × (d.event ≡ quiet)
unfolding decide decide_quiet decide_seek
decide_apart id mode within offset s active other = ground arith

-- While one handle plays, a seek by another handle that is not part of a stream leaves the playback
-- alone: the session changes only in the time of its last access, no task is cancelled, and the
-- read counts neither as a seek nor as part of the stream.
pub prepare_session_apart :
    (cfg : Config) (id offset length now : ℕ) (observed : Observation) (s : Session)
    → s.active_handle ≢ 0
    → s.active_handle ≢ id
    → observed.event ≡ seek
    → observed.stream_read ≡ false
    → let r = prepare_session cfg id observed offset length now s in
      (r.0 ≡ record s { last_access = now })
      × (r.1.cancels ≡ false)
      × (r.1.event ≡ quiet)
      × (r.1.stream_read ≡ false)
unfolding prepare_session
prepare_session_apart cfg id offset length now observed s active other e no_stream =
    let d =
      decide_apart id observed.mode (in_scheduled_window cfg s offset) offset s active other in
    ground (arith, e, no_stream, d.0, d.1)
