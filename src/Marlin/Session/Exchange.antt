-- ===== src/Marlin/Session/Exchange.antt =====
-- src/marlin/session.rs: the exchange of a command for its answer. The task lock lets one command of
-- the user be exchanged at a time, so that exchange begins where the lock was granted; a poll of the
-- position may be in flight beside it.
pub mod Entries
pub mod Ownership
pub mod Turns
use raydriver.Base.{
  ℕ, Bool, true, false, not, List, [], ◌∷◌, ◌++◌, Option, none, some, ◌==◌, if◌then◌else◌, length,
  get_elem?,
}
use raydriver.Device.{F64}
use raydriver.Marlin.Session.{PendingCmd, new_pending, MarlinCore, emit, hand_over}
use raydriver.Session.{TransportError, SessionError, from_transport, Result, Event}
use raydriver.Text.Utf8.{Bytes, Text, codes, as_bytes}

-- `retain(|p| !Arc::ptr_eq(p, &pending))`.
unfoldable pub without : ℕ → List ℕ → List ℕ
without i [] = []
without i (j ∷ queue) = let others = without i queue in if j == i then others else j ∷ others

module _ (F : F64) where
  -- The transport and the other tasks: what they do may depend on all that happened, of which the
  -- log of the state tells. `writing` happens during a write, `waiting` until the task that waits
  -- runs again, be it for a lock, for an answer or for the handshake.
  pub record World : Type 0 where
    pub is_open : MarlinCore F → Bool
    pub write : MarlinCore F → Bytes → Option TransportError
    pub locking : MarlinCore F → MarlinCore F
    pub writing : MarlinCore F → MarlinCore F
    pub waiting : MarlinCore F → MarlinCore F

  abbrev pub not_connected : {A : Type 0} → Result A
  not_connected = Result.err (SessionError.connection (codes "Serial transport not connected"))

  -- A new `PendingCmd` at the end of the queue.
  abbrev pub enqueue : MarlinCore F → Text → MarlinCore F
  enqueue s command =
      emit F
        (record s {
          commands = s.commands ++ new_pending ∷ [];
          pending_queue = s.pending_queue ++ length s.commands ∷ [];
        })
        (Event.raw_tx command)

  -- The result of the wait for a command: its lines, unless the time ran out.
  abbrev pub waited_for : Option PendingCmd → Result (List Text)
  waited_for none = Result.err SessionError.timeout
  waited_for (some p) = if p.finished then Result.ok p.lines else Result.err SessionError.timeout

  -- The entry is dropped on every path.
  abbrev pub drop_entry : MarlinCore F → ℕ → MarlinCore F
  drop_entry s i = record s { pending_queue = without i s.pending_queue }

  module _ (world : World) where
    unfoldable pub enqueue_and_wait : MarlinCore F → Text → Bool → MarlinCore F × Result (List Text)
    unfolding without as_bytes from_transport
    enqueue_and_wait unlocked command serialize =
        let s = if serialize then world.locking unlocked else unlocked in
        if not (world.is_open s)
        then (s, not_connected)
        else (let begun = enqueue s command in
            let payload = as_bytes (command ++ b'\n' ∷ []) in
            let written = world.writing (hand_over F begun payload) in
            let waited = world.waiting written in
            elim (world.write begun payload) [
              | some error ↦
                  (drop_entry written (length s.commands), Result.err (from_transport error))
              | none ↦ (
                drop_entry waited (length s.commands),
                waited_for (get_elem? waited.commands (length s.commands)),
              )
            ])

    -- Up to the first handshake a command waits for it.
    unfoldable pub ping_pong : MarlinCore F → Text → MarlinCore F × Result (List Text)
    unfolding enqueue_and_wait
    ping_pong s command =
        let ready = if s.connected then s else world.waiting s in
        if not ready.connected
        then (ready, Result.err (SessionError.connection (codes "device did not announce itself")))
        else if not (world.is_open ready)
        then (ready, not_connected)
        else enqueue_and_wait ready command true

    unfoldable pub execute_command : MarlinCore F → Text → MarlinCore F × Result (List Text)
    unfolding ping_pong
    execute_command s command =
        ping_pong (if s.job_running then s else record s { is_cancelled = false }) command

    unfoldable pub execute_interactive_command :
        MarlinCore F → Text → MarlinCore F × Result (List Text)
    unfolding execute_command
    execute_interactive_command s command = execute_command s command
