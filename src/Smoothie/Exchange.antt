-- ===== src/Smoothie/Exchange.antt =====
-- src/smoothie/session.rs: the exchange of one command for its answer. The task lock lets one exchange
-- run at a time, so an exchange begins where the lock was granted.
pub mod Late
use raydriver.Base.{
  ℕ, Bool, false, not, List, [], ◌∷◌, ◌++◌, Option, none, some, if◌then◌else◌, length, get_elem?,
}
use raydriver.Device.{F64}
use raydriver.Smoothie.{PendingCmd, new_pending, SmoothieCore, emit, hand_over}
use raydriver.Smoothie.Receive.{resolve_pending}
use raydriver.Session.{TransportError, SessionError, from_transport, Result, Event}
use raydriver.Text.Utf8.{Bytes, Text, codes, as_bytes}

module _ (F : F64) where
  -- The transport and the other tasks: what they do may depend on all that happened, of which the
  -- log of the state tells. `writing` happens during a write, `waiting` until the task that waits
  -- for an answer runs again.
  pub record World : Type 0 where
    pub is_open : SmoothieCore F → Bool
    pub write : SmoothieCore F → Bytes → Option TransportError
    pub writing : SmoothieCore F → SmoothieCore F
    pub waiting : SmoothieCore F → SmoothieCore F

  abbrev pub not_connected : {A : Type 0} → Result A
  not_connected = Result.err (SessionError.connection (codes "Transport not connected"))

  -- A new `PendingCmd` in the slot.
  abbrev pub begin_exchange : SmoothieCore F → Text → SmoothieCore F
  begin_exchange s command =
      emit F
        (record s { commands = s.commands ++ new_pending ∷ []; pending = some (length s.commands) })
        (Event.raw_tx command)

  -- The result of the wait for a command: its lines, unless the time ran out.
  abbrev pub waited_for : Option PendingCmd → Result (List Text)
  waited_for none = Result.err SessionError.timeout
  waited_for (some p) = if p.finished then Result.ok p.lines else Result.err SessionError.timeout

  -- The end of the wait for the command `i`.
  unfoldable pub end_exchange : SmoothieCore F → ℕ → SmoothieCore F × Result (List Text)
  unfolding resolve_pending
  end_exchange s i = (resolve_pending F s, waited_for (get_elem? s.commands i))

  module _ (world : World) where
    unfoldable pub ping_pong : SmoothieCore F → Text → SmoothieCore F × Result (List Text)
    unfolding end_exchange resolve_pending as_bytes from_transport
    ping_pong s command =
        if not (world.is_open s)
        then (s, not_connected)
        else (let begun = begin_exchange s command in
            let payload = as_bytes (command ++ b'\n' ∷ []) in
            let written = world.writing (hand_over F begun payload) in
            elim (world.write begun payload) [
              | some error ↦ (resolve_pending F written, Result.err (from_transport error))
              | none ↦ end_exchange (world.waiting written) (length s.commands)
            ])

    unfoldable pub execute_command : SmoothieCore F → Text → SmoothieCore F × Result (List Text)
    unfolding ping_pong
    execute_command s command =
        ping_pong (if s.job_running then s else record s { is_cancelled = false }) command

    unfoldable pub execute_interactive_command :
        SmoothieCore F → Text → SmoothieCore F × Result (List Text)
    unfolding execute_command
    execute_interactive_command s command = execute_command s command
