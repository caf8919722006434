-- ===== src/Grbl/Session/Interactive.antt =====
-- src/grbl/session.rs: a command whose answer is waited for with the command lock held.
pub mod Answer
pub mod Operations
use raydriver.Base.{Bool, true, false, not, List, [], ◌∷◌, ◌++◌, Option, none, some, if◌then◌else◌}
use raydriver.Device.{F64}
use raydriver.Grbl.Session.{RequestShared, SessionCore}
use raydriver.Grbl.Session.Job.{Transport, Outcome, send_tracked}
use raydriver.Session.{SessionError, Result}
use raydriver.Text.Utf8.{Bytes, Text, codes, as_bytes}

abbrev pub new_request : Text → RequestShared
new_request command = record { command = command; response_lines = []; finished = false }

-- What the wait for a request ends with.
abbrev pub result_of : Option RequestShared → Result (List Text)
result_of none = Result.err SessionError.timeout
result_of (some r) =
    if r.finished then Result.ok r.response_lines else Result.err SessionError.timeout

module _ (F : F64) where
  -- What the other tasks do until the command lock is taken and the queue is empty, until there is
  -- space or a second has passed, during the write, and until the request is finished or its time is
  -- up.
  pub record Turns : Type 0 where
    pub lock : SessionCore F → SessionCore F
    pub drain : SessionCore F → SessionCore F
    pub space : SessionCore F → SessionCore F
    pub write : SessionCore F → SessionCore F
    pub answer : SessionCore F → SessionCore F

  module _ (transport : Transport) (env : Turns) where
    -- With space or without it.
    unfoldable pub send_command_bytes : SessionCore F → Bytes → SessionCore F × Outcome
    unfolding send_tracked
    send_command_bytes s payload = send_tracked F transport env.write (env.space s) payload none

    abbrev pub ask : SessionCore F → Text → SessionCore F
    ask s command =
        let ready = env.drain (env.lock s) in
        record ready { interactive_request = some (new_request command) }

    abbrev pub leave : SessionCore F → SessionCore F
    leave s = record s { interactive_request = none }

    -- The slot is the request's while the lock is held: no other task sets it.
    unfoldable pub execute_interactive_command :
        SessionCore F → Text → SessionCore F × Result (List Text)
    unfolding send_command_bytes as_bytes
    execute_interactive_command s command =
        if not transport.is_open
        then (s, Result.err (SessionError.connection (codes "Serial transport not connected")))
        else (let (sent, outcome) =
              send_command_bytes (ask s command) (as_bytes (command ++ b'\n' ∷ [])) in
            let answered = env.answer sent in
            elim outcome [
              | Outcome.failed error ↦ (leave sent, Result.err error)
              | Outcome.done ↦ (leave answered, result_of answered.interactive_request)
            ])
