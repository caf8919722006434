-- ===== src/Grbl/Session/Stream.antt =====
-- src/grbl/session.rs: the streaming of a job's lines, `stream_gcode_inner` with `send_gcode_line`
-- and `send_gcode_with_stall`, as steps between which the other tasks run. Stall timeouts, which are
-- `f64` values, only say when a wait times out: a stall may happen whenever there is no space. An
-- error of the transport ends the task: no step of it follows.
pub mod Order
use raydriver.Base.{
  ℕ, suc, ◌+◌, Bool, true, false, ◌||◌, List, [], ◌∷◌, ◌++◌, ◌≡◌, Option, none, some, if◌then◌else◌,
  length, is_some, is_empty,
}
use raydriver.Base.Int.{ℤ}
use raydriver.Device.{F64}
use raydriver.Flow.{needs_space}
use raydriver.Grbl.Parser.Commands.{strip_gcode_comments}
use raydriver.Grbl.Session.{SessionCore}
use raydriver.Grbl.Session.Job.{Transport, note_sent}
use raydriver.Grbl.Session.Receive.{handle_rx}
use raydriver.Grbl.Session.Stall.{Meanwhile, is_alarmed, blame, mark_alarm, on_buffer_stall}
use raydriver.Text.Number.{decimal}
use raydriver.Text.Regex.{Regex}
use raydriver.Text.Utf8.{Bytes, Text, codes, as_bytes}

-- A command and the operation that it belongs to.
abbrev pub Payload : Type 0
Payload = Bytes × Option ℤ

-- Where the loop stands: before a line, in the wait for the space of a command, behind its write,
-- with a command that was given up, or at its end.
pub data Phase : Type 0 where
  at_line : Phase
  waits : Payload → Phase
  wrote : Phase
  gave_up : Payload → Phase
  over : Phase

-- What a line is sent as; a line without code is skipped.
unfoldable pub line_payload : Regex → Text → Option Bytes
unfolding strip_gcode_comments as_bytes
line_payload re raw_line =
    let line = strip_gcode_comments re raw_line in
    if is_empty line then none else some (as_bytes (line ++ b'\n' ∷ []))

module _ (F : F64) where
  pub record Stream : Type 0 where
    pub core : SessionCore F
    pub rest : List Text
    pub line_idx : ℕ
    pub sent_count : ℕ
    pub phase : Phase
    pub written : List Payload

  unfoldable pub must_stop : SessionCore F → Bool
  must_stop s = s.is_cancelled || is_some s.job_exception || is_alarmed F s

  unfoldable pub stop_sending : SessionCore F → SessionCore F
  unfolding mark_alarm
  stop_sending s = if is_alarmed F s then mark_alarm F s else s

  module _ (re : Regex) (op_map : ℕ → Option ℤ) where
    abbrev pub skip_line : Stream → List Text → Stream
    skip_line σ more = record σ { rest = more; line_idx = σ.line_idx + 1 }

    unfoldable pub take_line_from : Stream → List Text → Stream
    unfolding must_stop stop_sending line_payload
    take_line_from σ [] = record σ { phase = Phase.over }
    take_line_from σ (raw_line ∷ more) =
        if must_stop σ.core
        then record σ { core = stop_sending σ.core; phase = Phase.over }
        else elim (line_payload re raw_line) [
          | none ↦ skip_line σ more
          | some bytes ↦ record (skip_line σ more) {
            phase = Phase.waits (bytes, op_map σ.line_idx);
          }
        ]

    -- The head of the loop, up to the wait for space.
    unfoldable pub take_line : Stream → Stream
    unfolding take_line_from
    take_line σ = take_line_from σ σ.rest

    -- `track_command` and the write.
    unfoldable pub write_line : Stream → Payload → Stream
    unfolding note_sent
    write_line σ (bytes, op_index) = record σ {
      core = note_sent F σ.core bytes op_index;
      phase = Phase.wrote;
      written = σ.written ++ (bytes, op_index) ∷ [];
    }

    -- Behind the write.
    unfoldable pub after_line : Stream → Stream
    after_line σ =
        if is_some σ.core.job_exception || is_alarmed F σ.core
        then record σ { phase = Phase.over }
        else record σ { phase = Phase.at_line; sent_count = σ.sent_count + 1 }

    -- A stall: the sender waits on, or the job has its exception and ends.
    unfoldable pub stall_line : Transport → Meanwhile F → Stream → Payload → Stream
    unfolding on_buffer_stall decimal
    stall_line transport env σ (bytes, op_index) =
        let (stalled, retry) = on_buffer_stall F transport env σ.core (length bytes) in
        if retry then record σ { core = stalled } else record σ {
          core =
              if is_some stalled.job_exception
              then stalled
              else blame F stalled (
                  codes "Deadlock recovery failed: cannot get "
                  ++ decimal (length bytes)
                  ++ codes " bytes of space");
          phase = Phase.gave_up (bytes, op_index);
        }

    -- The steps of the streaming task, of the reader, and of all other tasks, which may do anything
    -- to what is shared.
    pub data Step : Stream → Stream → Type 0 where
      takes : (σ : Stream) → σ.phase ≡ Phase.at_line → Step σ (take_line σ)
      sends :
          (σ : Stream) (payload : Payload)
          → σ.phase ≡ Phase.waits payload
          → needs_space σ.core.flow.inner (length payload.0) ≡ false
          → Step σ (write_line σ payload)
      stalls :
          (σ : Stream) (transport : Transport) (env : Meanwhile F) (payload : Payload)
          → σ.phase ≡ Phase.waits payload
          → needs_space σ.core.flow.inner (length payload.0) ≡ true
          → Step σ (stall_line transport env σ payload)
      returns : (σ : Stream) → σ.phase ≡ Phase.wrote → Step σ (after_line σ)
      receives :
          (σ : Stream) (find_ok : Bytes → Option (ℕ × ℕ)) (input : Bytes)
          → Step σ (record σ { core = handle_rx F re find_ok σ.core input })
      others : (σ : Stream) (core : SessionCore F) → Step σ (record σ { core = core })

    pub data Reach (σ : Stream) : Stream → Type 0 where
      start : Reach σ σ
      next : {τ υ : Stream} → Reach σ τ → Step τ υ → Reach σ υ

    abbrev pub begin : SessionCore F → List Text → Stream
    begin core lines = record {
      core = core;
      rest = lines;
      line_idx = 0;
      sent_count = 0;
      phase = Phase.at_line;
      written = [];
    }
