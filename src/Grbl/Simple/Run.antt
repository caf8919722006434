-- ===== src/Grbl/Simple/Run.antt =====
-- src/grbl/simple.rs: a job, line by line, and what runs at its end.
pub mod Order
pub mod Prefix
pub mod Ends
pub mod Complete
use raydriver.Base.{
  ℕ, zero, suc, ◌+◌, Bool, true, false, not, ◌||◌, List, [], ◌∷◌, ◌++◌, Option, none, some,
  if◌then◌else◌, is_some, is_empty, map,
}
use raydriver.Base.Int.{ℤ, negsuc}
use raydriver.Device.{F64, DeviceStatus}
use raydriver.Device.Equal.{status_equal, int_equal}
use raydriver.Dialect.{Dialect}
use raydriver.Grbl.Parser.Commands.{strip_gcode_comments, split_realtime_commands}
use raydriver.Grbl.Simple.{SimpleCore, emit}
use raydriver.Grbl.Simple.Cancel.{send_safety_shutdown}
use raydriver.Grbl.Simple.Exchange.{World, ping_pong, send_realtime}
use raydriver.Grbl.Simple.Receive.{non_empty_lines}
use raydriver.Session.{Result, Event}
use raydriver.Text.Affix.{join}
use raydriver.Text.Regex.{Regex}
use raydriver.Text.Trim.{trim, lines as text_lines}
use raydriver.Text.Utf8.{Text}

-- The code of a line.
unfoldable pub code_of : Regex → Text → Text
unfolding strip_gcode_comments trim
code_of re raw_line = trim (strip_gcode_comments re raw_line)

module _ (F : F64) where
  unfoldable pub start_job : SimpleCore F → SimpleCore F
  start_job s =
      let state = record (s.state) { status = DeviceStatus.run } in
      emit F
        (record s {
          is_cancelled = false;
          job_running = true;
          is_holding = false;
          last_reported_op_index = negsuc 0;
          job_exception = none;
          state = state;
        })
        (Event.state_changed state)

  unfoldable pub must_stop : SimpleCore F → Bool
  unfolding status_equal
  must_stop s = s.is_cancelled || status_equal s.state.status DeviceStatus.alarm

  -- An operation is told where it differs from the last one told.
  unfoldable pub report_op : SimpleCore F → Option ℤ → SimpleCore F
  unfolding int_equal
  report_op s none = s
  report_op s (some op_index) =
      if int_equal op_index s.last_reported_op_index
      then s
      else emit F (record s { last_reported_op_index = op_index }) (Event.command_done op_index)

  -- The loop's state: `sent` counts the lines that were answered.
  pub record Progress : Type 0 where
    pub core : SimpleCore F
    pub sent : ℕ
    pub interrupted : Bool

  module _ (re : Regex) (world : World F) where
    -- The lines from index `line_idx` on.
    unfoldable pub run_lines : (ℕ → Option ℤ) → ℕ → Progress → List Text → Progress
    unfolding must_stop code_of report_op ping_pong
    run_lines op_map line_idx p [] = p
    run_lines op_map line_idx p (raw_line ∷ rest) =
        let line = code_of re raw_line in
        let (answered, result) = ping_pong F world (report_op p.core (op_map line_idx)) line in
        elim (must_stop p.core) [
          | true ↦ p
          | false ↦ elim (is_empty line) [
            | true ↦ run_lines op_map (line_idx + 1) p rest
            | false ↦ elim result [
              | Result.err error ↦ record p { core = answered; interrupted = true }
              | Result.ok reply ↦ elim (is_some answered.job_exception) [
                | true ↦ record p { core = answered }
                | false ↦
                    run_lines op_map (line_idx + 1)
                      (record p { core = world.waiting answered; sent = p.sent + 1 }) rest
              ]
            ]
          ]
        ]

    module _ (dialect : Dialect) where
      unfoldable pub finish_run : Progress → SimpleCore F
      unfolding send_safety_shutdown
      finish_run p =
          let had_exception = is_some p.core.job_exception in
          let settled = record (p.core) {
            job_exception = none;
            job_running = false;
            is_holding = false;
          } in
          let safe =
            if had_exception || p.interrupted
            then send_safety_shutdown F world dialect settled true
            else settled in
          if not p.core.is_cancelled then emit F safe Event.job_finished else safe

      unfoldable pub run : SimpleCore F → Text → (ℕ → Option ℤ) → SimpleCore F
      unfolding start_job run_lines finish_run text_lines
      run s gcode op_map = finish_run (
          run_lines op_map 0 (record { core = start_job s; sent = 0; interrupted = false })
            (text_lines gcode))

      -- The realtime commands are written first; the first that fails ends it all.
      unfoldable pub send_all_realtime : SimpleCore F → List Text → SimpleCore F × Bool
      unfolding send_realtime
      send_all_realtime s [] = (s, true)
      send_all_realtime s (line ∷ rest) =
          let (sent, result) = send_realtime F world s line in
          let others = send_all_realtime sent rest in
          elim result [ Result.ok done ↦ others | Result.err error ↦ (sent, false) ]

      unfoldable pub run_raw : SimpleCore F → Text → SimpleCore F
      unfolding send_all_realtime run split_realtime_commands non_empty_lines text_lines trim join
      run_raw s machine_code =
          let (gcode, realtime) =
            split_realtime_commands (non_empty_lines (map trim (text_lines machine_code))) in
          let (sent, all_sent) = send_all_realtime s realtime in
          if not all_sent
          then sent
          else if is_empty gcode
          then sent
          else run sent (join (b'\n' ∷ []) gcode) (λ i. none)
