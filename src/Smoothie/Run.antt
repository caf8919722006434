-- ===== src/Smoothie/Run.antt =====
-- src/smoothie/session.rs: a job, line by line, and what runs at its end.
use raydriver.Base.{
  ℕ, ◌+◌, Bool, true, false, not, ◌||◌, List, [], ◌∷◌, Option, none, some, if◌then◌else◌, is_some,
  is_empty, map,
}
use raydriver.Base.Int.{ℤ, negsuc}
use raydriver.Device.{F64, DeviceStatus}
use raydriver.Device.Equal.{status_equal, int_equal}
use raydriver.Dialect.{Dialect}
use raydriver.Grbl.Parser.Commands.{strip_gcode_comments}
use raydriver.Smoothie.{SmoothieCore, emit}
use raydriver.Smoothie.Cancel.{send_safety_shutdown}
use raydriver.Smoothie.Exchange.{World, ping_pong}
use raydriver.Grbl.Simple.Receive.{non_empty_lines}
use raydriver.Session.{Result, Event}
use raydriver.Text.Affix.{join}
use raydriver.Text.Regex.{Regex}
use raydriver.Text.Trim.{trim, lines as text_lines}
use raydriver.Text.Utf8.{Text}

-- The code of a line.
unfoldable pub code_of : Regex → Text → Text
unfolding strip_gcode_comments trim
code_of re raw_line = trim (strip_gcode_comments re raw_line)

module _ (F : F64) where
  unfoldable pub start_job : SmoothieCore F → SmoothieCore F
  start_job s =
      let state = record (s.state) { status = DeviceStatus.run } in
      emit F
        (record s {
          is_cancelled = false;
          job_running = true;
          is_holding = false;
          last_reported_op_index = negsuc 0;
          job_exception = none;
          state = state;
        })
        (Event.state_changed state)

  unfoldable pub must_stop : SmoothieCore F → Bool
  unfolding status_equal
  must_stop s = s.is_cancelled || status_equal s.state.status DeviceStatus.alarm

  -- An operation is told where it differs from the last one told.
  unfoldable pub report_op : SmoothieCore F → Option ℤ → SmoothieCore F
  unfolding int_equal
  report_op s none = s
  report_op s (some op_index) =
      if int_equal op_index s.last_reported_op_index
      then s
      else emit F (record s { last_reported_op_index = op_index }) (Event.command_done op_index)

  -- The loop's state: `sent` counts the lines that were answered.
  pub record Progress : Type 0 where
    pub core : SmoothieCore F
    pub sent : ℕ
    pub interrupted : Bool

  module _ (re : Regex) (world : World F) where
    -- The lines from index `line_idx` on.
    unfoldable pub run_lines : (ℕ → Option ℤ) → ℕ → Progress → List Text → Progress
    unfolding must_stop code_of report_op ping_pong
    run_lines op_map line_idx p [] = p
    run_lines op_map line_idx p (raw_line ∷ rest) =
        let line = code_of re raw_line in
        let (answered, result) = ping_pong F world (report_op p.core (op_map line_idx)) line in
        elim (must_stop p.core) [
          | true ↦ p
          | false ↦ elim (is_empty line) [
            | true ↦ run_lines op_map (line_idx + 1) p rest
            | false ↦ elim result [
              | Result.err error ↦ record p { core = answered; interrupted = true }
              | Result.ok reply ↦ elim (is_some answered.job_exception) [
                | true ↦ record p { core = answered }
                | false ↦
                    run_lines op_map (line_idx + 1)
                      (record p { core = world.waiting answered; sent = p.sent + 1 }) rest
              ]
            ]
          ]
        ]

    module _ (dialect : Dialect) where
      unfoldable pub finish_run : Progress → SmoothieCore F
      unfolding send_safety_shutdown
      finish_run p =
          let had_exception = is_some p.core.job_exception in
          let settled = record (p.core) {
            job_exception = none;
            job_running = false;
            is_holding = false;
          } in
          let safe =
            if had_exception || p.interrupted
            then send_safety_shutdown F world dialect settled true
            else settled in
          if not p.core.is_cancelled then emit F safe Event.job_finished else safe

      unfoldable pub run : SmoothieCore F → Text → (ℕ → Option ℤ) → SmoothieCore F
      unfolding start_job run_lines finish_run text_lines
      run s gcode op_map = finish_run (
          run_lines op_map 0 (record { core = start_job s; sent = 0; interrupted = false })
            (text_lines gcode))

      unfoldable pub run_raw : SmoothieCore F → Text → SmoothieCore F
      unfolding run non_empty_lines text_lines trim join
      run_raw s machine_code =
          let lines = non_empty_lines (map trim (text_lines machine_code)) in
          if is_empty lines then s else run s (join (b'\n' ∷ []) lines) (λ i. none)
