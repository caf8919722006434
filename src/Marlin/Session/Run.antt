-- ===== src/Marlin/Session/Run.antt =====
-- src/marlin/session.rs: a job, line by line, its end, and its cancellation.
use raydriver.Base.{
  ℕ, ◌+◌, Bool, true, false, not, ◌||◌, List, [], ◌∷◌, ◌++◌, Option, none, some, if◌then◌else◌,
  is_some, is_empty, map,
}
use raydriver.Base.Int.{ℤ, negsuc}
use raydriver.Device.{F64, DeviceStatus}
use raydriver.Device.Equal.{int_equal}
use raydriver.Dialect.{Dialect}
use raydriver.Grbl.Session.Cancel.{shutdown_commands}
use raydriver.Grbl.Simple.Receive.{non_empty_lines}
use raydriver.Marlin.Session.{MarlinCore, emit, hand_over}
use raydriver.Marlin.Session.Exchange.{World, not_connected, ping_pong}
use raydriver.Marlin.Session.Receive.{resolve_pending}
use raydriver.Session.{from_transport, Result, Event}
use raydriver.Text.Affix.{join}
use raydriver.Text.Trim.{trim, lines as text_lines}
use raydriver.Text.Utf8.{Text, codes, as_bytes}

module _ (F : F64) where
  unfoldable pub start_job : MarlinCore F → MarlinCore F
  start_job s =
      let state = record (s.state) { status = DeviceStatus.run } in
      emit F
        (record s {
          is_cancelled = false;
          job_running = true;
          last_reported_op_index = negsuc 0;
          job_exception = none;
          state = state;
        })
        (Event.state_changed state)

  -- An operation is told where it differs from the last one told.
  unfoldable pub report_op : MarlinCore F → Option ℤ → MarlinCore F
  unfolding int_equal
  report_op s none = s
  report_op s (some op_index) =
      if int_equal op_index s.last_reported_op_index
      then s
      else emit F (record s { last_reported_op_index = op_index }) (Event.command_done op_index)

  -- The loop's state: `sent` counts the lines that were answered.
  pub record Progress : Type 0 where
    pub core : MarlinCore F
    pub sent : ℕ
    pub interrupted : Bool

  module _ (world : World F) where
    -- The lines from index `line_idx` on.
    unfoldable pub run_lines : (ℕ → Option ℤ) → ℕ → Progress → List Text → Progress
    unfolding trim report_op ping_pong
    run_lines op_map line_idx p [] = p
    run_lines op_map line_idx p (raw_line ∷ rest) =
        let line = trim raw_line in
        let (answered, result) = ping_pong F world (report_op p.core (op_map line_idx)) line in
        elim p.core.is_cancelled [
          | true ↦ p
          | false ↦ elim (is_empty line) [
            | true ↦ run_lines op_map (line_idx + 1) p rest
            | false ↦ elim result [
              | Result.err error ↦ record p { core = answered; interrupted = true }
              | Result.ok reply ↦ elim (is_some answered.job_exception) [
                | true ↦ record p { core = answered }
                | false ↦
                    run_lines op_map (line_idx + 1)
                      (record p { core = world.waiting answered; sent = p.sent + 1 }) rest
              ]
            ]
          ]
        ]

    -- A command that fails is logged, and the next one is sent, as long as the transport is open.
    unfoldable pub send_commands : MarlinCore F → List Text → MarlinCore F
    unfolding as_bytes
    send_commands s [] = s
    send_commands s (command ∷ rest) =
        let others =
          send_commands (world.writing (hand_over F s (as_bytes (command ++ b'\n' ∷ [])))) rest in
        if not (world.is_open s) then s else others

    module _ (dialect : Dialect) where
      unfoldable pub send_safety_shutdown : MarlinCore F → Bool → MarlinCore F
      unfolding shutdown_commands send_commands
      send_safety_shutdown s emergency = send_commands s (shutdown_commands F dialect emergency)

      unfoldable pub finish_run : Progress → MarlinCore F
      unfolding send_safety_shutdown
      finish_run p =
          let had_exception = is_some p.core.job_exception in
          let settled = record (p.core) { job_exception = none; job_running = false } in
          let safe =
            if had_exception || p.interrupted then send_safety_shutdown settled true else settled in
          if not p.core.is_cancelled then emit F safe Event.job_finished else safe

      unfoldable pub run : MarlinCore F → Text → (ℕ → Option ℤ) → MarlinCore F
      unfolding start_job run_lines finish_run text_lines
      run s gcode op_map = finish_run (
          run_lines op_map 0 (record { core = start_job s; sent = 0; interrupted = false })
            (text_lines gcode))

      unfoldable pub run_raw : MarlinCore F → Text → MarlinCore F
      unfolding run non_empty_lines text_lines trim join
      run_raw s machine_code =
          let lines = non_empty_lines (map trim (text_lines machine_code)) in
          if is_empty lines then s else run s (join (b'\n' ∷ []) lines) (λ i. none)

      unfoldable pub cancel : MarlinCore F → Bool → MarlinCore F × Result {0} Unit
      unfolding resolve_pending send_safety_shutdown from_transport
      cancel s emergency =
          let resolved =
            resolve_pending F (record s { is_cancelled = true; job_running = false }) in
          let flagged = record resolved { line_buffer = [] } in
          if not (world.is_open flagged)
          then (flagged, not_connected F)
          else (let stopped = world.writing (hand_over F flagged (codes "M410" ++ b'\n' ∷ [])) in
              elim (world.write flagged (codes "M410" ++ b'\n' ∷ [])) [
                | some error ↦ (stopped, Result.err (from_transport error))
                | none ↦
                    let safe = send_safety_shutdown stopped emergency in
                    (if s.job_running then emit F safe Event.job_finished else safe, Result.ok tt)
              ])
