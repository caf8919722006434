-- ===== src/Grbl/Simple/Run/Ends.antt =====
-- src/grbl/simple.rs: how a job ends, with or without an error.
use raydriver.Base.{
  ℕ, ◌≡◌, refl, ◌∙◌, sym, Bool, true, false, ◌||◌, [], ◌++◌, ++_nil, Option, is_some, if◌then◌else◌,
  map,
}
use raydriver.Base.Int.{ℤ}
use raydriver.Device.{F64}
use raydriver.Dialect.{Dialect}
use raydriver.Grbl.Session.Cancel.{shutdown_commands}
use raydriver.Grbl.Simple.{SimpleCore, emit}
use raydriver.Grbl.Simple.Cancel.{send_safety_shutdown}
use raydriver.Grbl.Simple.Cancel.Released.{IsAlone, payload_of, send_safety_shutdown-transport}
use raydriver.Grbl.Simple.Exchange.{World}
use raydriver.Grbl.Simple.Run.{Progress, start_job, run_lines, finish_run, run}
use raydriver.Session.{Event}
use raydriver.Text.Regex.{Regex}
use raydriver.Text.Trim.{lines as text_lines}
use raydriver.Text.Utf8.{Text}

module _ {F : F64} (re : Regex) (world : World F) (alone : IsAlone world) where
  told_transport :
      (told : Bool) (s : SimpleCore F)
      → (if told then emit F s Event.job_finished else s).transport ≡ s.transport
  told_transport true s = refl
  told_transport false s = refl

  shut_transport :
      (dialect : Dialect) (shut : Bool) (s : SimpleCore F)
      → (if shut then send_safety_shutdown F world dialect s true else s).transport
        ≡ s.transport ++ (if shut then map payload_of (shutdown_commands F dialect true) else [])
  shut_transport dialect true s = send_safety_shutdown-transport world alone dialect s true
  shut_transport dialect false s = sym (++_nil s.transport)

  -- Over an open transport to which only this task writes: where the loop over the lines left an
  -- exception or was interrupted, the last that the device is sent are the safety commands of the
  -- dialect and its emergency stop, in order; else nothing follows the loop's own commands.
  pub run-transport :
      (dialect : Dialect) (s : SimpleCore F) (gcode : Text) (op_map : ℕ → Option ℤ)
      → let begun : Progress F = record { core = start_job F s; sent = 0; interrupted = false } in
        let p = run_lines F re world op_map 0 begun (text_lines gcode) in
        (run F re world dialect s gcode op_map).transport
        ≡ p.core.transport
          ++ (if is_some p.core.job_exception || p.interrupted
              then map payload_of (shutdown_commands F dialect true)
              else [])
  unfolding run finish_run
  run-transport dialect s gcode op_map = told_transport _ _ ∙ shut_transport dialect _ _
