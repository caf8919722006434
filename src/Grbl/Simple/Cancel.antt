-- ===== src/Grbl/Simple/Cancel.antt =====
-- src/grbl/simple.rs: the safety shutdown, the cancellation of a job, and feed hold.
pub mod Released
pub mod Others
use raydriver.Base.{
  Bool, true, false, not, List, [], ◌∷◌, ◌++◌, Option, none, some, if◌then◌else◌, is_empty,
}
use raydriver.Device.{F64, DeviceStatus}
use raydriver.Device.Equal.{status_equal}
use raydriver.Dialect.{Dialect}
use raydriver.Grbl.Session.Cancel.{shutdown_commands}
use raydriver.Grbl.Simple.{SimpleCore, emit, hand_over}
use raydriver.Grbl.Simple.Exchange.{World, not_connected, send_realtime}
use raydriver.Grbl.Simple.Receive.{resolve_pending}
use raydriver.Session.{SessionError, from_transport, Result, Event}
use raydriver.Text.Utf8.{Text, codes, as_bytes}

module _ (F : F64) (world : World F) where
  -- A command that fails is logged, and the next one is sent, as long as the transport is open.
  unfoldable pub send_commands : SimpleCore F → List Text → SimpleCore F
  unfolding as_bytes
  send_commands s [] = s
  send_commands s (command ∷ rest) =
      let others =
        send_commands (world.writing (hand_over F s (as_bytes (command ++ b'\n' ∷ [])))) rest in
      if not (world.is_open s) then s else others

  -- The delay before the commands is a wait.
  unfoldable pub send_safety_shutdown : Dialect → SimpleCore F → Bool → SimpleCore F
  unfolding shutdown_commands send_commands
  send_safety_shutdown dialect s emergency =
      let commands = shutdown_commands F dialect emergency in
      if is_empty commands
      then s
      else if not (world.is_open s)
      then s
      else send_commands (world.waiting s) commands

  unfoldable pub cancel : Dialect → SimpleCore F → Bool → SimpleCore F × Result {0} Unit
  unfolding resolve_pending send_safety_shutdown from_transport
  cancel dialect s emergency =
      let resolved =
        resolve_pending F
          (record s { is_cancelled = true; job_running = false; is_holding = false }) in
      let flagged = record resolved { line_buffer = [] } in
      if not (world.is_open flagged)
      then (flagged, not_connected F)
      else (let reset = world.writing (hand_over F flagged (24 ∷ [])) in
          elim (world.write flagged (24 ∷ [])) [
            | some error ↦ (reset, Result.err (from_transport error))
            | none ↦
                let safe = send_safety_shutdown dialect reset emergency in
                (if s.job_running then emit F safe Event.job_finished else safe, Result.ok tt)
          ])

  unfoldable pub set_status : SimpleCore F → DeviceStatus → SimpleCore F
  unfolding status_equal
  set_status s desired =
      if status_equal s.state.status desired
      then s
      else let changed = record (s.state) { status = desired } in
        emit F (record s { state = changed }) (Event.state_changed changed)

  unfoldable pub set_hold : SimpleCore F → Bool → SimpleCore F × Result {0} Unit
  unfolding send_realtime set_status
  set_hold s hold =
      let asked = record s {
        is_holding = hold;
        is_cancelled = if s.job_running then s.is_cancelled else false;
      } in
      let (sent, result) = send_realtime F world asked (if hold then codes "!" else codes "~") in
      elim result [
        | Result.err error ↦ (sent, Result.err error)
        | Result.ok done ↦
            let desired =
              if hold
              then DeviceStatus.hold
              else if sent.job_running
              then DeviceStatus.run
              else DeviceStatus.idle in
            (set_status sent desired, Result.ok tt)
      ]
