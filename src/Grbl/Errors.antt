-- ===== src/Grbl/Errors.antt =====
-- src/grbl/errors.rs: from the code in a reply to a `DeviceError`.
pub mod Arms
pub mod ErrorTable
pub mod AlarmTable
pub mod Codes
use Prim.Native.String.{String}
use raydriver.Base.{Option, none, some}
use raydriver.Base.Int.{ℤ, pos, negsuc}
use raydriver.Device.{DeviceError}
use raydriver.Flow.{unwrap_or}
use raydriver.Grbl.Errors.AlarmTable.{alarm_arms}
use raydriver.Grbl.Errors.Arms.{match_code}
use raydriver.Grbl.Errors.ErrorTable.{error_arms}
use raydriver.Text.Number.{parse_i32}
use raydriver.Text.Utf8.{Text, codes}

unfoldable pub grbl_error_for_code : ℤ → Option DeviceError
unfolding match_code error_arms
grbl_error_for_code = match_code error_arms

unfoldable pub grbl_alarm_for_code : ℤ → Option DeviceError
unfolding match_code alarm_arms
grbl_alarm_for_code = match_code alarm_arms

abbrev pub device_error : ℤ → String → String → DeviceError
device_error code title description = record {
  code = code;
  title = codes title;
  description = codes description;
}

unfoldable pub error_code_to_device_error : Text → DeviceError
unfolding grbl_error_for_code parse_i32
error_code_to_device_error text = elim (parse_i32 text) [
  | none ↦ device_error (negsuc 0) "Unknown Error" "Invalid error code reported by machine."
  | some code ↦
      unwrap_or
        (device_error code "Unknown Error"
          "The machine reported an unrecognized error code. Check your machine and firmware documentation.")
        (grbl_error_for_code code)
]

unfoldable pub alarm_code_to_device_error : Text → DeviceError
unfolding grbl_alarm_for_code parse_i32
alarm_code_to_device_error text = elim (parse_i32 text) [
  | none ↦ device_error (negsuc 0) "Unknown Alarm" "Invalid alarm code reported by machine."
  | some code ↦
      unwrap_or
        (device_error code "Unknown Alarm"
          "The machine reported an unrecognized alarm code. Check your machine and firmware documentation.")
        (grbl_alarm_for_code code)
]
