-- ===== src/Grbl/Errors/ErrorTable.antt =====
-- src/grbl/errors.rs: the table of error codes.
use raydriver.Base.{List, [], ◌∷◌}
use raydriver.Grbl.Errors.Arms.{Arm, arm}

-- The arms of `grbl_error_for_code`, in order.
unfoldable pub error_arms : List Arm
error_arms =
    arm 1 1 "Missing Command Letter"
      "G-code commands need a letter followed by a value. The command letter was not found."
    ∷ arm 2 2 "Invalid Number Format"
        "The value is missing or not in the correct numeric format. Check your G-code syntax."
    ∷ arm 3 3 "Unknown Command"
        "This Grbl setting command is not recognized or supported. Check the command syntax."
    ∷ arm 4 4 "Negative Value"
        "A positive number is required here, but a negative value was received."
    ∷ arm 5 5 "Homing Disabled"
        "Homing is not enabled in settings. Enable homing ($22=1) to use this feature."
    ∷ arm 6 6 "Pulse Time Too Short"
        "Minimum step pulse time must be greater than 3 microseconds. Check setting $0."
    ∷ arm 7 7 "Memory Error"
        "Settings reset to defaults due to a memory read failure. Reconfigure your settings if needed."
    ∷ arm 8 8 "Machine Busy"
        "This command can only be used when the machine is idle. Wait for the current job to finish."
    ∷ arm 9 9 "Commands Locked"
        "Cannot send commands while in alarm or jog mode. Clear the alarm state first."
    ∷ arm 10 10 "Homing Required"
        "Soft limits cannot be enabled without homing also enabled. Enable homing first ($22=1)."
    ∷ arm 11 11 "Line Too Long"
        "The command line has too many characters and was ignored. Check your file formatting."
    ∷ arm 12 12 "Setting Too High"
        "This setting exceeds the maximum step rate supported. Use a lower value."
    ∷ arm 13 13 "Door Open"
        "The safety door was detected as open. Close the door and resume operation."
    ∷ arm 14 14 "Line Too Long"
        "Build info or startup line exceeds storage limit. Shorten the line."
    ∷ arm 15 15 "Target Out of Range"
        "Jog target is beyond the machine's travel limits. Move to a position within range."
    ∷ arm 16 16 "Invalid Jog Command"
        "Jog command is missing '=' or contains prohibited G-code. Check the jog syntax."
    ∷ arm 17 17 "Laser Mode Error"
        "Laser mode requires PWM output to work. Check your hardware configuration."
    ∷ arm 18 18 "Spindle Not Running"
        "A motion command was issued but the spindle is not running. Start the spindle before motion."
    ∷ arm 19 19 "Spindle Speed Mismatch"
        "The current spindle speed does not match the speed required by the command. Wait for the spindle to reach the target speed."
    ∷ arm 20 20 "Unsupported Command"
        "This G-code command is not supported by the machine. Check your post-processor settings."
    ∷ arm 21 21 "Conflicting Commands"
        "Multiple commands from the same group found on one line. Remove the duplicate command."
    ∷ arm 22 22 "Feed Rate Missing"
        "Set a feed rate before using motion commands. Add an F command to specify speed."
    ∷ arm 23 23 "Integer Required"
        "This command requires a whole number value. Remove any decimal points."
    ∷ arm 24 24 "Axis Conflict"
        "Multiple commands trying to use the same axis. Simplify the command."
    ∷ arm 25 25 "Duplicate Word"
        "The same G-code word appears more than once. Remove the duplicate."
    ∷ arm 26 26 "Missing Axis"
        "This command requires XYZ axis coordinates. Add the missing axis values."
    ∷ arm 27 27 "Line Number Out of Range"
        "Line number must be between 1 and 9,999,999. Use a valid line number."
    ∷ arm 28 28 "Missing Value" "This command requires a P or L value. Add the missing parameter."
    ∷ arm 29 29 "Unsupported Coordinate"
        "Only G54-G59 coordinate systems are supported. Use one of these instead."
    ∷ arm 30 30 "Wrong Motion Mode"
        "G53 command requires G0 or G1 motion mode. Set the correct motion mode first."
    ∷ arm 31 31 "Unused Axis Words"
        "Axis words present but G80 cancel is active. Remove the unused axis words."
    ∷ arm 32 32 "Missing Arc Data"
        "G2/G3 arc command needs XYZ coordinates. Add the axis values for the selected plane."
    ∷ arm 33 33 "Invalid Target"
        "Cannot create this arc or probe to current position. Check the target coordinates."
    ∷ arm 34 34 "Arc Geometry Error"
        "Arc calculation failed. Try breaking the arc into smaller pieces or use IJK offset instead."
    ∷ arm 35 35 "Missing Arc Offset"
        "G2/G3 arc command needs IJK offset values. Add the missing offset for the selected plane."
    ∷ arm 36 36 "Unused Words"
        "Some G-code words in this line are not used by any command. Remove the unused words."
    ∷ arm 37 37 "Wrong Axis for Offset"
        "Tool length offset only works on the configured axis (usually Z-axis). Check your settings."
    ∷ arm 38 38 "Tool Number Too High"
        "Tool number exceeds the maximum supported value. Use a valid tool number."
    ∷ []
