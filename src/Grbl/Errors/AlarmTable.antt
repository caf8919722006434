-- ===== src/Grbl/Errors/AlarmTable.antt =====
-- src/grbl/errors.rs: the table of alarm codes.
use raydriver.Base.{List, [], ◌∷◌}
use raydriver.Grbl.Errors.Arms.{Arm, arm}

-- The arms of `grbl_alarm_for_code`, in order.
unfoldable pub alarm_arms : List Arm
alarm_arms =
    arm 1 1 "Hard Limit"
      "A hard limit switch was triggered. The machine has stopped and needs to be reset. Check for obstructions and verify your limit switches."
    ∷ arm 2 2 "Soft Limit"
        "The machine would move beyond its configured travel limits. Check that your work area and coordinate offsets are correct."
    ∷ arm 3 3 "Abort Cycle"
        "The currently running job was cancelled while in motion. Reset the machine to continue."
    ∷ arm 4 4 "Probe Fail — Initial"
        "The probe did not make contact before the maximum travel distance was reached. Check the probe wiring and positioning."
    ∷ arm 5 5 "Probe Fail — Final"
        "The probe failed to retract to the target position after contact. Check the probe configuration."
    ∷ arm 6 6 "Homing Fail — Reset"
        "Homing was not able to complete because the machine is in an alarm state. Clear the alarm and try again."
    ∷ arm 7 7 "Homing Fail — Approach"
        "The homing cycle failed to find the switch within the configured travel distance. Check your switch wiring and pull-off settings."
    ∷ arm 8 8 "Homing Fail — Pulloff"
        "The homing cycle failed to successfully pull off the switch after contact. Increase the pull-off distance or check the switch."
    ∷ arm 9 9 "Home Without Limits"
        "Homing was commanded but limit switches are not configured. Enable limit switches first."
    ∷ arm 10 10 "Homing Fail — Dual Axis"
        "Homing failed on a dual-axis configuration. One or both axes did not reach their limit switches. Check your limit switch wiring and configuration."
    ∷ []
