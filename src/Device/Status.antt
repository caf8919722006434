-- ===== src/Device/Status.antt =====
-- src/core/types.rs: names of statuses.
use raydriver.Base.{ℕ, ◌≡◌, refl, [], ◌∷◌, arith, if◌then◌else◌}
use raydriver.Device.{DeviceStatus, TransportStatus}
use raydriver.Text.Affix.{ascii_upper, upper_char, equal}
use raydriver.Text.Utf8.{Text, codes}

-- `match` on the upper-case name.
unfoldable pub status_of_upper : Text → DeviceStatus
unfolding equal
status_of_upper name =
    if equal name (codes "IDLE")
    then DeviceStatus.idle
    else if equal name (codes "RUN")
    then DeviceStatus.run
    else if equal name (codes "HOLD")
    then DeviceStatus.hold
    else if equal name (codes "JOG")
    then DeviceStatus.jog
    else if equal name (codes "ALARM")
    then DeviceStatus.alarm
    else if equal name (codes "DOOR")
    then DeviceStatus.door
    else if equal name (codes "CHECK")
    then DeviceStatus.check
    else if equal name (codes "HOME")
    then DeviceStatus.home
    else if equal name (codes "SLEEP")
    then DeviceStatus.sleep
    else if equal name (codes "TOOL")
    then DeviceStatus.tool
    else if equal name (codes "QUEUE")
    then DeviceStatus.queue
    else if equal name (codes "LOCK")
    then DeviceStatus.lock
    else if equal name (codes "UNLOCK")
    then DeviceStatus.unlock
    else if equal name (codes "CYCLE")
    then DeviceStatus.cycle
    else if equal name (codes "TEST")
    then DeviceStatus.test
    else DeviceStatus.unknown

unfoldable pub from_name : Text → DeviceStatus
unfolding status_of_upper ascii_upper
from_name name = status_of_upper (ascii_upper name)

unfoldable pub name : DeviceStatus → Text
name DeviceStatus.unknown = codes "Unknown"
name DeviceStatus.idle = codes "Idle"
name DeviceStatus.run = codes "Run"
name DeviceStatus.hold = codes "Hold"
name DeviceStatus.jog = codes "Jog"
name DeviceStatus.alarm = codes "Alarm"
name DeviceStatus.door = codes "Door"
name DeviceStatus.check = codes "Check"
name DeviceStatus.home = codes "Home"
name DeviceStatus.sleep = codes "Sleep"
name DeviceStatus.tool = codes "Tool"
name DeviceStatus.queue = codes "Queue"
name DeviceStatus.lock = codes "Lock"
name DeviceStatus.unlock = codes "Unlock"
name DeviceStatus.cycle = codes "Cycle"
name DeviceStatus.test = codes "Test"

unfoldable pub transport_name : TransportStatus → Text
transport_name TransportStatus.unknown = codes "UNKNOWN"
transport_name TransportStatus.idle = codes "IDLE"
transport_name TransportStatus.connecting = codes "CONNECTING"
transport_name TransportStatus.connected = codes "CONNECTED"
transport_name TransportStatus.error = codes "ERROR"
transport_name TransportStatus.closing = codes "CLOSING"
transport_name TransportStatus.disconnected = codes "DISCONNECTED"
transport_name TransportStatus.sleeping = codes "SLEEPING"

-- Every status is read back from its name.
pub from_name-name : (s : DeviceStatus) → from_name (name s) ≡ s
unfolding from_name name
from_name-name DeviceStatus.unknown = refl
from_name-name DeviceStatus.idle = refl
from_name-name DeviceStatus.run = refl
from_name-name DeviceStatus.hold = refl
from_name-name DeviceStatus.jog = refl
from_name-name DeviceStatus.alarm = refl
from_name-name DeviceStatus.door = refl
from_name-name DeviceStatus.check = refl
from_name-name DeviceStatus.home = refl
from_name-name DeviceStatus.sleep = refl
from_name-name DeviceStatus.tool = refl
from_name-name DeviceStatus.queue = refl
from_name-name DeviceStatus.lock = refl
from_name-name DeviceStatus.unlock = refl
from_name-name DeviceStatus.cycle = refl
from_name-name DeviceStatus.test = refl

-- Case does not matter: what `from_name` reads in a text it reads in its upper-case form.
upper_char_idem : (c : ℕ) → upper_char (upper_char c) ≡ upper_char c
unfolding upper_char
upper_char_idem c = ground arith

ascii_upper_idem : (t : Text) → ascii_upper (ascii_upper t) ≡ ascii_upper t
unfolding ascii_upper
ascii_upper_idem [] = refl
ascii_upper_idem (c ∷ t) = cc (upper_char_idem c, ascii_upper_idem t)

pub from_name-ascii_upper : (t : Text) → from_name (ascii_upper t) ≡ from_name t
unfolding from_name
from_name-ascii_upper t = rw (ascii_upper_idem t)
