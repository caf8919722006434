-- ===== src/Device/Equal.antt =====
-- src/core/types.rs: the derived `PartialEq` of `DeviceState`, which compares the coordinates as
-- `f64` values are compared.
use raydriver.Base.{Bool, true, false, ◌&&◌, List, [], ◌∷◌, Option, none, some, ◌==◌}
use raydriver.Base.Int.{ℤ, pos, negsuc}
use raydriver.Device.{F64, DeviceStatus, TransportStatus, DeviceError, DeviceState}
use raydriver.Device.Status.{name, transport_name}
use raydriver.Text.Affix.{equal}

-- Statuses differ exactly as their names do.
unfoldable pub status_equal : DeviceStatus → DeviceStatus → Bool
unfolding name equal
status_equal a b = equal (name a) (name b)

unfoldable pub transport_equal : TransportStatus → TransportStatus → Bool
unfolding transport_name equal
transport_equal a b = equal (transport_name a) (transport_name b)

unfoldable pub int_equal : ℤ → ℤ → Bool
int_equal (pos a) (pos b) = a == b
int_equal (negsuc a) (negsuc b) = a == b
int_equal _ _ = false

unfoldable pub option_equal {ℓ} : {A : Type ℓ} → (A → A → Bool) → Option A → Option A → Bool
option_equal same none none = true
option_equal same (some a) (some b) = same a b
option_equal same _ _ = false

unfoldable pub list_equal {ℓ} : {A : Type ℓ} → (A → A → Bool) → List A → List A → Bool
list_equal same [] [] = true
list_equal same (a ∷ as') (b ∷ bs') = same a b && list_equal same as' bs'
list_equal same _ _ = false

unfoldable pub error_equal : DeviceError → DeviceError → Bool
unfolding int_equal equal
error_equal a b =
    int_equal a.code b.code && equal a.title b.title && equal a.description b.description

unfoldable pub state_equal : (F : F64) → DeviceState F → DeviceState F → Bool
unfolding status_equal option_equal list_equal error_equal int_equal
state_equal F a b =
    status_equal a.status b.status
    && option_equal error_equal a.error b.error
    && list_equal (option_equal F.equals) a.machine_pos b.machine_pos
    && list_equal (option_equal F.equals) a.work_pos b.work_pos
    && list_equal (option_equal F.equals) a.wco b.wco
    && option_equal int_equal a.feed_rate b.feed_rate
    && option_equal int_equal a.spindle_speed b.spindle_speed
    && option_equal int_equal a.buffer_available b.buffer_available
    && option_equal int_equal a.buffer_rx_available b.buffer_rx_available
