-- ===== src/Smoothie/Tests.antt =====
-- src/smoothie/session.rs: an exchange that times out, with the theorem at it.
use raydriver.Base.{◌≡◌, refl, true, false, List, [], ◌∷◌, none}
use raydriver.Device.Sample.{whole_numbers, comma_engine}
use raydriver.Session.{SessionError, Result}
use raydriver.Smoothie.{SmoothieCore, new}
use raydriver.Smoothie.Exchange.{World, end_exchange, ping_pong}
use raydriver.Smoothie.Exchange.Late.{IsIdle, ping_pong-late}
use raydriver.Smoothie.Receive.{handle_lines}
use raydriver.Text.Utf8.{Text, codes}

abbrev idle : SmoothieCore whole_numbers
idle = new whole_numbers (record { poll_status_while_running = false })

-- A device that does not answer in time.
abbrev slow : World whole_numbers
slow = record { is_open = λ s. true; write = λ s payload. none; writing = λ s. s; waiting = λ s. s }

abbrev late_answer : List Text
late_answer = codes "[GC:G0]" ∷ codes "ok" ∷ []

time_out : (ping_pong whole_numbers slow idle (codes "$G")).1 ≡ Result.err SessionError.timeout
unfolding ping_pong end_exchange new
time_out = refl

ping_pong-late_example :
    let t = (ping_pong whole_numbers slow idle (codes "$G")).0 in
    IsIdle t.commands (handle_lines whole_numbers comma_engine t late_answer)
ping_pong-late_example = ping_pong-late comma_engine slow idle (codes "$G") late_answer refl
