-- ===== src/Smoothie/Connection.antt =====
-- src/smoothie/session.rs: connecting and cleaning up. The loops end by what the other tasks do or by the
-- clock, so each takes the list of the passes that it makes: `none` says that it still runs after
-- these. Tasks that are aborted take no step of the model any more.
use raydriver.Base.{
  Bool, true, false, not, ◌&&◌, ◌||◌, List, [], ◌∷◌, Option, none, some, if◌then◌else◌,
}
use raydriver.Device.{F64, TransportStatus}
use raydriver.Smoothie.{SmoothieCore, emit, hand_over, update_connection_status}
use raydriver.Smoothie.Exchange.{World}
use raydriver.Smoothie.Receive.{resolve_pending}
use raydriver.Grbl.Simple.Connection.{transport_error_text}
use raydriver.Session.{TransportError, Event}
use raydriver.Text.Utf8.{Text, codes}

module _ (F : F64) where
  -- `closing` happens while the tasks end and the transport closes.
  unfoldable pub cleanup : (SmoothieCore F → SmoothieCore F) → SmoothieCore F → SmoothieCore F
  unfolding resolve_pending
  cleanup closing s =
      let resolved = resolve_pending F (record s { keep_running = false; job_running = false }) in
      update_connection_status F (closing resolved) TransportStatus.disconnected none

  -- Up to the spawn of the connection loop.
  unfoldable pub connect : (SmoothieCore F → SmoothieCore F) → SmoothieCore F → SmoothieCore F
  unfolding cleanup
  connect closing s = record (cleanup closing s) { keep_running = true }

  module _ (world : World F) where
    -- A `?` that is sent, and the wait behind it, at whose end the deadline is past or not.
    unfoldable pub await_handshake : List Bool → SmoothieCore F → SmoothieCore F × Option Bool
    await_handshake [] s = (s, none)
    await_handshake (past_deadline ∷ rest) s =
        let told = emit F s (Event.raw_tx (codes "?")) in
        let written = world.writing (hand_over F told (codes "?")) in
        let waited = world.waiting written in
        elim (world.write told (codes "?")) [
          | some error ↦ (written, some false)
          | none ↦ elim waited.handshake_received [
            | true ↦ (waited, some true)
            | false ↦ elim past_deadline [
              | true ↦ (waited, some false)
              | false ↦ await_handshake rest waited
            ]
          ]
        ]

    -- One pass of the poll loop, under the task lock: whether the loop goes on, behind its sleep.
    unfoldable pub poll_status : SmoothieCore F → SmoothieCore F × Bool
    poll_status s =
        let locked = world.waiting s in
        let told = emit F locked (Event.raw_tx (codes "?")) in
        let written = world.writing (hand_over F told (codes "?")) in
        if not (s.config.poll_status_while_running || not s.job_running)
        then (world.waiting s, true)
        else if not (world.is_open locked)
        then (world.waiting locked, true)
        else elim (world.write told (codes "?")) [
          | some error ↦ (written, false)
          | none ↦ (world.waiting written, true)
        ]

    -- The passes are counted by the list; whether the loop still runs after them.
    unfoldable pub status_poll_loop : List {0} Unit → SmoothieCore F → SmoothieCore F × Bool
    unfolding poll_status
    status_poll_loop [] s = (s, true)
    status_poll_loop (pass ∷ rest) s =
        let (polled, goes_on) = poll_status s in
        elim (world.is_open s && s.keep_running) [
          | false ↦ (s, false)
          | true ↦ elim goes_on [ true ↦ status_poll_loop rest polled | false ↦ (polled, false) ]
        ]

    -- A connection whose transport is open: the device answers a poll within the deadline, or the
    -- port is taken for a phantom. `polls` are those up to then, `passes` those of the poll loop;
    -- `none` says that the device is still awaited.
    unfoldable pub serve : List Bool → List {0} Unit → SmoothieCore F → Option (SmoothieCore F)
    unfolding await_handshake status_poll_loop
    serve polls passes s =
        let (waited, answered) = await_handshake polls s in
        let told = update_connection_status F waited TransportStatus.connected none in
        elim answered [
          | none ↦ none
          | some ready ↦ elim ready [
            | true ↦ some (status_poll_loop passes told).0
            | false ↦ some (
                update_connection_status F waited TransportStatus.error
                  (some (codes "No response from device")))
          ]
        ]

    -- One pass of the connection loop up to the sleep before the next: whether the loop goes on.
    -- `opened` is what opening the transport gave.
    unfoldable pub connect_once :
        Option TransportError
        → List Bool
        → List {0} Unit
        → SmoothieCore F
        → Option (SmoothieCore F × Bool)
    unfolding transport_error_text serve
    connect_once opened polls passes s =
        let cleared = world.waiting (record s { handshake_received = false }) in
        let failed : Text → SmoothieCore F =
          λ message. update_connection_status F cleared TransportStatus.error (some message) in
        let served = elim opened as (λ _. Option (SmoothieCore F)) [
          | some error ↦ some (failed (transport_error_text error))
          | none ↦ elim (serve polls passes cleared) [
            | none ↦ none
            | some ended ↦ some (record (world.waiting ended) { line_buffer = [] })
          ]
        ] in
        elim served [
          | none ↦ none
          | some t ↦ some (
              if not t.keep_running
              then (t, false)
              else (update_connection_status F t TransportStatus.sleeping none, true))
        ]
