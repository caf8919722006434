-- ===== src/Grbl/Simple/Connection.antt =====
-- src/grbl/simple.rs: connecting and cleaning up. The loops end by what the other tasks do or by the
-- clock, so each takes the list of the passes that it makes: `none` says that it still runs after
-- these. Tasks that are aborted take no step of the model any more.
use raydriver.Base.{
  Bool, true, false, not, ◌&&◌, ◌||◌, List, [], ◌∷◌, Option, none, some, if◌then◌else◌,
}
use raydriver.Device.{F64, TransportStatus}
use raydriver.Grbl.Simple.{SimpleCore, emit, hand_over, update_connection_status}
use raydriver.Grbl.Simple.Exchange.{World}
use raydriver.Grbl.Simple.Receive.{resolve_pending}
use raydriver.Session.{TransportError, Event}
use raydriver.Text.Utf8.{Text, codes}

-- `Display` of `TransportError`.
unfoldable pub transport_error_text : TransportError → Text
transport_error_text (TransportError.connection message) = message
transport_error_text TransportError.not_connected = codes "not connected"

module _ (F : F64) where
  -- `closing` happens while the tasks end and the transport closes.
  unfoldable pub cleanup : (SimpleCore F → SimpleCore F) → SimpleCore F → SimpleCore F
  unfolding resolve_pending
  cleanup closing s =
      let resolved = resolve_pending F (record s { keep_running = false; job_running = false }) in
      update_connection_status F (closing resolved) TransportStatus.disconnected none

  -- Up to the spawn of the connection loop.
  unfoldable pub connect : (SimpleCore F → SimpleCore F) → SimpleCore F → SimpleCore F
  unfolding cleanup
  connect closing s = record (cleanup closing s) { keep_running = true }

  module _ (world : World F) where
    -- A `?` that is sent, and the wait behind it, at whose end the deadline is past or not.
    unfoldable pub await_handshake : List Bool → SimpleCore F → SimpleCore F × Option Bool
    await_handshake [] s = (s, none)
    await_handshake (past_deadline ∷ rest) s =
        let told = emit F s (Event.raw_tx (codes "?")) in
        let written = world.writing (hand_over F told (codes "?")) in
        let waited = world.waiting written in
        elim (world.write told (codes "?")) [
          | some error ↦ (written, some false)
          | none ↦ elim waited.handshake_received [
            | true ↦ (waited, some true)
            | false ↦ elim past_deadline [
              | true ↦ (waited, some false)
              | false ↦ await_handshake rest waited
            ]
          ]
        ]

    -- One pass of the poll loop, under the task lock: whether the loop goes on, behind its sleep.
    unfoldable pub poll_status : SimpleCore F → SimpleCore F × Bool
    poll_status s =
        let locked = world.waiting s in
        let told = emit F locked (Event.raw_tx (codes "?")) in
        let written = world.writing (hand_over F told (codes "?")) in
        if not (s.config.poll_status_while_running || not s.job_running)
        then (world.waiting s, true)
        else if not (world.is_open locked)
        then (world.waiting locked, true)
        else elim (world.write told (codes "?")) [
          | some error ↦ (written, false)
          | none ↦ (world.waiting written, true)
        ]

    -- The passes are counted by the list; whether the loop still runs after them.
    unfoldable pub status_poll_loop : List {0} Unit → SimpleCore F → SimpleCore F × Bool
    unfolding poll_status
    status_poll_loop [] s = (s, true)
    status_poll_loop (pass ∷ rest) s =
        let (polled, goes_on) = poll_status s in
        elim (world.is_open s && s.keep_running) [
          | false ↦ (s, false)
          | true ↦ elim goes_on [ true ↦ status_poll_loop rest polled | false ↦ (polled, false) ]
        ]

    -- A connection whose transport is open. `polls` are those up to the handshake, `passes` those of
    -- the poll loop; `none` says that the handshake is still awaited.
    unfoldable pub serve : List Bool → List {0} Unit → SimpleCore F → Option (SimpleCore F)
    unfolding await_handshake status_poll_loop
    serve polls passes s =
        let told = update_connection_status F s TransportStatus.connected none in
        let (waited, answered) = await_handshake polls told in
        elim answered [
          | none ↦ none
          | some ready ↦ elim ready [
            | true ↦ some (status_poll_loop passes waited).0
            | false ↦ some waited
          ]
        ]

    -- One pass of the connection loop up to the sleep before the next: whether the loop goes on.
    -- `opened` is what opening the transport gave.
    unfoldable pub connect_once :
        Option TransportError
        → List Bool
        → List {0} Unit
        → SimpleCore F
        → Option (SimpleCore F × Bool)
    unfolding transport_error_text serve
    connect_once opened polls passes s =
        let cleared = world.waiting (record s { handshake_received = false }) in
        let failed : Text → SimpleCore F =
          λ message. update_connection_status F cleared TransportStatus.error (some message) in
        let served = elim opened as (λ _. Option (SimpleCore F)) [
          | some error ↦ some (failed (transport_error_text error))
          | none ↦ elim (serve polls passes cleared) [
            | none ↦ none
            | some ended ↦ some (record (world.waiting ended) { line_buffer = [] })
          ]
        ] in
        elim served [
          | none ↦ none
          | some t ↦ some (
              if not t.keep_running
              then (t, false)
              else (update_connection_status F t TransportStatus.sleeping none, true))
        ]
