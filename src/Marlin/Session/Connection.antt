-- ===== src/Marlin/Session/Connection.antt =====
-- src/marlin/session.rs: connecting and cleaning up. The loops end by what the other tasks do or by
-- the clock, so each takes the list of the passes that it makes. Tasks that are aborted take no step
-- of the model any more.
use raydriver.Base.{Bool, true, false, not, ◌||◌, List, [], ◌∷◌, Option, none, some, if◌then◌else◌}
use raydriver.Device.{F64, TransportStatus}
use raydriver.Grbl.Simple.Connection.{transport_error_text}
use raydriver.Marlin.Session.{MarlinCore, update_connection_status}
use raydriver.Marlin.Session.Exchange.{World, enqueue_and_wait}
use raydriver.Marlin.Session.Receive.{resolve_pending}
use raydriver.Session.{TransportError, Result}
use raydriver.Text.Utf8.{codes}

module _ (F : F64) where
  -- `closing` happens while the tasks end and the transport closes.
  unfoldable pub cleanup : (MarlinCore F → MarlinCore F) → MarlinCore F → MarlinCore F
  unfolding resolve_pending
  cleanup closing s =
      let resolved = resolve_pending F (record s { keep_running = false; job_running = false }) in
      update_connection_status F (closing resolved) TransportStatus.disconnected none

  -- Up to the spawn of the connection loop.
  unfoldable pub connect : (MarlinCore F → MarlinCore F) → MarlinCore F → MarlinCore F
  unfolding cleanup
  connect closing s = record (cleanup closing s) { keep_running = true }

  module _ (world : World F) where
    -- Up to the first line of the device, or to the deadline.
    unfoldable pub await_handshake : MarlinCore F → MarlinCore F × Bool
    await_handshake s = let waited = world.waiting s in (waited, waited.handshake_received)

    -- One pass of the poll loop, behind its sleep: whether the loop goes on.
    unfoldable pub poll_position : MarlinCore F → MarlinCore F × Bool
    unfolding enqueue_and_wait
    poll_position slept =
        let (polled, result) = enqueue_and_wait F world slept (codes "M114") false in
        if not (world.is_open slept) || not slept.keep_running
        then (slept, false)
        else if slept.config.poll_status_while_running || not slept.job_running
        then elim result [ Result.ok lines ↦ (polled, true) | Result.err error ↦ (polled, false) ]
        else (slept, true)

    -- The passes are counted by the list; whether the loop still runs after them.
    unfoldable pub position_poll_loop : List {0} Unit → MarlinCore F → MarlinCore F × Bool
    unfolding poll_position
    position_poll_loop [] s = (s, true)
    position_poll_loop (pass ∷ rest) s =
        let (polled, goes_on) = poll_position (world.waiting s) in
        elim goes_on [ true ↦ position_poll_loop rest polled | false ↦ (polled, false) ]

    -- A connection whose transport is open: the device announces itself within the deadline, or the
    -- port is taken for a phantom. `passes` are those of the poll loop.
    unfoldable pub serve : List {0} Unit → MarlinCore F → MarlinCore F
    unfolding await_handshake position_poll_loop
    serve passes s =
        let (waited, announced) = await_handshake s in
        let settled = record (world.waiting waited) { connected = true } in
        if announced
        then (position_poll_loop passes
            (update_connection_status F settled TransportStatus.connected none)).0
        else update_connection_status F waited TransportStatus.error
            (some (codes "No response from device"))

    -- One pass of the connection loop up to the sleep before the next: whether the loop goes on.
    -- `opened` is what opening the transport gave.
    unfoldable pub connect_once :
        Option TransportError → List {0} Unit → MarlinCore F → MarlinCore F × Bool
    unfolding transport_error_text serve
    connect_once opened passes s =
        let cleared = world.waiting (record s { handshake_received = false }) in
        let served = elim opened as (λ _. MarlinCore F) [
          | some error ↦
              update_connection_status F cleared TransportStatus.error
                (some (transport_error_text error))
          | none ↦ record (world.waiting (serve passes cleared)) { line_buffer = [] }
        ] in
        if not served.keep_running
        then (served, false)
        else (update_connection_status F served TransportStatus.sleeping none, true)
