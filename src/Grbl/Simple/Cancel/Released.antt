-- ===== src/Grbl/Simple/Cancel/Released.antt =====
-- src/grbl/simple.rs: a cancellation releases the command that is waited for, and what the safety
-- shutdown hands to the transport.
use raydriver.Base.{
  ◌≡◌, refl, ap, ◌∙◌, sym, ℕ, inl, inr, Bool, true, false, not, Bool-cases, List, [], ◌∷◌, ◌++◌,
  ++_assoc, ++_nil, Option, some, Option-cases, if◌then◌else◌, is_empty, map, get_elem?,
  get_elem?-modify,
}
use raydriver.Device.{F64}
use raydriver.Dialect.{Dialect}
use raydriver.Grbl.Session.Cancel.{shutdown_commands}
use raydriver.Grbl.Simple.{PendingCmd, finish, SimpleCore, emit, hand_over}
use raydriver.Session.{Event}
use raydriver.Grbl.Simple.Exchange.{World}
use raydriver.Grbl.Simple.Receive.{resolve_slot, resolve_pending}
use raydriver.Grbl.Simple.Cancel.Others.{
  IsShared, IsReleased, IsReleased-if, IsReleased-same, Others-IsReleased,
}
use raydriver.Text.Regex.{Regex}
use raydriver.Grbl.Simple.Cancel.{send_commands, send_safety_shutdown, cancel}
use raydriver.Text.Utf8.{Bytes, Text, as_bytes}

-- A command with its line end.
unfoldable pub payload_of : Text → Bytes
unfolding as_bytes
payload_of command = as_bytes (command ++ b'\n' ∷ [])

module _ {F : F64} (world : World F) where
  -- The transport is open and only this task writes.
  pub record IsAlone : Type 0 where
    pub is_open : (s : SimpleCore F) → world.is_open s ≡ true
    pub writing : (s : SimpleCore F) → (world.writing s).transport ≡ s.transport
    pub waiting : (s : SimpleCore F) → (world.waiting s).transport ≡ s.transport

  module _ (alone : IsAlone) where
    send_commands-transport :
        (commands : List Text) (s : SimpleCore F)
        → (send_commands F world s commands).transport ≡ s.transport ++ map payload_of commands
    unfolding send_commands payload_of
    send_commands-transport [] s = sym (++_nil s.transport)
    send_commands-transport (command ∷ rest) s =
        let handed = hand_over F s (as_bytes (command ++ b'\n' ∷ [])) in
        rw (alone.is_open s) (
          send_commands-transport rest (world.writing handed)
          ∙ ap (λ l. l ++ map payload_of rest) (alone.writing handed)
          ∙ ++_assoc s.transport (payload_of command ∷ []) (map payload_of rest))

    -- Over an open transport the shutdown hands over every safety command of the dialect in order,
    -- in an emergency its emergency stop behind them, whether the writes succeed or not.
    pub send_safety_shutdown-transport :
        (dialect : Dialect) (s : SimpleCore F) (emergency : Bool)
        → (send_safety_shutdown F world dialect s emergency).transport
          ≡ s.transport ++ map payload_of (shutdown_commands F dialect emergency)
    unfolding send_safety_shutdown
    send_safety_shutdown-transport dialect s emergency = go (shutdown_commands F dialect emergency)
      where
        go :
            (commands : List Text)
            → (if is_empty commands
                then s
                else if not (world.is_open s)
                then s
                else send_commands F world (world.waiting s) commands).transport
              ≡ s.transport ++ map payload_of commands
        go [] = sym (++_nil s.transport)
        go (command ∷ rest) = rw (alone.is_open s) (
            send_commands-transport (command ∷ rest) (world.waiting s)
            ∙ ap (λ l. l ++ map payload_of (command ∷ rest)) (alone.waiting s))

module _ {F : F64} (re : Regex) (world : World F) (shared : IsShared re world) (i : ℕ)
    (p : PendingCmd) where
  written-IsReleased :
      (s : SimpleCore F) (payload : Bytes)
      → IsReleased i p s
      → IsReleased i p (world.writing (hand_over F s payload))
  written-IsReleased s payload h =
      Others-IsReleased i p re (shared.writing (hand_over F s payload))
        (IsReleased-same i p s (hand_over F s payload) refl refl refl h)

  send_commands-IsReleased :
      (commands : List Text) (s : SimpleCore F)
      → IsReleased i p s
      → IsReleased i p (send_commands F world s commands)
  unfolding send_commands
  send_commands-IsReleased [] s h = h
  send_commands-IsReleased (command ∷ rest) s h =
      let payload = as_bytes (command ++ b'\n' ∷ []) in
      IsReleased-if i p (not (world.is_open s)) h (
        send_commands-IsReleased rest (world.writing (hand_over F s payload))
          (written-IsReleased s payload h))

  shutdown-IsReleased :
      (dialect : Dialect) (s : SimpleCore F) (emergency : Bool)
      → IsReleased i p s
      → IsReleased i p (send_safety_shutdown F world dialect s emergency)
  unfolding send_safety_shutdown
  shutdown-IsReleased dialect s emergency h =
      let commands = shutdown_commands F dialect emergency in
      IsReleased-if i p (is_empty commands) h (
        IsReleased-if i p (not (world.is_open s)) h (
          send_commands-IsReleased commands (world.waiting s)
            (Others-IsReleased i p re (shared.waiting s) h)))

  IsReleased-slot :
      (s : SimpleCore F) (slot : Option ℕ)
      → slot ≡ some i
      → get_elem? s.commands i ≡ some p
      → IsReleased i p
          (record (resolve_slot F
            (record s { is_cancelled = true; job_running = false; is_holding = false })
            slot) { line_buffer = [] })
  IsReleased-slot s slot e object = rw e (record {
    object = get_elem?-modify i finish s.commands object;
    slot = λ d. cc;
    no_job = refl;
  })

  -- A cancellation finishes the command that is waited for, with the lines that it has, and takes it
  -- out of the slot, on every path, that of a closed transport and that of a failed write included.
  -- Whatever the other tasks read, begin and end while it writes and waits, the command stays so, and
  -- no job is running as long as none of them starts one.
  pub cancel-IsReleased :
      (dialect : Dialect) (s : SimpleCore F) (emergency : Bool)
      → s.pending ≡ some i
      → get_elem? s.commands i ≡ some p
      → IsReleased i p (cancel F world dialect s emergency).0
  unfolding cancel resolve_pending
  cancel-IsReleased dialect s emergency slot object =
      let flagged =
        record (resolve_pending F
          (record s { is_cancelled = true; job_running = false; is_holding = false })) {
            line_buffer = [];
          } in
      let released = IsReleased-slot s s.pending slot object in
      let reset = written-IsReleased flagged (24 ∷ []) released in
      let safe =
        send_safety_shutdown F world dialect (world.writing (hand_over F flagged (24 ∷ [])))
          emergency in
      let safe_is = shutdown-IsReleased dialect _ emergency reset in
      elim (Bool-cases (world.is_open flagged)) [
        | inr e ↦ rw e released
        | inl e ↦ elim (Option-cases (world.write flagged (24 ∷ []))) [
          | inr (error, d) ↦ rw (e, d) reset
          | inl d ↦
              rw (e, d)
                (IsReleased-if i p s.job_running
                  (IsReleased-same i p safe (emit F safe Event.job_finished) refl refl refl safe_is)
                  safe_is)
        ]
      ]
