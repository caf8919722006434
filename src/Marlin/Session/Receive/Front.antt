-- ===== src/Marlin/Session/Receive/Front.antt =====
-- src/marlin/session.rs: a change of the command at the front of the queue.
use raydriver.Base.{length, length-modify}
use raydriver.Base.{
  ℕ, ◌≡◌, refl, ap, ◌∙◌, sym, Bool, true, false, ◌||◌, List, [], ◌∷◌, Option, none, some,
  if◌then◌else◌, if_true, if_false, arith, get_elem?, modify, modify-none, modify-same,
  modify-identity,
}
use raydriver.Device.{F64}
use raydriver.Marlin.Parser.{is_ok, is_error}
use raydriver.Marlin.Session.{PendingCmd, add_line, finish, MarlinCore, mutate}
use raydriver.Marlin.Session.Receive.{
  with_last_line, change_found, change_front, collect_for_pending, finish_pending,
}
use raydriver.Text.Unicode.{Unicode}
use raydriver.Text.Utf8.{Text}

-- What a line does to the command that it reaches: an acknowledgement or an error is its last line.
unfoldable pub hear : Unicode → Text → PendingCmd → PendingCmd
unfolding is_ok is_error
hear unicode line p =
    if p.finished
    then p
    else if is_ok unicode line || is_error line
    then finish (add_line line p)
    else add_line line p

unfoldable pub hear_all : Unicode → List Text → PendingCmd → PendingCmd
unfolding hear
hear_all unicode [] p = p
hear_all unicode (line ∷ rest) p = hear_all unicode rest (hear unicode line p)

abbrev pub unless_finished : (PendingCmd → PendingCmd) → PendingCmd → PendingCmd
unless_finished change p = if p.finished then p else change p

module _ {F : F64} where
  -- The front of the queue of `s` was changed, and nothing else of the commands, on the way to `t`.
  pub record Changes (s : MarlinCore F) (change : PendingCmd → PendingCmd) (t : MarlinCore F)
      : Type 0 where
    pub commands_are :
        (i : ℕ) (later : List ℕ)
        → s.pending_queue ≡ i ∷ later
        → t.commands ≡ modify i change s.commands
    pub queue_is : t.pending_queue ≡ s.pending_queue
    pub count_is : length t.commands ≡ length s.commands

  -- A step that leaves the queue and the commands alone.
  pub record Leaves (s t : MarlinCore F) : Type 0 where
    pub commands_are : t.commands ≡ s.commands
    pub queue_is : t.pending_queue ≡ s.pending_queue

  pub Leaves-if :
      {s x y : MarlinCore F} (b : Bool) → Leaves s x → Leaves s y → Leaves s (if b then x else y)
  Leaves-if true h k = h
  Leaves-if false h k = k

  pub Changes-if :
      {s x y : MarlinCore F} {f g : PendingCmd → PendingCmd} (b : Bool)
      → Changes s f x
      → Changes s g y
      → Changes s (if b then f else g) (if b then x else y)
  Changes-if true h k = h
  Changes-if false h k = k

  pub Changes-then :
      {s t u : MarlinCore F} {change : PendingCmd → PendingCmd}
      → Changes s change t
      → Leaves t u
      → Changes s change u
  Changes-then h k = record {
    commands_are = λ i later e. k.commands_are ∙ h.commands_are i later e;
    queue_is = k.queue_is ∙ h.queue_is;
    count_is = ap length k.commands_are ∙ h.count_is;
  }

  pub Changes-behind :
      {s t u : MarlinCore F} {change : PendingCmd → PendingCmd}
      → Leaves s t
      → Changes t change u
      → Changes s change u
  Changes-behind {change = change} h k = record {
    commands_are =
        λ i later e. k.commands_are i later (h.queue_is ∙ e) ∙ ap (modify i change) h.commands_are;
    queue_is = k.queue_is ∙ h.queue_is;
    count_is = k.count_is ∙ ap length h.commands_are;
  }

  open_changes :
      (s : MarlinCore F) (i : ℕ) (p : PendingCmd) (change : PendingCmd → PendingCmd) (b : Bool)
      → p.finished ≡ b
      → get_elem? s.commands i ≡ some p
      → (if b then s else mutate F s i change).commands
        ≡ modify i (unless_finished change) s.commands
  open_changes s i p change true d e = sym (
      modify-same i (unless_finished change) (λ x. x) s.commands p e
        (if_true p.finished p (change p) d)
      ∙ modify-identity i s.commands)
  open_changes s i p change false d e = sym (
      modify-same i (unless_finished change) change s.commands p e
        (if_false p.finished p (change p) d))

  found_changes :
      (s : MarlinCore F) (i : ℕ) (found : Option PendingCmd) (change : PendingCmd → PendingCmd)
      → get_elem? s.commands i ≡ found
      → (change_found F s i found change).commands ≡ modify i (unless_finished change) s.commands
  found_changes s i none change e = sym (modify-none i _ s.commands e)
  found_changes s i (some p) change e = open_changes s i p change p.finished refl e

  found_queue :
      (s : MarlinCore F) (i : ℕ) (found : Option PendingCmd) (change : PendingCmd → PendingCmd)
      → (change_found F s i found change).pending_queue ≡ s.pending_queue
  found_queue s i none change = refl
  found_queue s i (some p) change = queue_if p.finished
    where
      queue_if : (b : Bool) → (if b then s else mutate F s i change).pending_queue ≡ s.pending_queue
      queue_if true = refl
      queue_if false = refl

  change_front-Changes :
      (s : MarlinCore F) (queue : List ℕ) (change : PendingCmd → PendingCmd)
      → s.pending_queue ≡ queue
      → Changes s (unless_finished change) (change_front F s queue change)
  unfolding change_front
  change_front-Changes s [] change e = record {
    commands_are = λ i later d. cc (e, d);
    queue_is = refl;
    count_is = refl;
  }
  change_front-Changes s (j ∷ rest) change e = record {
    commands_are = λ i later d.
        let same : j ≡ i = ground (arith, e, d) in
        rw⁻¹ same (found_changes s j (get_elem? s.commands j) change refl);
    queue_is = found_queue s j (get_elem? s.commands j) change;
    count_is =
        ap length (found_changes s j (get_elem? s.commands j) change refl)
        ∙ length-modify j (unless_finished change) s.commands;
  }

  pub finish_pending-Changes :
      (s : MarlinCore F) (line : Text)
      → Changes s (unless_finished (λ p. finish (add_line line p))) (finish_pending F s (some line))
  unfolding finish_pending
  finish_pending-Changes s line =
      change_front-Changes s s.pending_queue (λ p. finish (with_last_line F (some line) p)) refl

  pub collect_for_pending-Changes :
      (s : MarlinCore F) (line : Text)
      → Changes s (unless_finished (add_line line)) (collect_for_pending F s line)
  unfolding collect_for_pending
  collect_for_pending-Changes s line = change_front-Changes s s.pending_queue (add_line line) refl
