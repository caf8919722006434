-- ===== src/Grbl/Session/Stream/Order.antt =====
-- src/grbl/session.rs: which commands a streaming job writes.
use raydriver.Base.{
  ℕ, ◌+◌, ◌≡◌, refl, ◌∙◌, inl, inr, Bool, true, false, ◌||◌, List, [], ◌∷◌, ◌++◌, Option, none,
  some, if◌then◌else◌, Option-cases, ++_assoc, is_some, length,
}
use raydriver.Base.Int.{ℤ}
use raydriver.Device.{F64}
use raydriver.Grbl.Session.{SessionCore}
use raydriver.Grbl.Session.Job.{Transport}
use raydriver.Grbl.Session.Stall.{Meanwhile, is_alarmed, on_buffer_stall}
use raydriver.Grbl.Session.Stream.{
  Payload, Phase, line_payload, Stream, must_stop, take_line_from, take_line, write_line,
  after_line, stall_line, Step, takes, sends, stalls, returns, receives, others, Reach, start, next,
  begin,
}
use raydriver.Text.Regex.{Regex}
use raydriver.Text.Utf8.{Bytes, Text}

-- The command that a phase has taken and not written.
abbrev pub taken : Phase → List Payload
taken Phase.at_line = []
taken (Phase.waits p) = p ∷ []
taken Phase.wrote = []
taken (Phase.gave_up p) = p ∷ []
taken Phase.over = []

module _ (F : F64) (re : Regex) (op_map : ℕ → Option ℤ) where
  abbrev with_op : ℕ → Option Bytes → List Payload
  with_op i none = []
  with_op i (some bytes) = (bytes, op_map i) ∷ []

  -- The commands of a job's lines from index `i` on: the lines with code, each with the operation
  -- that the index of its line belongs to.
  abbrev pub commands : ℕ → List Text → List Payload
  commands i [] = []
  commands i (raw_line ∷ more) = with_op i (line_payload re raw_line) ++ commands (i + 1) more

  -- What was written, what was taken, and what is still to come.
  abbrev pub all_commands : Stream F → List Payload
  all_commands σ = σ.written ++ (taken σ.phase ++ commands σ.line_idx σ.rest)

  record SameCommands (σ τ : Stream F) : Type 0 where
    same : all_commands τ ≡ all_commands σ

  branch-SameCommands :
      {σ τ υ : Stream F} (b : Bool)
      → SameCommands σ τ
      → SameCommands σ υ
      → SameCommands σ (if b then τ else υ)
  branch-SameCommands true p q = p
  branch-SameCommands false p q = q

  take_line_from-SameCommands :
      (σ : Stream F) (lines : List Text)
      → σ.rest ≡ lines
      → σ.phase ≡ Phase.at_line
      → SameCommands σ (take_line_from F re op_map σ lines)
  unfolding take_line_from
  take_line_from-SameCommands σ [] e p = record { same = rw p refl }
  take_line_from-SameCommands σ (raw_line ∷ more) e p =
      branch-SameCommands (must_stop F σ.core) (record { same = rw p refl })
        (elim (Option-cases (line_payload re raw_line)) [
          | inl n ↦ rw n (record { same = rw (p, e, n) refl })
          | inr (bytes, n) ↦ rw n (record { same = rw (p, e, n) refl })
        ])

  write_line-SameCommands :
      (σ : Stream F) (payload : Payload)
      → σ.phase ≡ Phase.waits payload
      → SameCommands σ (write_line F re op_map σ payload)
  unfolding write_line
  write_line-SameCommands σ (bytes, op_index) p = record {
    same = rw p (++_assoc σ.written ((bytes, op_index) ∷ []) (commands σ.line_idx σ.rest));
  }

  after_line-SameCommands :
      (σ : Stream F) → σ.phase ≡ Phase.wrote → SameCommands σ (after_line F re op_map σ)
  unfolding after_line
  after_line-SameCommands σ p =
      branch-SameCommands (is_some σ.core.job_exception || is_alarmed F σ.core)
        (record { same = rw p refl }) (record { same = rw p refl })

  stall_line-SameCommands :
      (transport : Transport) (env : Meanwhile F) (σ : Stream F) (payload : Payload)
      → σ.phase ≡ Phase.waits payload
      → SameCommands σ (stall_line F re op_map transport env σ payload)
  unfolding stall_line
  stall_line-SameCommands transport env σ (bytes, op_index) p =
      branch-SameCommands (on_buffer_stall F transport env σ.core (length bytes)).1
        (record { same = refl }) (record { same = rw p refl })

  Step-SameCommands : {σ τ : Stream F} → Step F re op_map σ τ → SameCommands σ τ
  unfolding take_line
  Step-SameCommands (takes σ p) = take_line_from-SameCommands σ σ.rest refl p
  Step-SameCommands (sends σ payload p room) = write_line-SameCommands σ payload p
  Step-SameCommands (stalls σ transport env payload p full) =
      stall_line-SameCommands transport env σ payload p
  Step-SameCommands (returns σ p) = after_line-SameCommands σ p
  Step-SameCommands (receives σ find_ok input) = record { same = refl }
  Step-SameCommands (others σ core) = record { same = refl }

  Reach-SameCommands : {σ τ : Stream F} → Reach F re op_map σ τ → SameCommands σ τ
  Reach-SameCommands start = record { same = refl }
  Reach-SameCommands (next r st) = record {
    same = (Step-SameCommands st).same ∙ (Reach-SameCommands r).same;
  }

  -- However a streaming job interleaves with reads, stalls and whatever the other tasks do: what it
  -- has written, what it has taken and the commands of the lines to come are the commands of the
  -- job. None is lost, repeated or out of order, and each has the operation of its line.
  pub Reach-in_order :
      (core : SessionCore F) (lines : List Text) (σ : Stream F)
      → Reach F re op_map (begin F re op_map core lines) σ
      → σ.written ++ (taken σ.phase ++ commands σ.line_idx σ.rest) ≡ commands 0 lines
  Reach-in_order core lines σ r = (Reach-SameCommands r).same
