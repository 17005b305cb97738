-- ===== src/InteractiveCli/History.antt =====
-- interop/adapters/inbound/interactive_cli/history.py. The content of the history file is of any
-- type that JSON's `dumps` gives and its `loads` takes, arguments as the clock's times are, and `none`
-- where the file does not exist; the object that wraps the list of invocations belongs to them.
use tz_oss_interop.Prelude.{
  ℕ, suc, Option, none, some, List, [], ◌∷◌, ◌++◌, if◌then◌else◌, leb, ltb, length, nat_beq,
}
use tz_oss_interop.Prelude.Text.{Text}
use tz_oss_interop.Errors.{Result, ok, ◌>>=◌}
use tz_oss_interop.Spec.{Params}

abbrev pub history_limit : ℕ
history_limit = 30

pub record Invocation : Type 0 where
  pub command : Text
  pub timestamp : Text
  pub details : Option Params

-- `xs[-n:]` for a positive `n`: the last `n` of a list, or all of a shorter one.
unfoldable pub take_last {ℓ} : {A : Type ℓ} → ℕ → List A → List A
take_last n [] = []
take_last n (x ∷ xs) = let rest = take_last n xs in if leb (suc (length xs)) n then x ∷ xs else rest

unfoldable pub reverse_onto {ℓ} : {A : Type ℓ} → List A → List A → List A
reverse_onto [] done = done
reverse_onto (x ∷ xs) done = reverse_onto xs (x ∷ done)

-- `History`, with the file at its path.
pub record History (Content : Type 0) : Type 0 where
  pub invocations : List Invocation
  pub file : Option Content

module _ {Content : Type 0} (dumps : List Invocation → Content)
    (loads : Content → Result (List Invocation)) where
  -- `History.load`
  unfoldable pub load_history : Option Content → Result (History Content)
  load_history none = ok (record { invocations = []; file = none })
  load_history (some content) = loads content >>= λ invocations.
      ok (record { invocations = invocations; file = some content })

  -- `History.save`
  unfoldable pub save_history : History Content → History Content
  save_history history = record history { file = some (dumps history.invocations) }

  -- `History.record`, of an entry with the time of the clock.
  unfoldable pub record_invocation : History Content → Invocation → History Content
  record_invocation history entry =
      let appended = history.invocations ++ entry ∷ [] in
      save_history (record history {
        invocations =
            if ltb history_limit (length appended)
            then take_last history_limit appended
            else appended;
      })

  -- A session: invocations recorded one after the other.
  unfoldable pub record_each : History Content → List Invocation → History Content
  record_each history [] = history
  record_each history (entry ∷ entries) = record_each (record_invocation history entry) entries

-- `History.recent`: the newest first. A limit of zero takes the whole list, as `xs[-0:]` does.
unfoldable pub recent : {Content : Type 0} → ℕ → History Content → List Invocation
recent limit history =
    if nat_beq limit 0
    then reverse_onto history.invocations []
    else reverse_onto (take_last limit history.invocations) []
