-- ===== src/InteractiveCli/Newest.antt =====
-- The history keeps the newest invocations, at most the limit of them, and its file holds them.
use tz_oss_interop.Prelude.{
  ℕ, suc, some, List, [], ◌∷◌, ◌++◌, leb, length, length-append, ◌≡◌, refl, sym, ap, ◌∙◌, ◌≤◌,
  arith, append-nil, append_assoc, Bool-cases, inl, inr,
}
use tz_oss_interop.Errors.{Result}
use tz_oss_interop.InteractiveCli.History.{
  history_limit, Invocation, take_last, History, save_history, record_invocation, record_each,
}

module _ {ℓ} {A : Type ℓ} where
  length-take_last : (n : ℕ) (xs : List A) → length (take_last n xs) ≤ n
  unfolding take_last
  length-take_last n [] = omega arith
  length-take_last n (x ∷ xs) = elim (Bool-cases (leb (suc (length xs)) n)) [
    | inl small ↦ ground arith
    | inr big ↦ ground (arith, length-take_last n xs)
  ]

  take_last-short : (n : ℕ) (xs : List A) → length xs ≤ n → take_last n xs ≡ xs
  unfolding take_last
  take_last-short n [] h = refl
  take_last-short n (x ∷ xs) h = ground arith

  take_last-append :
      (n : ℕ) (xs : List A) (y : A)
      → take_last n (take_last n xs ++ y ∷ []) ≡ take_last n (xs ++ y ∷ [])
  unfolding take_last
  take_last-append n [] y = refl
  take_last-append n (x ∷ xs) y = elim (Bool-cases (leb (suc (length xs)) n)) [
    | inl small ↦ ground arith
    | inr big ↦ ground (arith, take_last-append n xs y, length-append xs (y ∷ []))
  ]

module _ {Content : Type 0} (dumps : List Invocation → Content)
    (loads : Content → Result (List Invocation)) where
  invocations-record_invocation :
      (history : History Content) (entry : Invocation)
      → (record_invocation dumps loads history entry).invocations
        ≡ take_last history_limit (history.invocations ++ entry ∷ [])
  unfolding record_invocation save_history
  invocations-record_invocation history entry =
      ground (arith, take_last-short history_limit (history.invocations ++ entry ∷ []))

  invocations-record_each :
      (before : List Invocation) (history : History Content) (entries : List Invocation)
      → history.invocations ≡ take_last history_limit before
      → (record_each dumps loads history entries).invocations
        ≡ take_last history_limit (before ++ entries)
  unfolding record_each
  invocations-record_each before history [] held =
      held ∙ ap (take_last history_limit) (sym (append-nil before))
  invocations-record_each before history (entry ∷ entries) held =
      invocations-record_each (before ++ entry ∷ []) (record_invocation dumps loads history entry)
        entries
        (invocations-record_invocation history entry
          ∙ ap (λ h. take_last history_limit (h ++ entry ∷ [])) held
          ∙ take_last-append history_limit before entry)
      ∙ ap (take_last history_limit) (append_assoc before (entry ∷ []) entries)

  -- The file of a history holds its invocations.
  IsSaved : History Content → Type 0
  IsSaved history = history.file ≡ some (dumps history.invocations)

  record_each-IsSaved :
      (history : History Content) (entries : List Invocation)
      → IsSaved history
      → IsSaved (record_each dumps loads history entries)
  unfolding record_each
  record_each-IsSaved history [] saved = saved
  record_each-IsSaved history (entry ∷ entries) saved =
      record_each-IsSaved (record_invocation dumps loads history entry) entries
        (unfold IsSaved record_invocation save_history in refl)

  -- After a session of one invocation or more, the history holds the newest of what it held before and
  -- of the session's invocations, in order: the last thirty, or all where there are fewer. Its file
  -- then holds what is written of that list.
  pub record_each_lem :
      (history : History Content) (entry : Invocation) (entries : List Invocation)
      → ((record_each dumps loads history (entry ∷ entries)).invocations
          ≡ take_last history_limit (history.invocations ++ entry ∷ entries))
        × (length (record_each dumps loads history (entry ∷ entries)).invocations ≤ history_limit)
        × ((record_each dumps loads history (entry ∷ entries)).file
            ≡ some (dumps (take_last history_limit (history.invocations ++ entry ∷ entries))))
  unfolding record_each IsSaved
  record_each_lem history entry entries =
      let saved =
        record_each-IsSaved (record_invocation dumps loads history entry) entries
          (unfold IsSaved record_invocation save_history in refl) in
      let newest =
        invocations-record_each (history.invocations ++ entry ∷ [])
          (record_invocation dumps loads history entry) entries
          (invocations-record_invocation history entry)
        ∙ ap (take_last history_limit) (append_assoc history.invocations (entry ∷ []) entries) in
      (
        newest,
        ground (
          arith,
          newest,
          length-take_last history_limit (history.invocations ++ entry ∷ entries),
        ),
        saved ∙ ap (λ held. some (dumps held)) newest,
      )
