-- ===== src/ApiLog/Buffer.antt =====
-- No row is lost, doubled or reordered on its way through the buffer, and the branch that sheds the
-- oldest row is never taken.
use nexcore_x_ui.Prelude.{
  ◌<◌, ◌≡◌, refl, sym, ◌∙◌, ap, List, [], ◌∷◌, ◌++◌, arith, leb, ◌==◌, length, Bool-cases, inl, inr,
}
use mathlib.Core.List.{append_assoc, append-nil}
use nexcore_x_ui.ApiLog.{
  Entry, LogBuffer, new_log_buffer, flush_threshold, shed, hand_over, flush, Event, logged, ticked,
  step, run,
}

-- The rows logged by the events.
abbrev pub entries : List Event → List Entry
entries [] = []
entries (logged e ∷ es) = e ∷ entries es
entries (ticked ∷ es) = entries es

abbrev entry_of : Event → List Entry
entry_of (logged e) = e ∷ []
entry_of ticked = []

hand_over-rows :
    (b : LogBuffer) (q : List Entry)
    → ((hand_over b q).handed ++ (hand_over b q).queue ≡ b.handed ++ q)
      × (length (hand_over b q).queue < flush_threshold)
hand_over-rows b q = elim (Bool-cases (leb flush_threshold (length q))) [
  | inl full ↦ rw full (append-nil _, omega arith)
  | inr room ↦ rw room (refl, ground arith)
]

shed_lem : (q : List Entry) → length q < flush_threshold → shed q ≡ q
shed_lem q h = ground arith

step-rows :
    (b : LogBuffer) (e : Event)
    → length b.queue < flush_threshold
    → ((step b e).handed ++ (step b e).queue ≡ (b.handed ++ b.queue) ++ entry_of e)
      × (length (step b e).queue < flush_threshold)
unfolding step
step-rows b (logged e) h =
    let (rows, short) = hand_over-rows b (shed b.queue ++ e ∷ []) in
    (
      rows
          ∙ ap (λ (q : List Entry). b.handed ++ (q ++ e ∷ [])) (shed_lem b.queue h)
          ∙ sym (append_assoc b.handed b.queue (e ∷ [])),
      short,
    )
step-rows b ticked h = elim (Bool-cases (length b.queue == 0)) [
  | inl empty ↦ rw (empty, flush) (sym (append-nil _), h)
  | inr rows ↦ rw (rows, flush) (append-nil _ ∙ sym (append-nil _), omega arith)
]

run-rows :
    (b : LogBuffer) (es : List Event)
    → length b.queue < flush_threshold
    → ((run b es).handed ++ (run b es).queue ≡ (b.handed ++ b.queue) ++ entries es)
      × (length (run b es).queue < flush_threshold)
unfolding run
run-rows b [] h = (sym (append-nil _), h)
run-rows b (e ∷ es) h =
    let (rows, short) = step-rows b e h in
    let (rest, still) = run-rows (step b e) es short in
    (
      rest
          ∙ ap (λ (q : List Entry). q ++ entries es) rows
          ∙ entries-cons (b.handed ++ b.queue) e es,
      still,
    )
  where
    entries-cons :
        (q : List Entry) (e : Event) (es : List Event)
        → (q ++ entry_of e) ++ entries es ≡ q ++ entries (e ∷ es)
    entries-cons q (logged e) es = append_assoc q (e ∷ []) (entries es)
    entries-cons q ticked es = ap (λ (r : List Entry). r ++ entries es) (append-nil q)

-- From a new buffer, over any requests and ticks: the rows handed to the database followed by the rows
-- still queued are the rows logged, in order, and the queue stays below the flush threshold.
pub buffer_conserves :
    (es : List Event)
    → ((run new_log_buffer es).handed ++ (run new_log_buffer es).queue ≡ entries es)
      × (length (run new_log_buffer es).queue < flush_threshold)
unfolding new_log_buffer
buffer_conserves es = run-rows new_log_buffer es (omega arith)
