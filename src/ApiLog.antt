-- ===== src/ApiLog.antt =====
-- web/service/apilog.go: the buffer of request-log rows between the requests and the database. A batch
-- that `add` or the ticker takes out of the queue is handed to `write`, so the state keeps the rows
-- handed over so far, in order, beside the queue.
pub mod Buffer
pub mod Purge
pub mod Purged
use nexcore_x_ui.Prelude.{
  ℕ, ◌-◌, ◌+◌, Bool, true, false, List, [], ◌∷◌, ◌++◌, leb, ltb, ◌==◌, if◌then◌else◌, length, drop,
}

-- A row, by a number that names it.
abbrev pub Entry : Type 0
Entry = ℕ

abbrev pub flush_threshold : ℕ
flush_threshold = 200

abbrev pub buffer_cap : ℕ
buffer_cap = 5000

pub record LogBuffer : Type 0 where
  pub queue : List Entry
  pub handed : List Entry

unfoldable pub new_log_buffer : LogBuffer
new_log_buffer = record { queue = []; handed = [] }

-- `b.queue = b.queue[1:]` when the queue is at the hard cap.
abbrev pub shed : List Entry → List Entry
shed q = if leb buffer_cap (length q) then drop 1 q else q

abbrev pub hand_over : LogBuffer → List Entry → LogBuffer
hand_over b q =
    if leb flush_threshold (length q)
    then record { queue = []; handed = b.handed ++ q }
    else record { queue = q; handed = b.handed }

unfoldable pub add : LogBuffer → Entry → LogBuffer
add b e = hand_over b (shed b.queue ++ e ∷ [])

-- One tick of startFlusher.
unfoldable pub flush : LogBuffer → LogBuffer
flush b = if length b.queue == 0 then b else record { queue = []; handed = b.handed ++ b.queue }

-- What happens to the buffer: a request is logged, or the ticker fires.
pub data Event : Type 0 where
  logged : Entry → Event
  ticked : Event

unfoldable pub step : LogBuffer → Event → LogBuffer
unfolding add flush
step b (logged e) = add b e
step b ticked = flush b

unfoldable pub run : LogBuffer → List Event → LogBuffer
unfolding step
run b [] = b
run b (e ∷ es) = run (step b e) es
