-- ===== src/Streams.antt =====
-- app/messaging/redis_streams.py, `_consume`: the loop that reads entries of a stream, hands them
-- to the handler, and acknowledges and deletes them. Redis, the decoder and the handler are
-- outside: a `Seen` is what the consumer learns when the await it is in is over. The pauses of two
-- seconds after an exception, in which the stop event may be set, belong to the `Seen` before them.
pub mod Kept
pub mod Batch
use tg_forwarder.Prelude.{Bool, true, false, List, [], ◌∷◌, ◌++◌, if◌then◌else◌}
use tg_forwarder.Host.{Text}

-- One of `entries`: `redis_id` and `fields["payload"]`.
pub record Entry : Type 0 where
  pub redis_id : Text
  pub payload : Text

-- The await the consumer is in, with the entries of the `for` loop that come after.
pub data Phase : Type 0 where
  reading : Phase
  handling : Entry → List Entry → Phase
  acking : Entry → List Entry → Phase
  deleting : Entry → List Entry → Phase
  finished : Phase

-- How an await ends, and whether the stop event is set when it is looked at next. `failed` is an
-- exception, `cancelled` is `asyncio.CancelledError`.
pub data Seen : Type 0 where
  entries : List Entry → Bool → Seen
  answered : Bool → Seen
  failed : Bool → Seen
  cancelled : Seen

-- The consumer, and the entries whose handler returned, those acknowledged and those deleted.
pub record Consumer : Type 0 where
  pub phase : Phase
  pub handled : List Entry
  pub acked : List Entry
  pub deleted : List Entry

abbrev pub to : Phase → Consumer → Consumer
to phase c = record c { phase = phase }

-- `while not stop_event.is_set()`.
unfoldable pub look : Bool → Phase
look true = Phase.finished
look false = Phase.reading

-- An entry that decodes is handed to the handler, unless the stop event is set; one that does not
-- is acknowledged.
unfoldable pub take_up : Bool → Bool → Entry → List Entry → Phase
take_up true true e rest = Phase.finished
take_up true false e rest = Phase.handling e rest
take_up false stop e rest = Phase.acking e rest

-- The next turn of `for redis_id, fields in entries`. `decodes` says which payloads the decoder
-- takes.
unfoldable pub next_entry : (Text → Bool) → Bool → List Entry → Phase
unfolding look take_up
next_entry decodes stop [] = look stop
next_entry decodes stop (e ∷ rest) = take_up (decodes e.payload) stop e rest

-- The turns of the loops, by the await and how it ends. An exception of Redis leaves the `for`
-- loop; an exception of the handler does not.
unfoldable pub consume : (Text → Bool) → Phase → Seen → Consumer → Consumer
unfolding look next_entry
consume decodes finished seen c = c
consume decodes reading (entries es stop) c = to (next_entry decodes stop es) c
consume decodes reading (answered stop) c = to (look stop) c
consume decodes reading (failed stop) c = to (look stop) c
consume decodes reading cancelled c = to Phase.finished c
consume decodes (handling e rest) (entries es stop) c = c
consume decodes (handling e rest) (answered true) c = record c {
  phase = Phase.finished;
  handled = c.handled ++ e ∷ [];
}
consume decodes (handling e rest) (answered false) c = record c {
  phase = Phase.acking e rest;
  handled = c.handled ++ e ∷ [];
}
consume decodes (handling e rest) (failed true) c = to Phase.finished c
consume decodes (handling e rest) (failed false) c = to (Phase.handling e rest) c
consume decodes (handling e rest) cancelled c = to Phase.finished c
consume decodes (acking e rest) (entries es stop) c = c
consume decodes (acking e rest) (answered stop) c = record c {
  phase = Phase.deleting e rest;
  acked = c.acked ++ e ∷ [];
}
consume decodes (acking e rest) (failed stop) c = to (look stop) c
consume decodes (acking e rest) cancelled c = to Phase.finished c
consume decodes (deleting e rest) (entries es stop) c = c
consume decodes (deleting e rest) (answered stop) c = record c {
  phase = next_entry decodes stop rest;
  deleted = c.deleted ++ e ∷ [];
}
consume decodes (deleting e rest) (failed stop) c = to (look stop) c
consume decodes (deleting e rest) cancelled c = to Phase.finished c

unfoldable pub run : (Text → Bool) → List Seen → Consumer → Consumer
unfolding consume
run decodes [] c = c
run decodes (seen ∷ more) c = run decodes more (consume decodes c.phase seen c)

-- The consumer at its start: the group exists, and the stop event is not set.
abbrev pub fresh : Consumer
fresh = record { phase = Phase.reading; handled = []; acked = []; deleted = [] }
