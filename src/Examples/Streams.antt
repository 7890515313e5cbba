-- ===== src/Examples/Streams.antt =====
-- Tests and cases for the consumer of a stream.
use tg_forwarder.Prelude.{Bool, true, false, List, [], ◌∷◌, ◌≡◌, refl, All, not, is_empty}
use tg_forwarder.Host.{Text, codes}
use tg_forwarder.Streams.{Entry, Phase, Seen, run, fresh}
use tg_forwarder.Streams.Kept.{In, Answered, run-Answered}
use tg_forwarder.Streams.Batch.{awaits, run-batch}

-- The decoder takes every payload that is not empty.
abbrev decodes : Text → Bool
decodes payload = not (is_empty payload)

abbrev first_entry : Entry
first_entry = record { redis_id = codes "1-0"; payload = codes "hello" }

abbrev poison : Entry
poison = record { redis_id = codes "1-1"; payload = [] }

abbrev third_entry : Entry
third_entry = record { redis_id = codes "1-2"; payload = codes "bye" }

abbrev read_entries : List Entry
read_entries = first_entry ∷ poison ∷ third_entry ∷ []

-- The first entry is handled at the second call; then Redis raises at the acknowledgement of the
-- second, and the stop event is set during the handling of the third, which is read again.
abbrev troubled : List Seen
troubled =
    Seen.entries read_entries false
    ∷ Seen.failed false
    ∷ Seen.answered false
    ∷ Seen.answered false
    ∷ Seen.answered false
    ∷ Seen.failed false
    ∷ Seen.entries (poison ∷ third_entry ∷ []) false
    ∷ Seen.answered false
    ∷ Seen.answered false
    ∷ Seen.answered true
    ∷ []

stopped_after_third : run decodes troubled fresh ≡ record {
  phase = Phase.finished;
  handled = first_entry ∷ third_entry ∷ [];
  acked = first_entry ∷ poison ∷ [];
  deleted = first_entry ∷ poison ∷ [];
}
unfolding run
stopped_after_third = refl

run-Answered_example :
    All (Answered decodes (run decodes troubled fresh).handled) (run decodes troubled fresh).acked
    × All (In (run decodes troubled fresh).acked) (run decodes troubled fresh).deleted
run-Answered_example = run-Answered decodes troubled

run-batch_example :
    run decodes (Seen.entries read_entries false ∷ awaits decodes (λ e. 2) read_entries) fresh
    ≡ record {
      phase = Phase.reading;
      handled = first_entry ∷ third_entry ∷ [];
      acked = read_entries;
      deleted = read_entries;
    }
run-batch_example = run-batch decodes (λ e. 2) read_entries
