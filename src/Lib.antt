-- ===== src/Lib.antt =====
-- TG-forwarder: messages of Telegram, SafeW and API sources are taken in, pass a pipeline of
-- processors and a rule engine, are reviewed where their source asks for it, and are published to
-- the targets of the source. This library models the parts of the Python code (app/) that decide
-- what is published, when and how often. Each definition keeps the name of the function, method
-- or column that it stands for; the comments name the file.
--
-- Parts, files and sources:
--   Prelude, Host, Message, Processed: shared lists, results and chat ids; what the code uses of
--     the Python runtime (`str`, `re`), as the parameter `Host`; app/schemas/message.py and
--     channel.py; the rows of `processed_messages` and their writes and lookups
--     (app/database/repositories/message_repo.py). `Backends` is app/source_backends.py.
--   Rules: app/rules. `Rules.Matcher` is matcher.py, `Rules.Engine` engine.py.
--   Review: app/review/state_machine.py and service.py. A method is a function from the rows of
--     `review_tasks`, `content_revisions` and `review_actions` to its result and the new rows, or
--     to the exception; `Review.Calls` puts calls one after the other, and rolls back those that
--     raise. `claim_for_publish` is one conditional update. The calls of `Review.Calls` follow one
--     another: none reads before another commits and writes after. The service has no lock against
--     that; `Review.Drafts` has the reads and the flush of edits and restores apart, `Review.Moves`
--     those of transitions, and `Review.Overlaps` lets calls commit between them. Other calls that
--     overlap, such as two of `reapply_rules`, are not modelled.
--   Channels, Publish: the cache of app/services/channel_service.py and app/review/publish.py. A
--     `World` gives the routing tables at each read, which may differ from read to read or raise,
--     and what the publisher, the media service and the delivery queue answer. `Publishing` has
--     the calls that other users make of the review service meanwhile. `Publish.Bindings` reads
--     the resolved destinations against the rows of sources, links and targets.
--   Registry: the other half of app/services/channel_service.py, with
--     app/database/repositories/channel_repo.py: sources, targets and their links are created,
--     changed and deleted. `load_from_db` gives the tables that `Channels` reads. `Registry.Runs`
--     has the operations on links in any order; one that raises is rolled back. The order of the
--     rows in `set_target_sources`, whose query has no ORDER BY, is a parameter.
--   Messages: app/services/message_service.py. `Messages.Claim` and `Messages.Process` are
--     `process_one`, `Messages.Publish` is `_publish`, `Messages.Enqueue` has `enqueue` and the
--     worker loop, and `Messages.Recover` has `recover_pending` and `retry_failed`; their parent
--     has the routing and the failures. A method is a function from the state (the rows, the
--     sends and the last error) to the new state. `Surroundings` gives what each read of the
--     routing, the media service, the pipeline, the publisher and the delivery queue answer, and
--     what other tasks write between two transactions (`meanwhile`). `Messages.Runs` has the
--     operations of a service in any order.
--   Processors, Text: app/processors (pipeline, keyword filter, text replacement, footer) and
--     `truncate_text` of app/utils/text.py. A processor may raise; its exception ends the run of
--     the pipeline and leaves `process_one`.
--   Ingest: app/services/ingest_service.py; `Step` is one committed transaction of a web worker,
--     and lists of steps stand for every interleaving of workers.
--   Deliveries: the queue of app/services/api_delivery_service.py.
--   Albums: app/listeners/album_collector.py; an event is a part that comes or a timer that
--     fires.
--   RateLimit: app/auth/rate_limit.py.
--   Retry: app/services/retry_service.py and the loops publish of the publishers under
--     app/publishers, with as much fuel as attempts are allowed.
--   Streams: the consumer loop of app/messaging/redis_streams.py, as a machine; a `Seen` is how
--     one of its awaits ends, and a list of them is a run.
--   Examples: tests, and a case of each theorem.
--
-- Bounds and fuel: the search loop of `find_matches` runs on a fuel of the length of the text
-- plus two, one more than its turns. `accept` makes 21 attempts, as the code does. The pages of a
-- client are pulled on a fuel of the caller. `recover_pending` reads at most 200 rows, as the
-- code does. Numbers of the program are Python integers without a bound; ids, times and positions
-- are natural numbers, chat ids and the priorities of rules are signed. In `ends_with` rules the
-- start of the hit is `len(text) - len(pattern)`, which stops at 0 here where lower case makes the
-- text longer than itself.
--
-- Not modelled: the history and processing logs and the clean-up of files of the message service,
-- stored payloads of older versions (a stored payload is the message that was written), and the
-- waiting of `queue.put`; JSON details of actions and of results, log lines, durations and
-- counters of rule hits; the permission checks and test messages of the channel service; the
-- network, the file system, hashes, and the database below its transactions; the front end, the
-- routes of the HTTP API, the other listeners, the bot and the wiring of the processes.
pub mod Prelude
pub mod Host
pub mod Message
pub mod Processed
pub mod Text
pub mod Channels
pub mod Registry
pub mod Backends
pub mod Messages
pub mod RateLimit
pub mod Retry
pub mod Streams
pub mod Albums
pub mod Ingest
pub mod Deliveries
pub mod Publish
pub mod Processors
pub mod Rules
pub mod Review
pub mod Examples
