-- ===== src/Lib.antt =====
-- Verification of tydomio, the asynchronous client of the Tydom gateway, of its MCP server and
-- of its capture tool.
--
-- The program. The client (tydomio/client.py) keeps a websocket to the Tydom. It sends requests
-- as bytes (tydomio/requests.py), parses what it receives (tydomio/protocol.py,
-- tydomio/response.py), and gives each response to the future registered for its transaction id
-- (tydomio/pending_requests.py). A configuration (tydomio/model) describes an installation
-- (tydomio/installation.py), which hands out the references that writes are addressed to. The
-- MCP server keeps a cache of the state (tydomio/mcp_server/cache.py), which snapshots and
-- pushes change (tydomio/mcp_server/sync.py), shows it (tydomio/mcp_server/view.py), and offers
-- write tools (tydomio/mcp_server/writes.py) that check a write against the cache, limit its
-- rate and send it once. The capture (tydomio/capture/fetch.py) gets a fixed list of endpoints
-- over as many connections as it takes.
--
-- The files.
--   Base: natural numbers, lists, options, dicts in insertion order, integers, and byte
--     strings and texts as lists of codes (strip, split, partition, numbers in decimal and
--     hexadecimal).
--   Error, Model, Usages: the exceptions, the records of tydomio/model and the tables of
--     usages. Usages/Fields has the fields of each usage, Usages/FromData the reading of a
--     model from data (tydomio/model/usages/base.py) and Usages/FromData/Values which datum
--     counts.
--   Pending: `PendingRequests`. A future is a number and a store says what it holds, since
--     the code compares futures by identity. Pending/Reachable has every use as a step
--     relation.
--   Protocol: `parse_message` and what it calls. Protocol/Chunked has the grammar of the
--     transfer coding, Protocol/Total the exceptions, Protocol/RoundTrip the way from
--     `Request.to_bytes` back, over Protocol/Sent and Protocol/Received.
--   Requests, Response: the bytes of requests, the writes, and the typed responses.
--     Response/Invalid is about the entities that a response could not read.
--   Client: `AsyncTydomClient`. `send` is cut at its awaits and one round of the reading loop
--     is a function. Client/Flights relates the sends in flight to the registered requests, and
--     Client/Runs has every run of a client as a step relation. Client/Reconnect is the loop of
--     `run_websocket`, and Client/Ends says what becomes of a send in flight when its response
--     arrives and when the connection ends.
--   Installation: the references and the reading of pushed data.
--   Cache: `Cache`. Cache/Entities has the loops over the data, Cache/Valid the invariant,
--     Cache/Merge the effect of pushes and configurations. Cache/Abstract says what a cache
--     promises, with functions for its dicts, and Cache/Refines, over Cache/Loops, relates the
--     two.
--   View: `get_state` of tydomio/mcp_server/view.py. View/Sanitize is the cleaning of texts,
--     with the scrubbing of tydomio/scrub.py, View/Items one item, View the whole output.
--     View/Answers is about the ids, View/Safe, over View/Clean and View/Values, about what the
--     items hold.
--   Sync: `Sync`, the bootstrap of the cache with the pushes between its requests. Sync/Fresh
--     is about the freshness of the cache, Sync/Waits about the backoff.
--   Writes: the write tools. Writes/Targets reads a target, Writes/Tool is a whole call,
--     Writes/Rate the rate limit over a session, Writes/Safety what may be sent.
--   Capture: the fetcher; Capture/Fetch/Passes has its passes over several connections.
--     Capture/Policy has the rules of the anonymization (tydomio/capture/policy.py):
--     Capture/Policy/Table is the table, with regular expressions as texts, and
--     Capture/Policy/Paths the paths. Capture/Json has JSON values and their strict parser
--     (tydomio/capture/jsonvalue.py). Capture/Anonymize is the walk through the bodies
--     (tydomio/capture/anonymize.py): Anonymize/Positions has the active rules,
--     Anonymize/Metadata the descriptors, Anonymize/Maps the tables and the report,
--     Anonymize/Leaf what becomes of a leaf. Anonymize/Released is about the texts that come
--     out, Anonymize/Numbering, Anonymize/Stable and Anonymize/Consistent about the tokens.
--     Capture/Catalog is the merge of catalogs (tydomio/capture/catalog.py), Catalog/Order has
--     `sorted`, Catalog/Extract the documents, and Catalog/Merged, over Catalog/Fields, is
--     about the merge of two usages.
--   The Tests of each component run it at concrete inputs.
--
-- Bounds and fuel. The loop of `_decode_chunked` runs on fuel, one more than the length of the
-- body; every round reads at least one byte, so this is enough. All other loops are structural.
-- Python ints are unbounded; the limit of `int` on the number of digits is kept.
--
-- Parameters. pydantic's validation, `json.loads` and `json.dumps`, regular expressions and floats in the anonymization and the
-- view, the floats of the monotonic clock and their arithmetic, the classes of characters, and the
-- answers of the client to the fetcher are parameters of the definitions that use them. The fetcher
-- takes any parser with the three outcomes of the one of Capture/Json.
--
-- Not modelled: the ping task of the client, the registration of tools of the MCP server, the
-- files of a capture, the write models of the usages, logging, the network and the command
-- lines.
pub mod Base
pub mod Cache
pub mod Capture
pub mod Client
pub mod Error
pub mod Installation
pub mod Model
pub mod Pending
pub mod Protocol
pub mod Requests
pub mod Response
pub mod Sync
pub mod Usages
pub mod View
pub mod Writes
