-- ===== src/Lib.antt =====
-- Skrivle: a shared whiteboard. A browser holds a board as a Yjs document and sends its changes over a
-- socket; the server applies them to its own copy, relays them, logs them in Redis and saves a snapshot
-- of the document to Postgres. This library models the server's real-time core, the board service and
-- its routes, signing in, the browser's session with the server, and the parts of the canvas and of the
-- browser's storage that compute.
--
-- The parts and their files (paths from the repository's root):
-- - back-end/src/realtime: Realtime/Limits (limits.ts, token buckets), Realtime/UpdateLog
--   (update-log.ts), Realtime/DocManager (doc-manager.ts, the registry of documents), Realtime/Bridge
--   (yjs-bridge.ts, applyClientUpdate), Realtime/Snapshot (snapshot-writer.ts and board-store.ts),
--   Realtime/Awareness (awareness.ts, cursors), Realtime/Gateway (gateway.ts, the handshake and the
--   handlers of a socket). A handler of the gateway takes its tokens from the limits and calls the
--   bridge, which asks the registry for room, applies, and appends to the log; the snapshot writer
--   seals the log, saves the registry's document and trims the log through the seal; opening a board
--   loads the snapshot and replays the log.
-- - back-end/src/boards: Boards/Id (board-id.ts) and Boards/Service (service.ts). Boards/Routes is
--   back-end/src/http/routes/boards.ts with the middleware before its handlers: Requests, Answers and
--   Handlers, each of which makes at most one call of the service (Effects).
-- - back-end/src/auth: Auth/Otp (otp.ts), Auth/Session (session.ts), Auth/Identity (identity.ts) and
--   Auth/OAuth (oauth/flow.ts); Auth/SignIn and the callback in Auth/OAuth are routes of
--   back-end/src/http/routes/auth.ts, which put the others together. Upkeep/RateLimit is
--   back-end/src/redis/rate-limit.ts and Upkeep/ExpirySweep back-end/src/jobs/expiry-sweep.ts.
-- - front-end/src/lib/board: Canvas/TextEdit and Canvas/Order (elements.ts), Canvas/Tools
--   (tools.ts), Canvas/Geometry (geometry.ts) and Canvas/Viewport (viewport.ts, the camera),
--   Canvas/Pasting (clipboard.ts), Canvas/Stroke (stroke.ts, simplify) and Browser/Tokens
--   (creator-tokens.ts). Browser/Copies is front-end/src/lib/realtime/local-copy.ts, Browser/Peers
--   presence.ts, and Browser/Session with Browser/Cursor board-session.ts beside it: State has its
--   types, Local and Socket the handlers, Steps every event; the session flags the index of
--   Browser/Copies, and Exchange puts it together with the server's bridge.
-- - Prelude has the lists, maps, strings and tests that they share; Services has what is not in the
--   repository, as records of operations with laws: Yjs documents and updates, Redis lists, lib0,
--   the awareness protocol, Y.Text, the two root types of a board, and toLowerCase; Numbers has the
--   operations on coordinates and the order of those that are not NaN, and says nothing of rounding.
--   Boards, Auth and Upkeep have theirs: the tables behind Prisma, zod, and Redis strings, hashes,
--   sets and counters. Examples gives all of them in a form that computes, with a run for each
--   result that has parameters or conditions.
--
-- How it is modelled:
-- - A function keeps its name in snake_case, and takes and returns the state that it reads and writes.
--   Some calls are cut where they await: Realtime/Snapshot/Steps has the steps of a board between two
--   awaits as a relation, so that every interleaving is a path; Auth/Otp cuts verifyCode, and
--   Boards/Service/Races the calls that extend and claim a board. Elsewhere a call runs with no other
--   between its reading and its writing, which the results on the routes of boards and on OAuth suppose.
-- - A Yjs update can build on changes that a document lacks, which Yjs then keeps pending; a Y.Text
--   writes U+FFFD where a surrogate pair is cut, and its laws are for edits that cut none.
-- - Times are milliseconds passed in. Tokens are counted in five-thousandths, of which every rate is a
--   whole multiple, where the source has doubles, whose rounding is not modelled.
-- - Strings are lists of UTF-16 code units. A Map or Set is a list in order of insertion.
-- - Loops recurse on the list that they walk or on the rounds that are left, which start from the
--   loop's own bound; generateBoardId recurses on the batches of random bytes.
-- - What a Redis command does is an argument: it ran and was heard, ran unheard, or did not run.
--
-- Not modelled: mail, media and the requests to OAuth providers, which are input and output around
-- the services; React components and hooks; the glide of the camera; the writes that move and resize
-- elements; the outline of ink; the listing of a user's boards; the time to live of Redis keys;
-- errors that a database call throws out of the board service; what is on a board after an append
-- that Redis did not carry out; the second caller of acquireDoc while the first one's load is under
-- way.
pub mod Numbers
pub mod Prelude
pub mod Services
pub mod Realtime
pub mod Auth
pub mod Boards
pub mod Browser
pub mod Canvas
pub mod Upkeep
pub mod Examples
