-- ===== src/Lib.antt =====
-- A verification library for the JavaScript of ai-api-proxy, a gateway that routes requests of AI
-- clients to upstreams. The gateway runs plugins in JavaScript; a plugin translates requests,
-- responses and errors between the protocol of the client and that of an upstream.
--
-- Common: names of the libraries, comparisons, lists, bits and words, and the type `Outcome` of
--   code that may throw.
-- EventStream: internal/plugin/jshelper/eventstream.js, which gives plugins
--   `util.eventstream.decode`, the decoder of AWS EventStream frames.
--   Crc: `crc32`. Segments: `byteAt`, `readU32`, `copyRange` and the loop that drops a frame.
--   Utf8: `decodeUTF8`. Headers: `decodeHeaders`, with `readBigEndian64Bytes` of
--   internal/plugin/runtime.go behind `util.i64be` and `util.u64be`. Frames: the loop of the
--   generator; `turn` is a turn of its inner `while`, `pull` the way from one `yield` to the next.
--   `decode_chunks` is a consumer that calls `next` until the end, over a source of chunks.
--   Iterator: the object that `decode` returns, with `next`, `return` and `throw`, the flags
--   `started` and `stopped`, and the calls of `source.return`, which are counted.
-- Json: the values that `JSON.parse` makes, over a type of numbers that is a parameter, and the
--   reads that the plugins do on them.
-- Gemini: sdk/examples/gemini/protocol.js, the plugin for Google's GenerateContent.
--   Contents: the loop of `buildRequest` over the messages, and in Heard what they say by the words
--   of their roles. Requests: the configuration and the rest of `buildRequest`. Responses: `mapEvent` and `mapResponse`. Failures: `mapError`. The
--   record `Host` has what these call and this code does not define: `JSON`, `String` and
--   `encodeURIComponent` of the engine, its arithmetic, and the host's `util`.
-- Anthropic: plugins/anthropic-compatible/protocol.js, the plugin that relays Anthropic messages.
-- Sdk: sdk/test.js, the host on which the authors of plugins run their tests. Objects: `deepMerge`,
--   `pick`, `omit`, `setting` and `mockCtx`. Paths: `get` and `set`. Templates: `template`.
--   Inspection: `inspect`. Storage: `makeStorage`. Parts: `log`, `util.key`, `loadPart` and
--   `loadPackage`, on a record of the module's variables. Platform: `deepClone`, base64 and hashes.
--   The source of a part, the files, `JSON` and what node offers are parameters.
-- Web: the console of the administrator, in web/src, with a module for each service and page.
--   Types: services/types.ts. Http: services/http.ts. Api: services/api.ts, with a constructor for
--   each function and, in Requests, its request. Auth: stores/auth.ts and the guard of
--   router/index.ts. Models (its parts State, Groups, Members, Tests, Discovery and Markup), Settings,
--   Packages, History, Monitor, Subscriptions, Transports and Login: the scripts of the pages of
--   those names, of which Settings is PackageSettingsPage.vue. Keys: components/KeysPanel.vue.
--   The modules Columns are the columns of their tables, over the elements of Cells.
--   Layout: layouts/AdminLayout.vue. Theme: App.vue. Values, Objects and Toasts are what they use of
--   JavaScript and of the messages on the screen; the record `Engine` has the functions of the
--   engine, as parameters.
--   Process: a handler is a process on the state of its page, which reads and writes until an
--   `await`, where it stops with the request that it waits for. A page is its state and the
--   handlers that wait; a step calls a handler, or answers one that waits, in any order. Locks is
--   the discipline of a busy flag, which the pages' own modules Locks apply to their handlers, and
--   Requests is what a page keeps and asks for. The modules Markup are templates, of the
--   channels, the settings and the keys: the listeners, the inputs, and what the controls show.
--
-- JavaScript numbers are natural numbers where the code keeps them so: bytes, lengths and 32-bit
-- words as bit patterns, with `>>> 0` as the rest modulo 2 ^ 32. Strings are lists of UTF-16 code
-- units. A position in an array is kept as the bytes from there on. The loops of `decodeUTF8` and
-- `decodeHeaders` have a round for each byte, which is enough since a round takes a byte at least,
-- and a consumer has one call of `next` more than there are bytes, since a message takes 16 bytes;
-- running out is the error `no_fuel`, which the source does not have. The encoders and the
-- descriptions of UTF-8 and of frames (the modules Scalars and Wire) are specifications: the
-- repository has only the decoder.
--
-- Of the console, the loop of `nextKeyName` has a round more than there are keys, which is enough,
-- and the text of a number is written in as many rounds as the number.
--
-- Not modelled: an exception of `util.key()` for a key that is not set; calls of the iterator by the
-- source; the order in which JavaScript enumerates the headers of a message, whose names that are
-- indices come first, where the model keeps the order of definition; of the test host, names of
-- `Object.prototype`, names that are indices, properties that `set` adds to an array, UUIDs and the
-- clock; the Go code; the generated bundle of the console, and of its sources the texts and the layout
-- of the templates and the inputs of those without a module Markup; the engine's numbers beyond `Engine`.
pub mod Anthropic
pub mod Common
pub mod EventStream
pub mod Gemini
pub mod Json
pub mod Sdk
pub mod Web
