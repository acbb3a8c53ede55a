-- ===== src/Lib.antt =====
-- Browsception runs a web browser inside a browser tab: an engine, compiled to WebAssembly, draws
-- web pages on a page of the extension, so that a site never runs in the real browser. This
-- library models the extension's own decisions and proves what they promise.
--
-- The parts, and the file that models each:
--   ListMatch    src/ext/list-match.mjs: site list entries, `normalizeEntry`, `entryMatches` and
--                `listMatches`. Texts are lists of UTF-16 units (Prelude/Texts).
--   ViewerUrl    src/ext/viewer-url.mjs: the `?url=` format of viewer tabs, with
--                `decodeURIComponent` (Prelude/Uri).
--   State        src/ext/state.mjs: defaults under the stored keys.
--   Dnr          the rule objects of `chrome.declarativeNetRequest`.
--   DnrRules     src/ext/dnr-rules.mjs: `desiredRuleState` computes the dynamic and session rules,
--                `shouldSandbox` is the same decision in code, `sweepAction` repairs tabs that the
--                rules missed. Regex is the fragment of RE2 that the filters are written in; Engine
--                states, as a record of laws, what the browser's rule matching does, and ModelEngine
--                fills it.
--   Guard        src/shim/guard.mjs: the guard list of `evaluateRequest`.
--   BridgeRules  src/ext/bridge-rules.mjs: the base rule and the rule of one request.
--   Capture      src/shim/redirect-capture.mjs: the class `RedirectCapture`. Entries are objects that
--                a listener changes after they are queued, so the state has a store of entries, and
--                queues hold places in it. Queues has `push`, `take` and the sweep, Listeners the two
--                webRequest listeners.
--   Popup        src/ext/actions.mjs (`primaryActions`) and src/ext/popup.mjs: the tab that is
--                inspected, and what a click on an action does to the lists (Clicks).
--   OptionsPage  src/ext/options.mjs: the lists as text, `parseList` and the save.
--   Bridge       src/shim/bridge.mjs, class `Bridge`: its fields as a record, its calls of the engine
--                and of the browser as a list of effects. `#begin` and `#stream` run until an
--                `await`; a `Task` says at which one a request waits, and there is one function for
--                each way it goes on. Requests has the part up to the response, Stream the rest with
--                the credit window, RuleIds `#allocRuleId`, Headers the three ways of the engine's headers,
--                Events the sum of all that can happen, Ledger the ids in use, Races what a
--                cancellation meets.
--   Keys         src/ext/keys.mjs: who gets a key, and the text that it inserts.
--   ServiceWorker src/ext/sw.mjs: every handler as the list of the browser calls that it makes.
--                Events says what the calls leave in the browser (session storage, rules, tabs) and
--                composes the handlers; Quiet, Mirror, Grants, Granted, Hatch and Stays hold the
--                proofs.
--   Viewer       src/ext/viewer.mjs: the tab's history as a mirror of the engine's; Persist has the
--                writing of the engine's snapshots, Input the pointer events (for any type of numbers
--                and any addition of them), Wheels what the calls of a wheel are measured by, and
--                Boundary the navigation policy. A write of a snapshot is one step, its timers are events.
--   Clipboard    src/ext/clipboard.mjs: `packDataTransfer` and `toClipboardRecord`.
--   EngineLink   src/ext/engine-link.mjs: the class `EngineLink`, its methods and the messages of the
--                worker, as messages posted and hooks called.
--   EngineWorker src/ext/engine-worker.js: the hooks that the engine calls and the messages of the
--                link, on a heap that is a list of bytes.
--   Zip          scripts/lib/zip.mjs: `writeZip`, as the list of the bytes that it writes. Reader is
--                an independent reader of zip files, Order the order of the entries.
--   Host         the platform's URL: its fields and a parser.
--
-- How they interact: the service worker installs `desired_rule_state` of the stored state, and the
-- browser obeys it at each main-frame request; the sweep visits tabs with `sweep_action`; a
-- redirect leads to a viewer URL, which the viewer reads with `viewer_target`. Each request of the
-- engine passes `evaluate_request` before it is fetched.
--
-- Parameters: the URL parser (`new URL`), the matching of a filter text by RE2 and the browser's
-- choice among the rules that apply, for the zip writer reading files, UTF-8, `crc32` and
-- `deflateSync`, and for pointer input the numbers and their addition. A number that does not fit its
-- field makes the zip writer throw: `none`. An unknown mode makes `desiredRuleState` throw: the result
-- is `none`. `#allocRuleId` searches with one round for each id of its range, and `none` stands for a
-- search that does not end; the loop over a chunk has a round for each byte, the text of a number
-- one for each unit. All else recurs on a list or a text. The counters `sent` and `acked` of a
-- request stand for `unacked`, their difference, which the source lets go below zero. Engine calls
-- of the bridge do not re-enter it (the engine runs in a worker), and request ids are not used again
-- after a request is over.
--
-- Not modelled: the boot of the engine worker, the rest of the viewer (boot, canvas size, keys and
-- clipboard wiring, what is drawn), what the popup and options pages draw, the other
-- packaging scripts, the C++ embedder, tests and benchmarks. `onStateChanged` is a subscription only,
-- and the bridge's metrics leave out the milliseconds.
pub mod Prelude
pub mod Host
pub mod ListMatch
pub mod ViewerUrl
pub mod Regex
pub mod Dnr
pub mod State
pub mod DnrRules
pub mod Guard
pub mod BridgeRules
pub mod Capture
pub mod Bridge
pub mod Keys
pub mod Popup
pub mod OptionsPage
pub mod ServiceWorker
pub mod Zip
pub mod Viewer
pub mod Clipboard
pub mod EngineLink
pub mod EngineWorker
