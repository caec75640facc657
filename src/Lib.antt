-- ===== src/Lib.antt =====
-- The ggsql extension for DuckDB: how a query is recognised, how its plot is served, and the part
-- that runs in the browser.
--
-- The parser hook (src/ggsql_parser.cpp) takes the statements that hold the keyword VISUALISE. A
-- query that draws ends as a plot document (.hep). The extension serves it over HTTP with a page
-- (rust/assets/app.html), or writes it into a standalone HTML document. Both carry the viewer
-- bundle (rust/assets/hep-viewer.js), which is built from tools/hep-viewer/entry.js and the
-- package hephaestus-svg-wasm: a wasm module that turns a document into SVG, its bindings, and
-- the class PlotView that keeps the SVG in a container. The page asks the server for the latest
-- plot, follows the location and the history of the browser, and calls ggsqlRenderHep, which
-- loads the wasm module and the fonts once and then creates a PlotView. The page frees the view
-- when it shows another plot.
--
-- The library has one part for each of these:
--   Viewer   the class PlotView of rust/assets/hep-viewer.js. Viewer/State has its fields with
--            what it touches of the page and of the wasm side, as the state of a monad with
--            exceptions; Viewer/Draw has _draw, _emit, _renderNow, _sizeAndEmit, _schedule,
--            redraw, resize and _onObserved; Viewer/Theme has setColorScheme and _detachMedia;
--            Viewer/Lifecycle has create, the constructor, free, and the events that reach a
--            view: `dispatch` is one call or browser event, `run` a history of them.
--            Viewer/Picking has pick, pickAt, pickPathAt, _scopesOf and _elementAt over the chain
--            of elements from the one at the point outwards. Viewer/Asked has colorScheme,
--            isDark, hints and toSvgString; the first three are events too. Viewer/Fonts has
--            registerFontFromUrl and registerDefaultFonts, cut where they wait, so that a list of
--            arrivals is one interleaving of the requests of several views, and Viewer/Fonts/Awaited the create
--            that waits for them.
--   App      the script of rust/assets/app.html. App/Location has uuidFromLocation over texts as
--            lists of code points; App/Page has renderPlot and renderForCurrentLocation, App/Steps
--            pollLoop and the popstate listener. An async function is cut where it waits: its
--            rest is a task of the page, and `step` runs one piece of code, so that every
--            interleaving of the calls is a sequence of events. A rendering ends with a view, with
--            none, or with one whose constructor has thrown while it watched the container.
--   Entry    tools/hep-viewer/entry.js. Entry/Base64 has decodeBase64, Entry/Loader has loadHep: the
--            effects on the page and on the wasm module are a list, and modulePromise is what
--            the promise comes to; Entry/Render has ggsqlRenderHep. Entry/Build has the text that
--            tools/hep-viewer/build.mjs writes, Entry/Script what it is as a script.
--   Glue     the table of JavaScript values in rust/assets/hep-viewer.js that the wasm side names by
--            index: addHeapObject, dropObject, takeObject, getObject, and the arrays of values that
--            passArrayJsValueToWasm0 and getArrayJsValueFromWasm0 pass. Glue/Owned has the blocks that
--            PlotDocument and SvgRender wrap: __wrap, __destroy_into_raw, free, and the
--            FinalizationRegistry.
--   Boot     the start of the wasm module in rust/assets/hep-viewer.js: Boot/Init has __wbg_init,
--            __wbg_load and __wbg_finalize_init, Boot/Memory the cached views of the memory,
--            passArray8ToWasm0, decodeText with the decoders that it makes, and
--            getStringFromWasm0, Boot/Text passStringToWasm0,
--            which copies ASCII first and leaves the rest to the encoder. Boot/Encoding has its
--            branch without realloc, and the encodeInto for browsers that have none.
--   Calls    the calls between rust/assets/hep-viewer.js and the wasm side. Calls/Machine has the
--            state of a call (the stack pointer, the memory with its cached views, the table of
--            objects and what has been freed), the ways that it ends, and try-finally.
--            Calls/Access has the words, texts and arrays at the border, Calls/Document the
--            methods of PlotDocument and SvgRender, Calls/Fonts hasFonts, registerFont and
--            setGenericFamily, Calls/Imports the functions of __wbg_get_imports.
--   Server   rust/src/server.rs. Server/Registry has the state, register_plot and start_server,
--            Server/Route has route and serve_loop over texts as lists of code points, and
--            Server/Interleaving the threads as a step relation on their critical sections.
--            Server/Delivery puts the server and the page of App together; Server/Standalone has
--            standalone_html.
--   Exec     a query from its SQL function to its payload. Exec/Query has src/ggsql_exec.cpp: the
--            settings, GgsqlRunBind, GgsqlRunExec, GgsqlSaveFun and RunGgsqlQuery; Exec/Run has
--            ggsql_execute, run, render_with and serve_plot of rust/src/lib.rs. Exec/Modes is the
--            contract of the seven output modes, Exec/Refined that the code keeps it. The server
--            of the process and the URLs given to the browser are the state. Exec/Statement has
--            what DuckDB calls for a statement: PlanFunction of src/ggsql_parser.cpp,
--            IsSilentOutputMode, GgsqlRunInit and GgsqlScalarFun, and the defaults of
--            src/ggsql_extension.cpp; Exec/Surfaces puts the ways to run a query side by side.
--            Exec/Buffer has the buffer of the payload on the heap of the Rust side, from
--            ByteBuffer::from_vec to ggsql_free_buffer.
--   Bridge   the queries that the ggsql crate sends back to the database while it runs one.
--            Bridge/Callback and Bridge/Buffer have ExecSqlCallback, BridgeCtx, the callbacks of
--            a stream and the buffers of src/ggsql_bridge.cpp and rust/src/ffi.rs; Bridge/Reader
--            and Bridge/Normalise CallbackReader and normalize_arrow_types of rust/src/reader.rs,
--            Bridge/Dialect the SQL of rust/src/dialect.rs. Bridge/Forwarder has
--            InterruptForwarder of src/ggsql_bridge.cpp: its thread, the queries, the user and
--            the destructor are actions, and a list of them is one interleaving.
--   Parser   src/ggsql_parser.cpp. Parser/Scanner has ContainsVisualiseKeyword and ParseFunction
--            over lists of bytes; Parser/Tokens has the lexical elements that it is measured by.
--   Prelude  tests, lists and texts that the parts share.
--
-- What is not code of the repository is a parameter: the numbers of JavaScript (Numbers), the
-- exports of the wasm module (Wasm in Viewer; Exports in Calls, with its allocator), the browser
-- (Browser in Entry, in Viewer/Picking and in Calls, Platform in Boot, FontHost in Viewer/Fonts),
-- the text encoder (Encoder and OldEncoder in Boot), the capacity of a Vec (Capacity in Exec), the
-- reader of JSON, gzip and base64 (Node in Entry), the ggsql crate (Crates in Exec, Crate in
-- Bridge/Dialect), the arrow crate (Crate in Bridge/Reader, Arrow in Bridge/Normalise), the database
-- under the bridge (Host), the files that are compiled in (Files), and what the system gives to a
-- call of register_plot: the address of its socket, whether its thread starts, the id and the
-- time (Call). Their laws are fields or hypotheses: isDark gives what setDark has set last, NaN
-- is not finite, atob gives characters below 256, a code unit takes three bytes of UTF-8 at
-- most, realloc keeps the content of a block, an export that does not trap gives its
-- stack pointer back, a batch that RecordBatch::try_new accepts is the one that it is given.
--
-- Bounds: the scanner of the parser hook runs on fuel, one round for each character of the
-- query and one more, and each round takes a character at least; no other function runs on
-- fuel. Pointers and the stack pointer wrap at 2^32, as `>>> 0` does; an element of a Uint8Array
-- keeps 8 bits; the first index of the table that can be freed is 1028, and the decoder is
-- renewed at 2146435072 bytes, as in the code. Lengths and indices that the wasm side gives are
-- taken below 2^31 where a theorem says so. The number before n in sql_generate_series wraps at
-- 2^64. Ids, counters and buffers are unbounded.
--
-- Not modelled: a browser without FinalizationRegistry; two overlapping calls of __wbg_init,
-- since loadHep makes one; the executors of DuckDB, which call GgsqlScalarFun and GgsqlSaveFun for
-- each row, so that these are modelled on one row; the functions and descriptions that
-- src/ggsql_extension.cpp hands to DuckDB; BuildReaderBridge of src/ggsql_bridge.cpp, which fills a
-- structure; what a file holds after a failed write or close, and what the SQL of a query itself
-- does to files and tables; words of 2^31 and more as lengths; the metadata of a field in
-- normalize_arrow_types; the call of esbuild in tools/hep-viewer/build.mjs. The view of Viewer and the calls of Calls are not composed: Viewer
-- takes the wasm side as Wasm.
mod Prelude
pub mod Viewer
pub mod App
pub mod Entry
pub mod Glue
pub mod Boot
pub mod Server
pub mod Exec
pub mod Parser
pub mod Calls
pub mod Bridge
