-- ===== src/Lib.antt =====
-- A model of grpc-tap, a proxy that captures gRPC, gRPC-Web and Connect calls and shows them in a
-- terminal (TUI) and in a browser.
--
-- A call goes to proxy/reverse_proxy.go, which forwards it to the upstream server, captures both
-- bodies and sends an event over a channel. cmd/grpc-tapd hands every event to broker/broker.go,
-- which offers it to its subscribers: the loops of server/server.go, which serve the TUI, and of
-- web/web.go, which serve the browser. The TUI and the browser may replay a call through the proxy.
--
-- Which file models what:
--   * Prelude and its children: lists, texts, signed integers, decimal texts, permutations.
--   * Chan: the channels of Go with a buffer, for the broker and the proxy.
--   * Proxy/Types: proxy/proxy.go.
--   * Proxy/FrameCounter, Proxy/Capture, Proxy/Payload: the readers and parsers of proxy/frame.go,
--     with DetectCallType in Proxy/Detect. Each reader takes the list of the chunks that the reader
--     below it returns.
--   * Proxy/Wire: protoWireToMap of proxy/frame.go; its children are mapToProtoWire (Encode), the
--     JSON around both (Text), and the proofs on them.
--   * Proxy/Header, Proxy/Detect, Proxy/Status, Proxy/Serve: proxy/reverse_proxy.go. ServeHTTP is
--     `serve_http` up to its send, `serve_and_send` (Proxy/Serve/Send) with it, Replay is `replay`,
--     ListenAndServe is `listen_and_serve` (Proxy/Listen).
--   * Broker: broker/broker.go. Each method is one step, since it holds the mutex (Publish for reading
--     only, but the program has one publisher); Broker/World puts calls and receives in any order,
--     Broker/Delivery follows the events, and Broker/Drain empties a buffer.
--   * Daemon: cmd/grpc-tapd/main.go. `run` is what it starts, defers and stops (Daemon/Process);
--     Daemon/Flow puts the sends of the proxy, the loop over its events and the subscribers in any
--     order. Tui/Command is main.go.
--   * Server and Web: server/server.go and web/web.go, the conversion of events, the loops of
--     Watch (Server/Watch) and of handleSSE (Web/Sse), and the handlers of a replay. Web/Routes are
--     the patterns that New registers and the way of a request through them, Web/Resend a call that
--     the browser sends back, for Pipeline/Replay.
--   * Tui/Rows, Tui/Analytics, Tui/Model: the state of tui/model.go and tui/analytics.go. Update is
--     `update`, a function of the message and the model; the keys are first read to the case labels
--     of the source (Tui/Model/Keys). Tui/Connect and Tui/Resend are the commands connectCmd and
--     editAndResend.
--   * Tui/View: View and the renderers of tui/model.go and tui/analytics.go, over the text formats
--     of tui/format.go (Tui/Format, and Tui/Body for decodeProtoWire). A screen is the text that is
--     given to the terminal.
--   * Tui/Export, Tui/Names: tui/export.go, the analytics, the data of an export (Export/Data) and
--     its Markdown with writeExport (Export/Markdown).
--   * Clipboard: clipboard/clipboard.go.
--   * Example: the server and the client under example/, alone and together.
--   * Pipeline: the broker, Watch and the TUI's list together; with the channel of the proxy in
--     Pipeline/Captured, with its calls in Pipeline/Calls, with the browser in Pipeline/Browser,
--     back from there to the proxy in Pipeline/Replay, and back from the TUI in Pipeline/Resend.
--   * The modules named Runs hold concrete runs, those named Toy the parameters of these.
--
-- Numbers and bounds: bytes, lengths and cursors are natural numbers; a uint32 keeps its wrap at
-- 2^32, a sum of durations its wrap at 2^64, ParseInt its clamp to 32 bits. Where the source's
-- int would fall below 0 it is cut to 0 there too, or is tested first.
--
-- Loops: the loop of FrameCounter.scan runs on fuel, one round for each byte of the chunk, which
-- is enough because a round takes a byte at least. The loops of protoWireToMap and decodeProtoWire
-- run on as many rounds as there are bytes, nested messages included: a tag takes a byte at least
-- and a nested message is shorter than its field. The loop of the example's Reverse runs on one
-- round more than there are runes. All other loops are recursions over a list.
--
-- Panics are values: a send on a closed channel, a second close, an index or a slice out of range.
-- What a panic in a handler does to the process is not in the model of that handler: a run of the
-- daemon (Daemon/Process) may be cut off after any of its deeds. In Daemon/Flow a send to a full
-- channel loses the event, as in Replay, while that of ServeHTTP waits (Proxy/Serve/Send).
--
-- Parameters: the HTTP transport and server, gzip, protowire, encoding/json, url.Parse,
-- path.Clean, the codes of connectrpc.com/connect, strings.ToLower, ToUpper and TrimSpace,
-- sort.Slice, slices.SortFunc, the order of a range loop over a map, float64 with the index that
-- it computes for a percentile, base64, UTF-8, hex, the format of a time and of a float, lipgloss
-- and ansi, the files, the editor and the programs of the clipboard. The handlers of the TUI take
-- the lines of the inspector as an argument. Only http.ServeMux is written out, by its
-- documented rule for patterns of a verb and a path (Web/Routes).
--
-- Not modelled: what only hands over to net/http, grpc or connect (Serve, Shutdown, Stop and Close,
-- the set-up of transports and of TLS), which is I/O; the parsing of the flags, the logs and the
-- signals; generated code and the page of the browser. That a stop waits is not modelled either: a
-- run of the daemon lists GracefulStop as done.
pub mod Prelude
pub mod Chan
pub mod Proxy
pub mod Broker
pub mod Tui
pub mod Server
pub mod Web
pub mod Clipboard
pub mod Pipeline
pub mod Daemon
pub mod Example
