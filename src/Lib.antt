-- ===== src/Lib.antt =====
-- Starweb: a browser, a static server and a reverse proxy for the protocol STWP, in C++.
--
-- The parts and how they interact. A URL `moon://host:port/path` (plain) or `star://` (over TLS) names a
-- server and a path. Both sides exchange messages of a head of lines, a blank line and a body whose length
-- the head states. The static server and the proxy answer a request with a file; the proxy also picks a
-- server and a location of its configuration by port, host and path, and hands the request to a peer of an
-- upstream group, which it picks by weight and watches for failures. The browser keeps idle connections to
-- the servers it has asked.
--
-- Files and the code they model:
--   Base: what the others share. Base/Bytes is `std::string` as a list of byte values with the members that
--   the program uses; Base/Decimal is `std::to_string`, `std::stoull`, `std::stoll` and `std::stoi`, with their
--   bounds and exceptions as `none`, and Base/Decimal/Scan the conversions `%llu`, `%lld` and `%d` of
--   `std::sscanf`; Base/Dict is `std::unordered_map` as an association list, whose order is that of insertion,
--   since the library fixes none; Base/Int is a signed integer.
--   Url: src/common/url_parser.hpp, `parse_url` and `format_host`.
--   Msg: src/common/stwp_msg.hpp. Msg itself has the messages, their `serialize`, `trim`,
--   `parse_header_line` and `parse_request`; Msg/Reply has `parse_response_headers` and `parse_response`,
--   Msg/Strict `find_header_end` and `parse_request_headers`, Msg/Length `parse_content_length`. A parser
--   that fills its argument gives back what it has filled in, also where it refuses.
--   StaticFiles: src/common/static_files.hpp, `sanitize_path`, `content_type` and `parse_byte_range`;
--   StaticFiles/Send has `send_text` and `send_file`. What `write_all` answers to the k-th write, and what the
--   file hands over, are parameters; what is sent is the list of texts given to `write_all`.
--   Proxy: the records of src/proxy/config.hpp. Proxy/Router is src/proxy/router.cpp: `normalize_host`,
--   `pick_server` and `pick_location`. Proxy/Upstream is `UpstreamGroup` of src/proxy/upstream.cpp: `pick`,
--   `report`, `take_idle` (`take_newest` on the idle connections, the newest first) and `park`. Each runs
--   under the mutex of the group, so it is one step. The clock and what a socket says are parameters.
--   Proxy/Conf: src/proxy/config.cpp. Proxy/Conf/Lexer is `tokenize`, a machine over the bytes, and `quote`;
--   Proxy/Conf/Tree is `Parser`: blocks, directives and included files; Proxy/Conf/Glob is `wildmatch`;
--   Proxy/Conf/Value has times, sizes, ports and addresses. Proxy/Conf/Build is `Builder`: what its functions
--   share, and in its children Upstreams, Pass (`build_proxy_pass`), Locations, Servers and Top (`build_stwp`,
--   `build`, `load_config`), one function for each kind of directive and a loop over a block that passes the
--   state on. A failure is an `error` with the message that the source writes. Proxy/Conf/Ports is `validate`.
--   The children of Proxy/Conf/Form follow the form of the configuration through the builder. Proxy/Conf/Dump
--   is `dump_config`. Paths, files, `file_exists` and the environment are parameters.
--   ConnPool: src/browser/conn_pool.cpp, `acquire`, `release` and `clear` over the table of idle connections;
--   what a socket says is a parameter.
--   Cookies: src/browser/cookies.cpp. Cookies itself has the jars and `apply_set_cookie`, `entries`,
--   `header_for`, `remove` and `clear`; Cookies/Script has what the Lua functions do to them. Each runs under one
--   mutex, as one step. Cookies/Disk has the text of their file, `load_locked` and `save_locked`. The clock,
--   what the Lua library hands over and what `std::sscanf` makes of a number that does not fit are parameters;
--   times are integers without a bound.
--
-- The child modules of a component prove what their names say; the modules called Tests run it.
--
-- Bounds and fuel. A `size_t` sum keeps its wrap at 2^64 where a message states a length. The weights, the
-- failures and the times of an upstream group are integers without a bound. The loop of `send_file` runs
-- on fuel, one more than the bytes that are left: every round takes a byte or ends the loop.
-- `to_string` has as many rounds as the number plus one, and each divides it by ten.
-- The loop of `load_locked` runs on fuel, one more than the bytes that are left: every round takes a byte.
-- `parse_block` runs on fuel, one more than the tokens of the file: each call takes a token. Included files are
-- followed to the depth at which the source refuses them.
--
-- Not modelled: the sessions of the proxy, the history, storage and
-- network code of the browser, the page parser and layout, scripts, drawing and user interface, sockets, TLS
-- and threads, the name server and the Python package. Opening a connection to a peer (`dial`) is not
-- modelled, since it only calls the resolver and sockets.
pub mod Base
pub mod Url
pub mod Msg
pub mod StaticFiles
pub mod Proxy
pub mod ConnPool
pub mod Cookies
