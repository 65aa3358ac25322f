-- ===== src/Lib.antt =====
-- Models of the programs of rust_samples, a repository of small Rust programs around networks,
-- eBPF, data leak prevention and a block chain. The programs do not call each other, except in
-- pairs: xdp_router and xdp_firewall are each a kernel program and a daemon which share an eBPF
-- map. What they share in these files is the module Prelude: numbers, lists, text as lists of bytes
-- (Prelude/Text), maps (Prelude/Maps), and tests; Xdp and BpfMap are shared by the XDP programs.
--
-- Xdp: the packet between `data` and `data_end`, `ptr_at` and the loads and stores, of which one
--   outside of the packet is a `fault`. Xdp/Reads has the lemmas. The kernel's action codes and the
--   redirect helper are the record XdpAbi.
-- BpfMap: what a bounded eBPF hash map promises, and a list that keeps it.
-- XdpRouter: xdp_router/xdp_router_ebpf/src/main.rs (Packet: `try_xdp_router` in its parts
--   parse_vlan, destination and route_packet), xdp_router/xdp_router_common/src/lib.rs (RouteKey,
--   RouteValue) and xdp_router/xdp_router/src/main.rs (Control: the routes of interfaces, and
--   `monitor_arp_updates`). Wire is an independent description of frames, with and without a VLAN
--   tag. netlink and the loading of programs are parameters or left out.
-- XdpFirewall: xdp_firewall/xdp_firewall_ebpf/src/main.rs (XdpFirewall) and
--   xdp_firewall/xdp_firewall/src/main.rs (Blocklist: the reading of blocked_ips.txt and the writing
--   of the map). The longest-prefix-match trie and the ipnet parsers are parameters (Trie, NetLib).
-- Doge: doge-rust/src/main.rs. Hex is `mod hex`, Transactions, Blocks and Chain are the impls of
--   Transaction, Block and Blockchain, Node is `handle_connection`. SHA-256, ed25519, JSON and f64 are
--   the record Crates. `Block::mine` runs on fuel, of which each
--   attempt takes one unit; any fuel above the number of attempts is enough. The struct of the source lacks the field `amount` which all uses need; the
--   model has it. The command line of main is not modelled.
-- Dlp: dlp/dlp_analyzer/src/main.rs. Luhn is `validate_luhn`, Engine is `analyze` with the loops over
--   rules, matches and words. Regular expressions are a parameter, and so are the tables of
--   `to_lowercase`, which is known on ASCII. The search for a word runs on fuel; for ASCII texts one
--   unit more than the text has bytes is enough.
-- AntiDdos: anti_ddos/src/main.rs. AntiDdos has the registry, the permits and the rate limit,
--   Handlers runs `handle_client` as tasks that wait for the client's bytes and then for the
--   upstream server, interleaved in any order. Sockets and copying are events.
-- Siem: siem_clickhouse_processor/src/main.rs. Writer is ClickHouseWriter, Manager the loop of
--   BatchManager with one wakeup of its `select!` at a time, Traffic the generator. ClickHouse,
--   serde_json and the disk are the record Attempt. The spawned writes are listed in the order in
--   which they start; how they interleave is not modelled.
-- Dns: dns_server/src/main.rs. Ipv4 is the text form of addresses, Server the handlers of requests
--   and updates and the clearing of the cache, over two tables as lists. SQLite is a flag whether it
--   answers, chrono the record Chrono, the upstream resolver a function, and so
--   is hickory's reading of a query's name. Sockets and the HTTP
--   routing are not modelled.
-- EbpfProtect: ebpf_protect/src/main.rs. The set up of the whitelist map (`setup_whitelist_map`), the
--   loop of `main`, the scan of programs, the whitelist key and the removal of pinned files, with
--   open descriptors counted. libbpf is the record Kernel; a scan runs on fuel,
--   and as ids grow and have 32 bits, 2 ^ 32 turns are enough. What the
--   kernel answers to the creation and the pinning of the map is the record MapCalls.
-- LsmHooks: lsm_hooks/common/src/lib.rs, lsm_hooks/bpf/src/main.rs (`file_open`) and
--   lsm_hooks/userspace/src/main.rs (`reload_rules`). Lines has the rule of a line
--   of text, Keys the keys of rules and the buffers that the hook looks up. The map RULES is a BpfMap,
--   and bpf_d_path a function of the path and the buffer. The watching of the file is not modelled.
--
-- WebSocket: hl_websocket_server/src/main.rs. Tasks has the accept loop, `handle_connection` as the
--   steps between its awaits, `process_message` and `listen_global_broadcast`; a node is the counter,
--   the registry, the sessions by number and what it has published, and `run` takes events in any
--   order. Deliver, Registry and Steps keep the registry and the sessions in step, Moves says what an
--   event does to one session. Postcard is a record, and the answers of the sockets and of Redis come
--   with the events. A write task leaves its loop in one step, and its
--   registry entry and receiver go when its socket has closed. The abort of it is taken to act at once; ids do not reach 2 ^ 64.
-- S3Server: s3_server/src/main.rs. The handlers `create_bucket`, `put_object` and `get_object` over
--   the two levels of maps; Refinement has the store as a function, with which they agree. s3s and
--   hyper are not modelled.
-- DlpHooks: dlp/dlp_fanotify_hooks/src/main.rs. Utf8 is `std::str::from_utf8`; Layout lays events out
--   as the kernel does; `walk` is the inner loop, on fuel: an event takes at least 24 of the 4096
--   bytes, so 171 rounds are enough. The calls of the kernel and DlpConfig are the record
--   Kernel, one for each event, as the number of a closed descriptor is used again.
-- DnsTelemetry: dns_telemetry/src/main.rs. Service has the capture, the parsing loop and the worker of
--   main as steps on the two channels, the batch and the table. etherparse and hickory are the record
--   Parsers, ClickHouse the record Attempt.
-- ProcControl: proc-control/proc-control-ebpf/src/main.rs (Tracepoints),
--   proc-control/proc-control/src/main.rs (Lines: the loop that prints) and
--   proc-control/proc-control-common/src/lib.rs (ProcessEvent). The helpers are the record Kernel, the
--   tracepoint's context a function of the offset. Loading and attaching are not modelled.
-- Tunnel: rs_ngrok/src/main.rs. Machine has `run_server` and `run_client` as steps on the queues of the
--   two ports, the bytes on the control connection and the tasks of the client. The copying between
--   two connections is not modelled.
-- FileSender: file_sender/src/main.rs. The client and the server with what the system answers; `io::copy`
--   is a parameter that moves a prefix.
--
-- Not modelled: dlp/dlp_sniffer, syscall_tracer, md5_hasher, tarantool, vpp-xdp and antidetect_chrome,
-- which are for the most part calls of the kernel or of crates.
pub mod Prelude
pub mod Xdp
pub mod BpfMap
pub mod XdpRouter
pub mod XdpFirewall
pub mod Doge
pub mod Dlp
pub mod AntiDdos
pub mod Siem
pub mod Dns
pub mod EbpfProtect
pub mod LsmHooks
pub mod DlpHooks
pub mod Tunnel
pub mod DnsTelemetry
pub mod ProcControl
pub mod FileSender
pub mod WebSocket
pub mod S3Server
