-- ===== src/Lib.antt =====
-- Verification library of ratelimitly's nginx module (rl-nginx): a rate limiter that asks a RateLimitly
-- server over UDP, through the RateLimitly C client, before a request reaches its content handler.
--
-- The program and its files. A configuration names zones (a bucket template and a rate), trackers (a
-- service template and sample parameters), latency guards (a tracker and a threshold) and groups of
-- zones; a location has rules that refer to them. For a main request of such a location the handler
-- of the pre-content phase renders the templates into protocol entries, starts one request of the C
-- client and waits. The client's callback, or its deadline, decides the request, releases what it
-- held and resumes the phases. The log phase may report the latency of the request to a tracker. A
-- worker process counts the requests in flight and replaces its UDP endpoint, when the server
-- asks for it, while there are none.
--
-- - Numeric: src/rn_numeric.c, the parsers of decimal numbers and of rates (`parse_u32`, `parse_rate`)
--   and the saturating conversions. Its children state the grammars.
-- - ResolvConf: src/rn_resolv_conf.c, the conversion of one /etc/resolv.conf entry (`nameserver`).
-- - AddrRecords: src/rn_addr_records.c, the compaction of resolved addresses (`compact`).
-- - Duration, Policy: durations, replay-gap schedules (`schedule_units`), the horizon of a request
--   policy (`horizon_ms`) and the directive `ratelimitly_policy` (`read_policy`), all of
--   src/ngx_http_ratelimitly_module.c, as is what follows.
-- - Conf: the configuration (`MainConf`, `LocConf`), its lookups and merges, and in its children the
--   directives that fill the tables: `zone`, `group`, `tracker`, `latency_guard`, `rule`, `label`,
--   `report`. A directive takes a configuration and returns one, or the error that nginx prints.
--   Settings has the directives that set one part of it; Settings/Applied and Settings/Once prove which
--   of them may be repeated. Lookup and References prove what a directive declares and what it names.
--   Closed reads a whole file (`read_all`, by the table `ngx_http_rn_commands`): the locations, and the
--   blocks above them, have numbers, and nginx's merges of them are in the sequence. Startup has what
--   is done when the configuration has been read (`rn_init` for `ngx_http_rn_init`,
--   `create_system_dns_resolver`); Startup/Ready and Startup/Names prove what it leaves.
-- - Worker: `rn_worker_ctx_t`, the replacement of the endpoint (`rebind_handler`) and the retries of the
--   worker's creation (`worker_ensure`). Endpoint opens a socket (`open_candidate`), Init makes the
--   worker and releases it (`worker_init`, `exit_process`), Receive is the loop over the datagrams
--   (`udp_read_handler`), Send the send of one (`udp_send`). Released and Lifetime prove what they hold.
-- - Request: `rn_req_ctx_t` and the state that a request's code works on. Build has the protocol entries,
--   Expand the loops over the rules, Admit the handler of the pre-content phase in the stages between
--   its returns, Release the teardown and the cleanup, Complete the callback, the timeout and the
--   variable `$ratelimitly_verdict`, Report the log handler. Order (with
--   Order/Distinct), Capacity, Settled, Handled, Answered, Release/Balance, Verdict and Sample (with
--   Sample/Sent) prove what the code does.
--   Kept follows the balance of a request through every handler and callback, on every branch, and
--   Progress what its timer leaves.
-- - System: a worker process, that is, the worker's state and a list of requests. A step (`Step`) runs one
--   handler, callback or timer on one request or on the worker, or lets a request arrive or end; a
--   `Run` is a sequence of steps. Balance and Drained prove what holds in every run.
-- - Memory: blocks that are obtained and given back, of an allocator that is a parameter; `Holds` says
--   which blocks are held between two moments.
-- - AsyncState, SrvRecords: src/rn_async_state.c and src/rn_srv_records.c (`build`, `records_free`).
-- - Dns: the DNS callbacks of the client, `resolve` for `rn_resolve_srv` and `rn_resolve_addrs`,
--   `resolved` for the handlers of their answers, and `resolve_cancel`. Held, Launched, Answered and Once
--   follow what a lookup holds from its start to its end.
-- - Base: shared names, Boolean tests, lists of bytes, results with errors. Tests: concrete runs.
--
-- Conventions. Bytes and machine integers are natural numbers with the wrap-around of the code written
-- out; `ngx_msec_t`, `size_t` and `ngx_uint_t` have 64 bits. An array is a list. A compiled template is
-- its text, and rendering it is a function of the environment (`Env`). The outcome of an
-- allocation is a Boolean of the environment. The C client's requests are numbers, its functions
-- (`start_request`, `derive_bucket_id`, `deadline`) belong to the environment, and the calls that a
-- request makes are recorded in order in its state. All loops but one are structural recursion on the list or the
-- count that the code runs over. The loop of `udp_read_handler` is endless in the code and runs on fuel;
-- 64 is enough, since it stops after as many datagrams. What is obtained from the system (blocks,
-- sockets, connections, clients, resolver contexts) is a number, and each kind is counted in a
-- `Memory`. The steps of a process are not restricted to those that the client and nginx can really
-- cause, except that the timer of the rebind event fires only when it is set, and that a callback which
-- resumes the phases and the run of the handler that follows are two steps.
--
-- Not modelled: the contents of datagrams, which the C client makes and reads; log texts and the hexadecimal identifiers in them; the registration of the variable and the
-- module's context, which nginx reads; the erasure of the secret before it is freed; null pointers that no
-- caller passes; and the fault injection of test builds, which is off.
mod Base
mod Tests
pub mod Numeric
pub mod ResolvConf
pub mod AddrRecords
pub mod Duration
pub mod Policy
pub mod Conf
pub mod Worker
pub mod Request
pub mod System
pub mod Memory
pub mod SrvRecords
pub mod AsyncState
pub mod Dns
