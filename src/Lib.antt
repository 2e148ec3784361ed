-- ===== src/Lib.antt =====
-- A verification of wirebone, a Tailscale coordination server in C++: the logic that decides
-- which machine may join, which addresses it gets, whom it sees, and what is sent to it.
--
-- The parts and the files that model them:
--   * Prelude: the names all files share; `std::string` is a list of bytes (Prelude/Text),
--     signed integers and their casts (Prelude/Signed), `std::stoi` and `std::to_string`
--     (Prelude/Decimal), exceptions as values (Prelude/Faults, Prelude/Chain).
--   * Crypto: hex, key clamping, HMAC, HKDF and the AEAD wrappers of src/crypto.cpp. OpenSSL
--     is the record Primitives, whose laws are the lengths of results, that both sides of a
--     key exchange derive the same secret, and that opening inverts sealing. Crypto/Openssl has
--     the objects that the wrappers of X25519 make and free.
--   * Keys: src/keys.cpp, the prefixed key texts.
--   * IpAlloc: src/ip_alloc.cpp. inet_pton and inet_ntop are the record Inet.
--   * Json: what the program uses of nlohmann::json, the record JsonLib. `value` with an int
--     default gives an int, as it does in C++.
--   * Store: class Store of src/state.cpp. A member function takes a Store to an outcome and
--     the Store that it leaves, also where it throws. The file at path_, whether it can be
--     written, and the calls of the persist hook are fields of the model; the clock and random
--     bytes are arguments. Store/Codec is the JSON form, Store/Persist saving and loading,
--     Store/Keys the preauth keys, Store/Nodes the registry, and Store/Runs any sequence of
--     calls by the threads that share the Store, imports by load_json included (Store/Runs/Imports
--     has the texts that these take); Store/Runs/View is the abstract map from machine keys to
--     nodes that the calls step.
--   * Netmap: src/netmap.cpp, visibility, MapResponse and its frames. ZSTD_compress is an
--     argument.
--   * Noise: src/noise.cpp, the two sides of the Noise IK handshake. Noise/Records has class
--     NoiseConn, the records after it; Noise/Transport takes its two ends as one channel.
--   * Socket: read_full and write_full of src/noise.cpp, over a socket that gives and takes
--     any part of a buffer. What `recv` will find and how much `send` will take are fields of
--     the model. Socket/Opening has what opens a listening socket, with the descriptors that are
--     open, and std::thread.
--   * Dns: src/dns.cpp, the names in a packet and the replies of MagicDNS, which Dns/Questions
--     describes as bytes; Dns/Service its socket, its thread and its loop.
--   * Http2: src/http2_session.cpp, the streams, the answers and the data source that nghttp2
--     reads; Http2/Output what it sends through NoiseConn.
--   * Http1: src/http1.cpp, the request before the upgrade.
--   * Coordinator: src/coordinator.cpp. Control is the constructor and the wrappers of Impl,
--     Listen the addresses of its socket and listen_tcp, Lifecycle what starts and stops it and
--     the loop that accepts; Connection has handle_client and handle_ts2021, Client the thread
--     of a connection and who closes its descriptor, the destructor of NoiseConn included;
--     Session is the state of a connection, Requests reads the JSON of a request, Handlers has
--     on_register, on_map and the dispatch of serve_h2, Live its tick, and Serve the loop of
--     the connection, in whose rounds the answers of poll and nghttp2 are given. Calls, Served
--     and Connections take a connection as a run of the Store's calls.
--   * Cli: src/main.cpp, the options and the commands; Cli/Serving the command serve. CApi:
--     src/c_api.cpp, where a null pointer is `none` and an allocation that fails is an argument;
--     CApi/Running starts and stops a coordinator.
--   * Samples and Tests: small stand-ins for the three records, and every result at a concrete
--     input.
--
-- A Coordinator owns one Store. Each connection begins with an Http1 request, runs the handshake
-- of Noise with the Store's key, then an Http2 server; a register request consumes a preauth key
-- and registers a node in the Store, and a map request is answered by Netmap from the Store's
-- nodes.
--
-- Bounds: sizes and numbers are unbounded, except where the source has a machine integer, whose
-- wrap-around is written out; the loop of hkdf_blake2s runs on fuel that is the size of its
-- output, which is enough since each round writes at least one byte. The loop of read_full runs
-- on the bytes it wants and the loop of NoiseConn::write on the bytes it has, since each round
-- takes one at least; the loop of NoiseConn::read on the bytes that will arrive, since a record
-- takes three. The 16 rounds of parse_qname are the source's, and the 65537 of read_http_request
-- come from its limit of 64 KiB. All other loops are structural. The shift of 1u by 32, which an
-- IPv4 prefix of 0 asks for and C++ leaves undefined, takes its count modulo 32, as x86 does.
--
-- Not modelled: threads that run at once, and locks (a member function of Store is one step, which
-- the source ensures by a lock for all but consume_preauth, whose parts Store/Runs takes as steps of
-- their own); what the system and nghttp2 do inside, which is given as their answers; the memory
-- that the C interface allocates and frees.
pub mod Prelude
pub mod Crypto
pub mod Keys
pub mod IpAlloc
pub mod Json
pub mod Store
pub mod Netmap
pub mod Noise
pub mod Http2
pub mod Coordinator
pub mod Socket
pub mod Dns
pub mod Http1
pub mod Cli
pub mod CApi
pub mod Samples
pub mod Tests
