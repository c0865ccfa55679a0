-- ===== src/Lib.antt =====
-- A model of shex, a remote shell whose client and host meet in Redis, and what it is proved to do.
--
-- The parts, from the wire up, and the files that model them:
--   * Names and Keys: host names, printed ids and the names of the Redis keys
--     (src/redis_transport.rs, src/redis_store.rs).
--   * Redis: the commands that the program uses, as an interface with their laws, an instance in
--     memory (Redis/Memory), the three Lua scripts of src/redis_transport.rs (Redis/Scripts), and
--     what a party sees of Redis (Redis/World): a database that others change between its queries, a
--     network that loses queries or replies, and a clock. Keys with a limited life end while a sender sleeps between its
--     polls (`pass`), and at any query, as one of the changes of others.
--   * Transport: `RedisTransport` of src/redis_transport.rs, one mailbox for each direction. A sender
--     stores a frame only in an empty mailbox and polls until its deadline; a receiver waits for a
--     signal, reads, and removes the message when it acknowledges it. The processing lease is
--     Transport/Lease. Waiting for a signal is one step: `blpop` returns at the moment that ends it. A lease runs on a connection of
--     its own, so that its renewals are changes of others to an endpoint, which has the lease's key and value.
--   * Channel: src/channel.rs over any `FrameTransport`; Channel/RedisFrames puts it on `Transport`.
--   * Protocol: src/protocol.rs.
--   * Host: `HostListener` and the session lookups of src/redis_transport.rs.
--   * Shell: `ShellSession::run` and `completion_in` of src/server.rs; the `sh` process is a parameter.
--   * Server: `handle` of src/server.rs after the login, over any channel; the state that connections
--     share is `Server.Host`, and a session refers to its shell by its place in it. Server/Arrival is its
--     beginning, with the login and the channel over the transport. Server/Dropping is
--     about the end of a session, whose shell is killed with the last reference to it.
--   * Login: `client_login` and `server_login` of src/auth.rs over any `FrameTransport`, and in
--     Login/Registration `initialize` and `ServerCredentials::load`; the OPAQUE library is a parameter, with the
--     laws that a registration registers its code and that a registered code gives both parties one key.
--   * Files: a file system, with other processes that change it between the calls of the program, calls that
--     fail and writes that are torn; `still` is the case of a disk that only the program uses.
--   * Vault: `FileEntry` of src/credential_store.rs, the encrypted files of secrets with the key file that
--     they share.
--   * Credentials: the rest of src/credential_store.rs, the choice of the backend and its entries; `Secrets` is
--     what the next two use of it, and Credentials/Laws shows that every backend gives it.
--   * AuthFile: src/auth_file.rs. RedisStore: src/redis_store.rs.
--   * Startup: the start of `serve` in src/server.rs, over the disk and Redis.
--   * Prompts: what the prompts of src/main.rs make of the lines that are entered.
--   * Commands: the auth, connect, exec and close commands of `main` in src/main.rs, and in Commands/Servers its
--     redis and latency commands. They take the beginning of `client_channel` as an argument `dial`, which
--     Commands/Dial gives for one Redis: the transport, the login over it, and the channel.
--   * Latency: `measure_latency` of src/redis_transport.rs and `measure_host_latency` of src/main.rs.
--   * Client: `split_exec_args`, `client_channel`, `open_session`, `execute` and `interactive` of
--     src/main.rs, over any channel.
-- Result has the errors, and the methods that change a state and may fail: the state comes back beside
-- an error, since what was written before a failure stays written.
-- Tests holds runs on concrete inputs, and the theorems applied to them.
--
-- Texts are lists of bytes. Numbers are natural, with the bounds of the code's widths written out.
-- The sender's loop has fuel for every poll before its deadline, and one more, since each poll takes 20
-- milliseconds; the loop that reads a shell's output has fuel for each byte of the limit, since each line
-- has one; `read_until` on a shell that is alive and ends no line never returns, which is an error of the model
-- (`never_returns`), as it is for BLPOP without a timeout; what the model does behind such an error stands for nothing.
-- The loops of `handle` take their fuel as an argument: one round for each request, and one more.
--
-- The SCAN loop of `clear_session_lookups` has its rounds as an argument; `to_come` of Redis bounds them.
--
-- Redis, the ciphers and HKDF, OPAQUE, serde_json, SHA-256, the keyrings of operating systems, the `sh` process
-- and the random bytes are parameters.
-- Not modelled: the parsing of the command line, what is printed for the user by src/main.rs apart from the
-- sessions' output, the versions of the file helpers for other systems than Unix, and the loop and threads of `serve`.
pub mod Prelude
pub mod Result
pub mod Names
pub mod Keys
pub mod Shell
pub mod Redis
pub mod Transport
pub mod Channel
pub mod Login
pub mod Protocol
pub mod Host
pub mod Server
pub mod Files
pub mod Vault
pub mod Credentials
pub mod AuthFile
pub mod RedisStore
pub mod Client
pub mod Startup
pub mod Prompts
pub mod Commands
pub mod Latency
pub mod Tests
