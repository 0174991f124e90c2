-- ===== src/Lib.antt =====
-- dbrwproxy: a proxy that splits reads from writes, for MySQL and PostgreSQL.
--
-- A client connects to the proxy as to its main database. For each client the program runs two
-- loops: one copies what the main database sends to the client (`handleOutbound`), and one reads the
-- client (`handleInbound`). The latter hands each chunk to `delegateSelect`, which runs a SELECT
-- outside a transaction on a replica, chosen at random by weight, and writes the answer to the
-- client; every other chunk is written to the main database.
--
-- Which file models which part (paths from the repository's root):
--
--   Prelude         shared names, lists over native numbers, integers, decimal digits
--   Config          config/config.go: the records of the file and `ReadConfig`
--   Pool            pool/connectionPool.go: `ConnectionPool` with get, put, close, open_pool (`Open`)
--                   and the rounds of `reapIdleConns`. Pool/Ownership has the calls as a relation on
--                   the pool and what is outside it, Pool/Reaper the same with the reaper's rounds
--                   between the calls; Pool/Closing and Pool/Opening are about single operations
--   Proxy/Choice    `chooseByWeight` and the weighted entries, which proxy/mysql.go and
--                   proxy/postgres.go share
--   Proxy/Secondaries   `initMysqlDB` of proxy/mysql.go and `initDB` of proxy/postgres.go
--   Proxy/Statements    the patterns of `initRegexp`; Proxy/Session has the transaction flag and
--                   the log of a session, and Proxy/Kinds a description of statements by kind
--   Proxy/Outbound  `handleOutbound` of both files
--   Proxy/MySql     proxy/mysql.go: `handleInbound`, `delegateSelect`
--                   (whether `writeDataRow` returns is given there; Mysql/Query has what it does)
--   Proxy/Postgres  proxy/postgres.go: the same functions; Proxy/Postgres/Answer has
--                   `writeDataRow` and `prepareRowDescription`
--   Mysql           mysql/utils.go: length-encoded integers and strings (Mysql/Integers,
--                   Mysql/LengthEncoded) and the escaping of values (Mysql/Escape); the errors of
--                   mysql/errors.go. Mysql/Packets has `readPacket` and `readPacket1` of
--                   mysql/packets.go, and Mysql/Packets/Writing `writePacket`;
--                   Mysql/OldPassword has `pwHash` and `scrambleOldPassword` of mysql/auth.go
--   Mysql/Buffer    mysql/buffer.go: the slices of the read buffer, which of them are the same, and
--                   every function on them
--   Mysql/Connection    the state of a connection while it answers a query, of mysql/connection.go, and
--                   computations on it; Mysql/Fields and Mysql/Values read what packets of an
--                   answer hold, Mysql/Results and its Pairs the packets themselves
--                   (mysql/packets.go and mysql/rows.go), plainly and while relaying them
--   Mysql/Dsn       mysql/dsn.go: `ParseDSN` with `parseDSNParams` (Mysql/Dsn/Params) and `normalize`, and
--                   Mysql/Dsn/Format `FormatDSN`, whose children are about the way back; Text, Cutting and
--                   Numbers have what is used of strings, net, net/url and strconv
--   Mysql/Handshake `readHandshakePacket` and, in Response, `writeHandshakeResponsePacket` of
--                   mysql/packets.go, with the table of mysql/collations.go
--   Mysql/Auth      mysql/auth.go: `auth` (Mysql/Auth/Replies) and `handleAuthResult`
--   Mysql/Connector mysql/connector.go: the attributes of a connection, and `Connect`, which puts the
--                   handshake, the authentication and the parameters together
--   Mysql/NullTime  mysql/nulltime.go
--   Mysql/Dates     the dates and times of mysql/utils.go; Mysql/Dates/Format writes them, and
--                   Mysql/Dates/Agree compares the ways to a time
--   Mysql/Interpolate   `interpolateParams` of mysql/connection.go
--   Mysql/Columns   what mysql/rows.go and mysql/fields.go report of the columns
--   Mysql/Query     `query1` of mysql/connection.go and `writeDataRow` of proxy/mysql.go above it, with
--                   Mysql/Query/Commands and Params for the commands whose answers are not relayed,
--                   and Mysql/Query/Infile for mysql/infile.go.
--                   Mysql/Query/Answer, Asking, Rows and Complete are about a complete answer,
--                   Rounds and Delivery about every answer, Endless about one that breaks off
--
-- Conventions. A connection, a pool of a session or a `*sqlx.DB` is a number, and a session's pools
-- stand in a list that it indexes. A []byte or string is a list of numbers below 256. What the
-- environment decides is an argument: the outcome of a `Connect` or a write, the number that
-- rand.Intn draws, and what a read returns. `handle_inbound` runs over the list of rounds that the
-- environment grants, so it needs no fuel; the loops of the pool are recursion on the rounds left,
-- as the code computes them. Reading a packet has one round of fuel for each byte of the stream and
-- one more, writing one for each byte of the payload and one more: a round takes at least a header,
-- or the whole payload, or 2 ^ 24 - 1 bytes of it. A Go int keeps its wrap-around where the code
-- converts a uint64 to it; a panic is `none`, `panic` or the status `panicked`.
--
-- Not under verification, and parameters: the operating system, the YAML package, database/sql,
-- sqlx, pgproto3, the registers of the package mysql, and the server. In the place where a pool is made
-- the parse of a DSN is an argument, which Proxy/Secondaries/Dsn puts together with Mysql/Dsn. So
-- are what time.ParseDuration, Duration.String and time.LoadLocation give, for a DSN; SHA-1,
-- SHA-256, RSA and the reading of keys, for the authentication; and the outcome of the handshake of
-- TLS. A *time.Location is its name, a public key its text, and a time.Time what time.Date was given.
--
-- A packet of an answer is read for the bytes that it has: the spare capacity of its slice, into
-- which a slice expression could reach, is taken to be none. The loops of Mysql/Results and
-- Mysql/Query run on fuel, and `stuck` says that it ran out: a complete answer takes as much as it
-- has columns, or rows, and one more. What `Read` of a socket
-- returns is the list of arrivals of Mysql/Buffer; Mysql/Packets reads from a list of bytes.
--
-- Parameters as well: the conversions of strconv and `parseDateTime` in a row, and for
-- `handleInFileRequest` the registers, the files and the reads. The functions that read an answer take
-- `handleInFileRequest` as an argument, so that a theorem can be about answers without it.
--
-- Not modelled: main.go (flags, signals); `StartMysql`, `StartPostgres` and `service` (sockets and
-- goroutines, without a decision of their own); of the package mysql the dialling and the
-- watching of contexts in `Connect`, prepared statements, the functions that change the registers, and the
-- cancelation of contexts other than as an error that a read finds; and any two sessions at a time,
-- except for the calls of a pool.
pub mod Prelude
pub mod Config
pub mod Pool
pub mod Proxy
pub mod Mysql
