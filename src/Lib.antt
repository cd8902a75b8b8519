-- ===== src/Lib.antt =====
-- A model of the core of cc-backend: the in-memory metric store with its write-ahead log, and the
-- cluster configuration and node lists of the job archive.
--
-- The metric store keeps the samples of each metric of each node, core or socket in a chain of
-- buffers, and the chains in a tree of levels that is walked by a selector (cluster, host, ...).
-- Samples come in as lines, go to the tree and, for the case of a crash, to a log that is replayed
-- at the next start. Buffers that are too old, or too many, are freed into a pool.
--
--   Common    Boolean tests and lists over the native numbers, and the integers. An int or int64 of
--             Go is an integer without bounds: no operation here is exercised near 2^63, except
--             in the log, where the two's complement of a timestamp is written out (Bytes).
--   Bytes     byte strings and little endian numbers
--   Buffer    pkg/metricstore/buffer.go. A chain is the list of its buffers from the head along
--             `prev`; the reader keeps the buffers that `next` leads to in a second list (Read).
--             Write, Chain and Keep are about a write, Refine is the map from timestamps to values
--             that a chain stands for, Read/Values and RoundTrip say what a reader gets, and Free
--             has the two ways of freeing.
--   Level     pkg/metricstore/level.go. A level has its children by name and a chain for each
--             metric; a pointer to a level is the path to it. Create is about findLevelOrCreate,
--             Free about the sweeps over the tree (Free/Books counts the buffers, Free/Left and
--             Free/Oldest say what is left), Visit about the walks that change nothing.
--   Store     pkg/metricstore/metricstore.go: WriteToLevel, which writes into the tree (Keep), and
--             loadFile and toCheckpointFile of pkg/metricstore/checkpoint.go, which put a snapshot into
--             it (Load) and take one of it (Save; Archived says when there is none, Restored what
--             comes back). What make yields for a float is a parameter of Save.
--             Replay is loadWALFile of pkg/metricstore/walCheckpoint.go with its cache of levels:
--             Replay/Writes compares it with WriteToLevel, Replay/Crash goes from the log of a
--             run that stopped anywhere to the tree at the next start.
--   LineProtocol  pkg/metricstore/lineprotocol.go: DecodeLine. A line is what the decoder of the
--             library yields for it; the metrics of the store, the clock, the Unix seconds of a
--             time and the bytes behind a buffer in its array are parameters. Data has the types,
--             Reorder is about the buffers of a type, Tags about the order of the tags, Route says
--             under which cluster and node a sample is stored (from Scan, on the tags of a line,
--             Kept, on what a line leaves for the next, and Safe, on the test of a path component),
--             and Ingest puts a batch into the tree.
--   ScopeQuery   pkg/metricstore/scopequery.go: BuildScopeQueries and its helpers. The scopes and
--             the topology come from the package cc-lib and are parameters.
--   HealthCheck  pkg/metricstore/healthcheck.go: Grades says which metrics are found healthy and
--             degraded, and which state a node gets.
--   Wal       pkg/metricstore/walCheckpoint.go: the records of the log, their writer
--             (writeWALRecordDirect) and reader (readWALRecord, parseWALPayload), and the records
--             that loadWALFile takes from a file. Snapshot has the binary snapshots: their writer
--             (writeBinarySnapshotFile) and loadBinaryFile up to its call of loadFile. Shard is the
--             loop of WALStaging as far as one host goes: a list of events, over the file on the disk
--             and the writer open on it. Shard/Invariant says what the two hold, Shard/Durable
--             what a load reads after a crash or a flush. Channels has SendWALMessage and the channels
--             of the shards, with Order on their messages.
--   NodeList  pkg/archive/nodelist.go. Print has PrintList and NodeCount, Parse has ParseNodeList,
--             Decimal the numbers with leading zeros, and Member relates Contains to PrintList.
--   ClusterConfig  pkg/archive/clusterConfig.go: the tables that initClusterConfig makes, with Users
--             on the metrics that users see, Lookup with the functions that look something up in
--             the tables, Lists on the node lists, and Assign on AssignSubCluster.
--   Auth      internal/auth: users, sessions and requests. Token has the claims of tokens
--             (jwtHelpers.go) and AuthViaJWT (jwt.go), Api the handlers of auth.go in front of the
--             pages and interfaces as the list of the calls that they make, Grants whom they let
--             through, Jobs SecurityCheckWithUser of internal/repository/jobQuery.go, where a query
--             is the test that its conditions are, and Access fits the two together. Login has Login
--             with its limiters of attempts, Limits what a limiter sees of a run, and Ldap the Sync
--             of ldap.go, with Marks on its map of users and Steps on the calls that it makes.
--   Archiver  internal/archiver/archiveWorker.go: the worker, TriggerArchiving and Shutdown as steps
--             on the channel, the counter of pending jobs and the worker, taken in any order. Runs
--             has what holds in every state, Drain the shutdown. A send on a closed channel and a
--             second close, which panic, are no steps.
--   Maps      maps with strings for keys, as ClusterConfig and Auth have them
--
-- What the code takes from elsewhere is a parameter: schema.Float with its NaN and addition is the
-- record Floats of Buffer, the bits of a float32 and the CRC are the record Encoding of Wal (for
-- the floats of the store, Codec of Store/Replay), with the laws that the proofs use as fields. The
-- tests of a scope and the maps of a topology in ClusterConfig are parameters too. In Auth the roles
-- of schema are the record Schema with their laws, the values of claims and the reader of tokens the
-- record Tokens, and the table of users, the authenticators, the cookies, the limiters and url.Parse
-- are parameters. strings.CutPrefix, strings.Cut, strings.Split and strconv.ParseInt are written out in
-- NodeList, for the arguments that it passes.
--
-- Loops are recursions on their data. Three have fuel: the replay of the log, the reader of a
-- snapshot and the loop of ParseNodeList over a term take a byte in each round, so that the length
-- of their input is enough.
-- `read` runs over the slice that its caller allocates and panics past its end; Read shows when
-- the slice is long enough.
--
-- Not modelled: locks and goroutines (an operation runs alone; Wal/Channels, Auth/Limits and Archiver
-- take the operations in any order), the order in which Go walks a map (a sweep takes the children in
-- the order of the list, and a map of ClusterConfig or Auth has the order in which its keys were set),
-- input and output, and the rest of the program, which builds SQL statements, serves HTTP or calls
-- libraries: of internal/auth also what the authenticators do, and of internal/archiver ArchiveJob,
-- which calls the stores and the archive. A crash keeps what was handed to the file, and a write, a
-- flush or a removal in Wal/Shard does not fail. No call of the table of users fails in Auth/Ldap.
pub mod Common
pub mod Bytes
pub mod Wal
pub mod Maps
pub mod NodeList
pub mod Buffer
pub mod Level
pub mod ScopeQuery
pub mod HealthCheck
pub mod Store
pub mod LineProtocol
pub mod ClusterConfig
pub mod Auth
pub mod Archiver
