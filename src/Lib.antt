-- ===== src/Lib.antt =====
-- little-big-files: a store of many small XML files and ZIP packages in a few big append-only
-- segment files, with a metadata database per shard and a coordinator in front of the shards.
--
-- Bytes are numbers of the native ℕ in lists, with AreBytes where a theorem needs them below 256;
-- machine words wrap with `% 2 ^ w`. A method that changes state and may fail is a function from the
-- state to a result and the state after it, since what was done before an error stays done. Common
-- holds the lists, words, results, methods and maps that the other modules share, and rules for what
-- a method makes of a state (Common/Triple).
--
-- Storage (internal/storage)
--   Storage/Checksum      record.go RecordChecksum, and crc32.ChecksumIEEE of hash/crc32
--   Storage/Record        record.go: the record and footer format
--   Storage/File          os.File ReadAt and WriteAt on a file's bytes
--   Storage/Scan          segment.go truncateToValid; Storage/Scan/Tail is scanValidTail
--   Storage/Segment       segment.go SegmentManager: recover, openSegment, openSegmentFile
--   Storage/Segment/Append  appendLocked, appendDirect, batchAppend, finalizeLocked, Close
--   Storage/Segment/Read  ReadRecord
--   Storage/SegmentIndex  segment_index.go: entries, footer, Append, ReadIndexFile
--   Storage/BlobStore     blob_store.go: encodeRecord, StoreOrRef, storeNew, ReadBlob
-- Segment files are lists of bytes by segment id, each with the bytes that were last synced. Each file
-- operation but a read takes the next outcome of a schedule of failures; a failed write leaves any part
-- of its bytes in the file. An append to an index file takes the next outcome of another schedule; a
-- failed one leaves any bytes in it. When a schedule ends, operations succeed. SHA-256 and zstd are
-- parameters.
--
-- Dedup (internal/dedup)
--   Dedup                 entry.go, bloom.go, store_memory.go, index.go: the hot index of hashes
-- The Bloom filter of bits-and-blooms is a parameter, with no false negatives where a theorem needs
-- it.
--
-- Metadata (internal/metadata)
--   Metadata/Blobs        repo.go: content_blobs, by its primary key
--   Metadata/Tables       models.go and migrations/shard: packages, package_files, supplier_stats
--   Metadata/Transaction  repo.go: WithTx, and statements inside and outside of a transaction
--   Metadata/Transaction/Packages  CreatePackage, CreatePackageFile, IncrementRefCounts and the others
--   Metadata/Transaction/Queries   what the service reads and writes outside of a transaction
--   Metadata/Balance      the reference counts against the rows of package_files
-- Each round trip to the database takes the next outcome of a schedule of failures. A statement that
-- fails, by the schedule or by a key, aborts its transaction as PostgreSQL does: later statements and
-- the commit fail, and the tables are those of the beginning, but ids are not drawn again. A commit
-- that fails has rolled back. The lengths of columns and the encoding of texts are among the reasons
-- for which the schedule may fail a statement. StoreOrRef works on content_blobs inside a transaction,
-- and on the segments, the index files and the hot index, which a rollback leaves.
--
-- Ingestion (internal/ingestion, with recovery/journal_record.go)
--   Ingestion/Detect      detect.go: DetectPayload
--   Ingestion/Zip         detect.go: ForEachZipMember and the limits; archive/zip is a parameter
--   Ingestion/Service     the service with its journal and queue, stats.go, EntryFromPackage, Enqueue
--   Ingestion/Members     unpack_large.go: persistUnpackError, persistZipMembers
--   Ingestion/Package     package.go: ProcessPackage, clones, single files, small and large archives
--   Ingestion/Unpack      unpack_large.go: UnpackLargePackage, propagateUnpackToClones
--   Ingestion/Queue       unpack_worker.go: requests, workers and the recovery scan as steps
--   Ingestion/Balance     the transactions and methods keep the counts at least the rows
--   Ingestion/Returned    the package that ProcessPackage returns
-- One request or unpacking runs at a time between the steps that are modelled; what other processes
-- do to the database meanwhile is not. The variables that a transaction captures are a part of its
-- state. An error stands for its message, whose text is a parameter. The journal holds the entries
-- that were appended in whole. A step of the queue is one section under its mutex or
-- one operation of its channel, and any goroutine may come between two of them.
--
-- Diskspace (internal/diskspace)
--   Diskspace             free.go MinAvailableBytes
-- os.Stat and availableBytes are parameters; a number of free bytes is taken as not negative.
--
-- Coordinator (internal/coordinator, internal/globalid)
--   Coordinator/GlobalId  globalid/id.go
--   Coordinator/Repo      repo.go and models.go: the table shard_registry of migrations/coordinator
--   Coordinator/Registry  registry.go: sealing, activation, registration
--   Coordinator/Registry/Rotation  SealAndRotate, PatchShardState, CheckSeal
-- A transaction is a function from the table to a result and a table; one that fails leaves the table
-- as it was. Each call of the database takes the next entry of a schedule of failures, each request to
-- a shard the next answer, together with what other goroutines make of the table while it runs.
--
-- Bounds and fuel: the scans run on the length of the file plus one as fuel; a round that finds a
-- record consumes at least a byte, and the theorems on the scans are about that fuel.
--
-- The decimal number in the key of a file has 20 digits as fuel, enough for 64 bits; the search for
-- white space in front of a payload has the length of the payload.
--
-- Not modelled: the cache of read handles and the locks of the segment manager, whose methods run
-- under one mutex; errors of a read that is within a file; the write buffer; the lines of the
-- journal and the rebuild from index files; migrations, dictionaries and ClonePackageRefs; ProxyPost
-- and ProxyGet; HTTP, metrics, configuration, the commands under cmd, the Python client, scripts and
-- deployment.
pub mod Common
pub mod Storage
pub mod Dedup
pub mod Metadata
pub mod Ingestion
pub mod Diskspace
pub mod Coordinator
