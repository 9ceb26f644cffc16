-- ===== src/Lib.antt =====
-- The storage engine of this repository: a key-value store that logs every write to segment files,
-- keeps the newest values in a memtable, flushes the memtable to sorted table files, and merges those.
-- The model covers the file formats, the algorithms on them, and the database over a directory whose
-- calls may fail; paths are from the repository's root.
--
-- The parts and their files:
--   Prelude     shared names; tests on the native numbers, lists, the order on byte strings
--               (`bytes.Compare`), big-endian words (`encoding/binary`) and `io.ReadFull`.
--   Checksum    CRC-32 (`hash/crc32`, IEEE) and FNV-1a (`hash/fnv`), bit by bit.
--   Record      internal/record/record.go: `EncodeAt` and `Decode` are `encode_at` and `decode`.
--   Segment     internal/store/segment.go: `scanSegment` with its callback, and `sortIDs`.
--   Manifest    internal/store/manifest.go: the payload and its two versions, and the checks on ids.
--   Bloom       internal/bloom/bloom.go: the filter of a table.
--   Sstable     internal/sstable: the record format; Sstable/Writer is writer.go with the loop of
--               `flushMemtable` that calls it, Sstable/Reader is reader.go.
--   Merge       internal/store/scan.go and sst_compact.go: the merge of the memtable and the tables by a
--               heap, for range scans and for the compaction of tables.
--   Disk        a directory: segment files, tables and the manifest, and the calls on them, each of which
--               may fail, or fail with a part of its effect; a process that is killed is one whose
--               remaining calls all fail.
--   Memtable    the operations of the memtable that the store uses and the laws it relies on, as a record;
--               Memtable/Sorted and Memtable/Parts are about sorted lists of entries.
--   Art         internal/art: the radix tree, `Insert`, `Get`, `Len` and `Iterator` of tree.go over the
--               nodes of node.go, node4.go, node16.go, node48.go and node256.go; Art/Shape says which
--               trees are well-formed, and Art/Store fills the record of Memtable with the tree.
--   Db          internal/store/store.go and flush.go, and `CompactSSTables` of sst_compact.go: the state
--               of an open store and its reads are in Db, `flushMemtable` in Db/Flush, `Set`, `Delete`
--               and the rollover in Db/Write, `Open` in Db/Open and Db/Replay, the merge of the tables in
--               Db/Compaction; the other files of Db relate the state to the files.
--   Proto       internal/proto/resp.go, `writeCmd` of client/client.go, and the reply of the server
--               to SCAN (internal/server/server.go): the wire protocol.
--   Server      internal/server/server.go: the commands of a connection and their answers, over an
--               interface of the database, beside the requests of client/client.go; Server/Backend
--               fills the interface with the store.
--   Tests       runs on small inputs, and each theorem at a concrete input.
--
-- The parts meet in bytes: a segment is a list of records, a table a list of entries with a filter and
-- an index behind it, and a scan merges the iterators of the tables. A file is the list of its bytes; a
-- byte is a number below 256 where a theorem needs it. A machine word keeps its wrap-around written
-- out. A nil slice is `none` where the code tells it from an empty one. Errors are values.
--
-- Loops over a file run on fuel, one more than the bytes of the file: every round reads a record, which
-- takes bytes. The binary search runs on the length of the index, and a merge on the number of all
-- entries.
--
-- In the database a file system call takes the next fault from a list; several calls that write one file
-- one behind the other are one call, which is torn after any number of bytes. Temporary files are left
-- out, because nothing reads them. The id counters wrap at 2 ^ 32; the counts of keys and bytes do not
-- wrap. The memtable is a parameter with the operations and laws of Memtable, which the tree of
-- internal/art fills (`art_memtable`). Its keys are those with no byte 0 and of at most 64 bytes: the tree
-- keeps the end of a key under the byte 0 of a node, and 64 bytes of a node's prefix. The children of a
-- node are a list in the order of `forEach`; their places in the arrays of the node are left out.
--
-- Not modelled: `Compact` of internal/store/compaction.go, `Close`, `Delete` of the radix tree, the
-- connection of a client; read errors of the disk other than short files; file names of another form
-- than the store gives; locks and goroutines; sockets, flags and the console. Offsets in a file stay below
-- 2 ^ 63.
pub mod Prelude
pub mod Checksum
pub mod Record
pub mod Segment
pub mod Manifest
pub mod Bloom
pub mod Sstable
pub mod Merge
pub mod Disk
pub mod Memtable
pub mod Db
pub mod Proto
pub mod Server
pub mod Art
pub mod Tests
