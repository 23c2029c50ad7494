-- ===== src/Lib.antt =====
-- The MEGA SDK client engine: the parts that turn files, names, attributes and records into what is
-- stored and sent, and read them back.
--
-- The parts, from the bottom, with the file of this library and the file of the repository:
--   Prelude       helpers: Booleans, lists, bits of bytes, C strings, well-founded order.
--   Int           signed integers, and their conversion to and from 64 unsigned bits.
--   Hex           src/megaclient.cpp (hexval), src/filesystem.cpp (islchex): hexadecimal digits.
--   Base64        src/base64.cpp: to64, from64, atob, btoa.
--   Serialize64   src/serialize64.cpp: numbers with a length byte.
--   Chunks        src/utils.cpp (ChunkedHash): the chunks of a transfer.
--   Crypto        the block cipher, a record of operations and laws; Crypto/ShiftCipher is one that has
--                 the laws. The cipher itself is a library's.
--   Cipher        src/crypto/cryptopp.cpp (SymmCipher): the counter mode with the MACs of chunks, over the
--                 encryption of single blocks.
--   PaddedCbc     src/utils.cpp (PaddedCBC): padding of records, over Crypto.
--   DbTable       src/db.cpp, include/mega/db.h: encrypted records and their identifiers, over PaddedCbc
--                 and a store that is a record of operations and laws.
--   Backoff       src/backofftimer.cpp: retry timers.
--   FsNames       src/filesystem.cpp (FileSystemAccess): names the local file system can hold.
--   Http          src/http.cpp: the receive buffer of a request (HttpReq), the tracking of outages (HttpIO).
--   Json          src/json.cpp: the scanner of API responses, over Base64 and Hex.
--   Command       src/command.cpp, and Request::get of src/request.cpp: the text of API commands, and the
--                 arrays of src/sharenodekeys.cpp, which Json reads.
--   ShareKeys     src/sharenodekeys.cpp: the keys of nodes for their shares, put out with Command.
--   AttrMap       src/attrmap.cpp: node attributes, binary and as JSON that Json reads.
--   FileIo        src/filesystem.cpp (FileAccess): reading a file, if it is unchanged.
--   FileChunks    src/http.cpp (HttpReqUL, HttpReqDL) and src/transferslot.cpp (macsmac): the chunks of a
--                 file, encrypted and sent, or received and written, over Cipher and FileIo.
--   FileKey       src/transferslot.cpp, src/crypto/cryptopp.cpp (setkey), src/megaclient.cpp: the key of a
--                 file node, made by an upload and read by a download.
--   Transfer      src/transferslot.cpp (doio), in Transfer/Slot: the state machine of a transfer, over
--                 FileChunks, Chunks and Backoff; src/transfer.cpp (failed, complete) and src/file.cpp
--                 (failed), in Transfer/Files: what becomes of its files, over Fingerprint;
--                 src/megaclient.cpp (moretransfers, slotavail), in Transfer/Dispatch: starting more.
--   ApiChannel    src/megaclient.cpp (exec, the client-server channel; wait, abortbackoff): posting the
--                 commands and repeating them until they are answered, over Backoff and Command.
--   NodeTree      src/megaclient.cpp (checkaccess, checkmove, proctree), src/node.cpp (isbelow),
--                 src/treeproc.cpp: the tree of nodes; in NodeTree/Rename also src/node.cpp (setparent) and
--                 src/megaclient.cpp (rename, notifynode): the move of a node.
--   SyncCache     src/sync.cpp (statecachedel, statecacheadd, cachenodes): the state cache of a
--                 synchronized folder, over DbTable and Records.
--   Records       src/share.cpp, src/user.cpp, src/node.cpp (Node, LocalNode): the records of the local
--                 cache, over AttrMap and Serialize64.
--   Fingerprint   src/filefingerprint.cpp: fingerprints of files, over Base64 and Serialize64.
--
-- How the code is read: a buffer with its length, and a NUL-terminated text from a pointer on, is the
-- list of its bytes as numbers below 256; peek is the byte at the pointer, 0 at the end, and next
-- moves it. An operation that moves a pointer or changes an object returns the new one with its
-- result. Unsigned arithmetic of the source is taken modulo its width (u8, u16, u32, u64) where it can
-- wrap. A `char` is a number from 0 to 255; where its sign matters (hexval, getnameid) the definition
-- says so. Machine words in memory are little-endian, `time_t` has 64 bits. The connections of a
-- transfer slot are listed in the order of the loop of doio, from the last one to the first. Objects
-- that point to each other (NodeTree, SyncCache) are numbered, and what the pointers point to is a
-- function of the number.
--
-- Fuel: scan, the loop of storeobject, has a round for each character and one more, and every round
-- takes a character, so the outcome stuck is never reached. unserialize of AttrMap has as many rounds,
-- each of which takes at least one byte; past the end of its input it reads zeros. leaveobject has its
-- fuel as an argument, because the loop need not end. The decimal digits of n take at most n + 1
-- rounds, which is what decimal gives. ctr_crypt takes a round for each block of its data (rounds_of),
-- which is how often its loop runs. The loop of exec over the channel (ApiChannel) ends within two
-- rounds. The loops that go up the tree of nodes, and proctree, take a round for each level
-- (NodeTree). The loop of cachenodes takes at most one round more than the queue is long (SyncCache).
--
-- Parameters: the block cipher in CBC mode (Crypto) and on single blocks (Cipher), the store behind
-- DbTable, reading a file and the CRC-32 (Fingerprint), the content of uninitialised memory
-- (Fingerprint, Command, FileChunks), the calls of the file system (FileIo, Transfer/Files), the
-- network and the clock (the records World of Transfer and of ApiChannel, the latter with the commands
-- that handlers of results add), whether a public key is accepted (Records), and the nodes that the
-- client has (Records/LocalNodes), and the transactions of the store (SyncCache).
--
-- Not modelled: the handlers of results (procresult), which read with Json what is modelled here;
-- getfloat of JSON, because there are no floating point numbers here; the calls of the application and
-- of the file system that a transfer makes besides, and the setting of missing fingerprints and images
-- in Transfer::complete; the allocation of connections; the network, graphics, databases and platform
-- layers, which are calls of libraries; the server-client channel, the queues of transfers and the
-- keys in src/megaclient.cpp; and in src/sync.cpp what reads the state cache and scans directories.
pub mod ApiChannel
pub mod AttrMap
pub mod Backoff
pub mod Base64
pub mod Chunks
pub mod Cipher
pub mod Command
pub mod Crypto
pub mod DbTable
pub mod FileChunks
pub mod FileIo
pub mod FileKey
pub mod Fingerprint
pub mod FsNames
pub mod Hex
pub mod Http
pub mod Int
pub mod Json
pub mod NodeTree
pub mod PaddedCbc
pub mod Prelude
pub mod Records
pub mod Serialize64
pub mod ShareKeys
pub mod SyncCache
pub mod Transfer
