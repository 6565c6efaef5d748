-- ===== src/Lib.antt =====
-- A model of rohmu, the library that moves files between a host and an object storage, and what is
-- proved of it.
--
-- The data path. A file is encrypted by `Encryptor` (Encryptor.antt) and decrypted by `Decryptor`
-- (Decryptor.antt), both of rohmu/encryptor.py; what they take from the `cryptography` package is the
-- record in Crypto.antt, with its documented behaviour as named laws. Two frames feed them: `Sink`,
-- which pushes bytes to a next sink (Sink.antt, of rohmu/filewrap.py, with `DecryptSink` in
-- DecryptSink.antt, of rohmu/encryptor.py), and `Stream`, which pulls them from a source (Stream.antt, of
-- rohmu/filewrap.py).
--
-- `DecryptorFile` (DecryptorFile.antt, with the caller's calls in DecryptorFile/Calls.antt, of
-- rohmu/encryptor.py) reads a sealed file at any place, and `EncryptorFile` (EncryptorFile.antt, of the
-- same file) makes one of what is written to it.
--
-- The transfers. `TransferPool` (TransferPool.antt, of rohmu/transfer_pool.py) keeps the transfers that a
-- factory makes in caches, one for each configuration, and gives them out as handles; the factory and
-- the text of a configuration are parameters. What a thread does under the mutex is one step, and so are the
-- parts of a handle's return around it (TransferPool/Users.antt).
--
-- The snapshots. `Snapshotter` (Snapshotter.antt, of rohmu/delta/snapshot.py) keeps two tables of shared
-- files, so its files stand in a store and the tables hold positions; Snapshot.antt is a run of its
-- `snapshot` over a source and a destination tree, of which the source may have changed when its files are
-- looked at, and Delta.antt the meter and the limited file of
-- rohmu/delta/common.py. Util.antt is rohmu/util.py: batches, the concatenation of files, the counting
-- wrapper and the growing of pipes.
--
-- The watches. Inotify.antt is rohmu/inotify.py: the parsing of an event buffer, and what an event does to
-- the tables and the queue of `InotifyWatcher`; the decoding of names is a parameter.
--
-- The storages. Storage.antt is what every storage has from rohmu/object_storage/base.py: keys under a
-- prefix, the adapters of progress callbacks, the choice of a multipart upload, and listing and deletion
-- over the operations that a storage gives.
--
-- Amazon S3. S3.antt, with its children, is rohmu/object_storage/s3.py: the requests that an `S3Transfer`
-- sends, the reply to each, and the state that its methods work on (S3.antt); the multipart upload and
-- the storing of files (S3/Multipart.antt); copying, deleting, listing and fetching (S3/Objects.antt);
-- concurrent uploads (S3/Concurrent.antt); and the making of the client and of the bucket
-- (S3/Setup.antt). The botocore client and the service behind it are one function, a parameter, from a
-- request and a state to a reply and the next state; a reply is a response, a `ClientError` with its
-- HTTP status, or another exception. A source may give less than a read asks for (Storage/Readers.antt).
--
-- The host's files. Local.antt, with its children, is rohmu/object_storage/local.py: the state of its methods
-- and the calls that it makes of the host (Local.antt), storing, deleting and fetching
-- (Local/Objects.antt), copying and listing (Local/Listing.antt) and concurrent uploads
-- (Local/Concurrent.antt). Disk.antt is what the language's own calls do to paths, files and directories;
-- JSON, SHA-256, temporary names, times and uuid4 are the record `Runtime`, a parameter.
--
-- Google's storage. Google.antt, with its children, is a part of rohmu/object_storage/google.py: the stream
-- behind a resumable upload (Google/Uploading.antt), the download of a byte range
-- (Google/Downloading.antt) and the retries and error handling around requests (Google/Retries.antt);
-- the transport is a parameter.
--
-- How the code is read. Bytes are lists of numbers. A method that may raise returns an `Outcome`: a
-- value, an exception (`Error`, of rohmu/errors.py and the built-in ones) or `diverge`, beside the state
-- that it leaves, since what was written before an exception stays written. A `while` loop takes its
-- rounds as a bound, and `diverge` is what it comes to when they are used up; each such loop, but
-- that which discards bytes on the way to a seek's place in `DecryptorFile`, has a theorem that the bound
-- is enough: the length of the buffer for `_write_to_next_sink`, what is left of
-- the source for `Stream.read`, two rounds for the file header in a
-- sink and three in a `DecryptorFile`, one for each byte of a sealed file that is read to its end, two rounds for each file of a
-- concatenation, one round for each byte of an event buffer, one for each element of what is
-- cut into batches, one for each byte of what is read for a part or uploaded in parts, one for each byte
-- of a body that is fetched, one for each page of a listing,
-- one for each byte of a file that is stored or fetched locally, one for each directory on the way
-- down in a local listing, and one for each byte of a range that is downloaded.
--
-- What is not modelled. The globs and the iteration of `Snapshotter` (the trees hold what they find, in
-- order), log lines, the warning of a handle that is never returned, the stream that wraps an
-- encryptor, the compression, the listing, copying and deleting of Google's storage, the other storages, the
-- factory, the notifier and the statistics.
pub mod Base
pub mod Sink
pub mod Stream
pub mod Crypto
pub mod Encryptor
pub mod EncryptorFile
pub mod Decryptor
pub mod DecryptSink
pub mod TransferPool
pub mod Util
pub mod Delta
pub mod Snapshotter
pub mod Snapshot
pub mod Storage
pub mod Inotify
pub mod S3
pub mod Disk
pub mod Local
pub mod Google
pub mod DecryptorFile
pub mod Examples
