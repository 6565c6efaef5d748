-- ===== src/Google.antt =====
-- rohmu/object_storage/google.py: the stream behind a resumable upload, the download of a byte range, and
-- the handling of errors around requests. The googleapiclient library and its transport are parameters.
pub mod Uploading
pub mod Positions
pub mod Retries
pub mod Downloading
pub mod Attempts
pub mod Chunks
pub mod Ranges
