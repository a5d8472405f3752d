-- ===== src/Lyrics.antt =====
-- internal/lyrics: the files that hold the lyrics.
pub mod Slugs
pub mod Contents
pub mod Files
pub mod Writer
pub mod Operations
pub mod Atomicity
