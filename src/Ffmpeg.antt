-- ===== src/Ffmpeg.antt =====
-- internal/infra/ffmpeg and internal/port/processor: how the programs ffmpeg and ffprobe are
-- called, and what is done with the files that they leave.
pub mod Commands
pub mod Probe
pub mod Processor
pub mod Files
pub mod Cleanup
