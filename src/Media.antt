-- ===== src/Media.antt =====
-- apps/api/app/media and apps/api/app/services/videos.py: what the clients are served.
pub mod PythonInt
pub mod Ranges
pub mod Span
pub mod Requests
pub mod Feed
