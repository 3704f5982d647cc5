-- ===== src/Nginx.antt =====
-- internal/nginx: the renderer of the nginx configuration, the file writer and the reloader.
pub mod Conf
pub mod Headers
pub mod Reloader
pub mod Render
pub mod Writer
mod Tests
