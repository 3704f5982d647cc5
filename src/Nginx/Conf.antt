-- ===== src/Nginx/Conf.antt =====
-- internal/nginx/conf.go: the names that go into the nginx configuration, and the views of origins
-- and behaviors that its text is written from.
pub mod Hops
pub mod Names
pub mod Views
pub mod Writers
