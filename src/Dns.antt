-- ===== src/Dns.antt =====
-- 2.3.1-Coroutine/async_dns_client_noblock.c: a DNS client that sends queries over UDP and reads
-- the answers from an epoll loop. The messages, and the functions that write and read them.
mod Tests
pub mod Request
pub mod Name
pub mod Response
pub mod Client
