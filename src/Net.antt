-- ===== src/Net.antt =====
-- src/net: the network layer's own logic (the HTTP transport is not modelled).
pub mod RetryPolicy
pub mod SseParser
