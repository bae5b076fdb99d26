-- ===== src/Events.antt =====
-- src/infrastructure/bullmq/queue-events-bridge.ts and src/api/setup-ws.ts: how clients of the
-- WebSocket hear of their jobs.
pub mod Bridge
pub mod Socket
