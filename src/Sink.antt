-- ===== src/Sink.antt =====
-- api/kafka_sink.py and the payload of api/schemas.py: alerts go from Kafka to the database, and what
-- cannot go there goes to the dead letter queue. `Payload`, `Offsets`, `Batch` and `Loop` model the
-- code; the other modules prove.
pub mod Payload
pub mod Offsets
pub mod Batch
pub mod Loop
pub mod Bounds
pub mod Intake
pub mod Safety
pub mod Settled
pub mod Delivery
pub mod Rows
pub mod Rotation
