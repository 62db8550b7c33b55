-- ===== src/Nats.antt =====
-- What the program takes from nats-py: the key-value buckets of JetStream.
pub mod KeyValue
pub mod Values
pub mod Memory
