-- ===== src/Outbox.antt =====
-- backend/src/deskpilot/application/outbox_publisher.py: `OutboxPublisher` over the table of outbox
-- messages, with the claims by single updates. The table is the list of its rows; times are
-- numbers, and each call reads the database's clock once.
pub mod Rows
pub mod Publisher
pub mod Marks
pub mod Versions
pub mod Fencing
pub mod Order
pub mod Attempts
