-- ===== src/Storage.antt =====
-- The database behind database/: the connector, the tables of the schema and db_service.
pub mod Select
pub mod Tables
pub mod Connector
pub mod Transaction
pub mod Users
pub mod Friends
pub mod Rooms
pub mod Keys
pub mod Service
