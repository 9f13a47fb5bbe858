-- ===== src/Database.antt =====
-- A tenant's database is created and migrated: rabbitmq/database-creation.consumer.ts and
-- prisma/tenant-migration.service.ts.
pub mod Statements
pub mod Identifier
pub mod Checksum
pub mod Commands
pub mod Creation
pub mod TenantMigration
