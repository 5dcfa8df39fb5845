-- ===== src/Schema.antt =====
-- The schemas of DynamoDB tables: src/rc_dynamo/schema of python_packages/rc_dynamo.
pub mod Options
pub mod Findings
pub mod Failures
pub mod Values
pub mod Shape
pub mod Diff
pub mod Items
pub mod Sync
