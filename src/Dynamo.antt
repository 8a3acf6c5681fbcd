-- ===== src/Dynamo.antt =====
-- The DynamoDB side: the client that the AWS SDK provides, and the polling watcher of
-- seaplane-dynamo/dynamodb.
pub mod Client
pub mod Shard
pub mod Cache
pub mod Polling
pub mod Watcher
pub mod Adapter
