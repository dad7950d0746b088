-- ===== src/Server.antt =====
-- What a worker keeps for its connections, and the transaction commands over it (src/astra/server
-- and src/astra/commands/redis/transaction_commands.cpp).
pub mod TransactionState
pub mod Transactions
pub mod Worker
pub mod Connection
