-- ===== src/History.antt =====
-- The writers of historical data and the queries over it: pkg/querybuilder and
-- internal/plugins/providers/historical.
pub mod QueryBuilder
pub mod Snowflake
pub mod Parquet
