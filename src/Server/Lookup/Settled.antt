-- ===== src/Server/Lookup/Settled.antt =====
-- The fallback of `BuyBreadStream`.
use bakery_go.Common.Floats.{Floats}
use bakery_go.Data.Db.{Db}
