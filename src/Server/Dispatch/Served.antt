-- ===== src/Server/Dispatch/Served.antt =====
-- server/main.py leaves no request without an answer.
use netcourier.Prelude.{nat_eq}
