-- ===== src/Gateway/RoomDirectory/Located.antt =====
-- A room that was created can be joined, at the place where it was assigned.
use netcourier.Prelude.{string_eq}
use netcourier.Dict.{Dict}
