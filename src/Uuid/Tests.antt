-- ===== src/Uuid/Tests.antt =====
-- An identifier, and its text.
use opticon.Prelude.{◌≡◌, refl, some, arith}
use opticon.Prelude.Text.{codes}
use opticon.Uuid.{Uuid, mkuuid, uuid2str}
use opticon.Uuid.Text.{mkuuid-uuid2str}

abbrev host : Uuid
host = record { msb = 0x0123456789abcdef; lsb = 0xfedcba9876543210 }

uuid2str-host : uuid2str host ≡ codes "01234567-89ab-cdef-fedc-ba9876543210"
unfolding uuid2str
uuid2str-host = refl

mkuuid-uuid2str_example : mkuuid (some (uuid2str host)) ≡ host
mkuuid-uuid2str_example = mkuuid-uuid2str host (omega arith) (omega arith)
