-- ===== src/Tests/Database.antt =====
-- The copy of a packet.
use model_lib.Base.{◌≡◌, some}
use model_lib.Packet.{zero_pack}
use model_lib.Work.Copy.{copy_sendpack, copy_sendpack-zero_pack}
use model_lib.Tests.{secret, from_alice, from_alice-HasStrings}

copy_sendpack-zero_pack_example :
    copy_sendpack zero_pack (from_alice secret) ≡ some (from_alice secret)
copy_sendpack-zero_pack_example = copy_sendpack-zero_pack (from_alice secret) from_alice-HasStrings
