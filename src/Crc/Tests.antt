-- ===== src/Crc/Tests.antt =====
-- The checksum of a short text.
use mangl.Prelude.{◌≡◌, arith, Bytes}
use mangl.Text.{codes}
use mangl.Run.{done}
use mangl.Crc.{crc32}
use mangl.Crc.Shift.{crc_bitwise, crc32-crc_bitwise}

abbrev text : Bytes
text = codes "ls(1)"

crc32-crc_bitwise_example : crc32 text ≡ done (crc_bitwise text 0)
crc32-crc_bitwise_example =
    crc32-crc_bitwise text
      (omega arith, (omega arith, (omega arith, (omega arith, (omega arith, tt)))))
