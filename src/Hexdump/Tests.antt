-- ===== src/Hexdump/Tests.antt =====
-- A run of hexdump() of lib/util.c.
use daliserver.Common.{◌≡◌, refl, ◌∷◌, ◌++◌, [], arith}
use daliserver.Common.Hex.{codes, hex}
use daliserver.Hexdump.Read.{undump, undump-hexdump}
use daliserver.Hexdump.{hexdump, lines, columns}

two_lines :
    hexdump (codes "command and response")
    ≡ codes "0x00000000 63 6f 6d 6d 61 6e 64 20 61 6e 64 20 72 65 73 70 command and resp"
      ++ b'\n' ∷ codes "0x00000010 6f 6e 73 65 onse"
      ++ b'\n' ∷ []
unfolding hexdump lines columns hex
two_lines = refl

undump-hexdump_example :
    undump (hexdump (codes "command and response")) ≡ codes "command and response"
undump-hexdump_example = undump-hexdump (codes "command and response") (ground arith)
