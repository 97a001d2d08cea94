-- ===== src/Tests/Translation.antt =====
-- Runs of the whole frontend on small files.
use mos_agondev.Prelude.{List, [], drop, none}
use mos_agondev.Text.{Str, codes, split_lines}
use mos_agondev.Zds.Records.{Translation}
use mos_agondev.Errors.{Result, err, ok}
use mos_agondev.Zds.Translate.{translate}

abbrev digest : Str → Str
digest s = codes "0123456789abcdef"

abbrev source : Str
source = codes "loop: ld hl,de\n$x: jr $f\n$$: jp $x\n SEGMENT data\nbuf ds 2 ; b\n"

abbrev body_of : Result Translation → List Str
body_of (ok t) = drop 5 (split_lines t.text)
body_of (err e) = []

abbrev outcome : Result (List Str)
outcome = elim (translate digest (codes "m.asm") source none none (codes "v")) [
  | ok t ↦ ok (drop 5 (split_lines t.text))
  | err e ↦ err e
]
