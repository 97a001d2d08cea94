-- ===== src/Tests/Values.antt =====
-- Runs of the functions on literals and section definitions.
use mos_agondev.Prelude.{list_beq, refl, ◌≡◌}
use mos_agondev.Text.{codes, is_space}
use mos_agondev.Zds.Values.{canonical_equate_value, rewrite_literals_and_locations}

literals_run :
    rewrite_literals_and_locations (codes "ld a,%1F+0ah*101b-$ \"$\"")
    ≡ codes "ld a,0x1F+0x0a*0b101-. \"$\""
unfolding rewrite_literals_and_locations list_beq
literals_run = refl

-- a `%` behind a letter, a digit or `_` is left
percent_run : rewrite_literals_and_locations (codes "a_%10 b%10 %10") ≡ codes "a_%10 b%10 0x10"
unfolding rewrite_literals_and_locations list_beq
percent_run = refl

canonical_run : canonical_equate_value (codes " 0FFh + %aB ") ≡ codes "0x0ff+0xab"
unfolding canonical_equate_value is_space list_beq
canonical_run = refl
