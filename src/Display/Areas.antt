-- ===== src/Display/Areas.antt =====
-- The sizes of areas, and the pixels that belong to them, for the drivers of libucimf/display.
use ucimf.Prelude.{ℕ, ◌+◌, Bool, ◌&&◌, ltb, leb}
use ucimf.Prelude.Int.{pos_part, ◌-ℤ◌}
use ucimf.Display.{Area}

abbrev pub width : Area → ℕ
width a = pos_part (a.x2 -ℤ a.x1) + 1

abbrev pub height : Area → ℕ
height a = pos_part (a.y2 -ℤ a.y1) + 1

abbrev pub in_area : ℕ → ℕ → ℕ → ℕ → ℕ → ℕ → Bool
in_area x y w h i j = leb x i && ltb i (x + w) && leb y j && ltb j (y + h)

abbrev pub inside : Area → ℕ → ℕ → Bool
inside a i j = in_area (pos_part a.x1) (pos_part a.y1) (width a) (height a) i j
