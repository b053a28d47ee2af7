-- ===== src/Grades.antt =====
-- internal/web/frontend/src/lib/utils.js, without `cn` (two libraries), and the ladder that turns a
-- score into a letter, which ComplianceView.jsx names `gradeFromScore` and App.jsx writes twice.
use safe_dock.Common.{ℕ, ◌≡◌, arith, String, ltb, leb, if◌then◌else◌}

pub data Grade : Type 0 where
  a b c d f : Grade

-- `gradeFromScore`
unfoldable pub grade_from_score : ℕ → Grade
grade_from_score s =
    if ltb s 40
    then f
    else (if ltb s 60 then d else (if ltb s 75 then c else (if ltb s 90 then b else a)))

-- The classes of the style sheet, by their hue.
pub data Hue : Type 0 where
  emerald gold amber orange red : Hue

-- `gradeColor`: `text-…`
unfoldable pub grade_color : ℕ → Hue
grade_color s =
    if leb 90 s
    then emerald
    else (if leb 75 s
        then gold
        else (if leb 60 s then amber else (if leb 40 s then orange else red)))

-- `gradeBg`: `bg-…/10`
unfoldable pub grade_bg : ℕ → Hue
grade_bg s =
    if leb 90 s
    then emerald
    else (if leb 75 s
        then gold
        else (if leb 60 s then amber else (if leb 40 s then orange else red)))

-- `gradeLabel` on a known letter; any other gives 'Inconnu'.
unfoldable pub grade_label : Grade → String
grade_label a = "Excellent"
grade_label b = "Bon"
grade_label c = "Moyen"
grade_label d = "Faible"
grade_label f = "Critique"

-- `gradeStroke`: the hexadecimal colours, by their hue.
unfoldable pub grade_stroke : Grade → Hue
grade_stroke a = emerald
grade_stroke b = gold
grade_stroke c = amber
grade_stroke d = orange
grade_stroke f = red

-- Whatever the score, the colour of the number, the colour behind it and the colour of the gauge,
-- which is chosen by the letter, are one hue.
grade_color-grade_stroke :
    (s : ℕ) → (grade_stroke (grade_from_score s) ≡ grade_color s) × (grade_bg s ≡ grade_color s)
unfolding grade_color grade_bg grade_stroke grade_from_score
grade_color-grade_stroke s = ground arith
