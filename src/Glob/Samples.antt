-- ===== src/Glob/Samples.antt =====
-- Runs of the matcher on the inputs of its unit tests.
use weavatrix_scan.Common.{◌≡◌, refl, Bool, true, false, Option, none, some}
use weavatrix_scan.Text.{bytes}
use weavatrix_scan.Glob.{matches_plain, Memo}
use weavatrix_scan.Glob.Braces.{matches}

abbrev answer : Option (Bool × Memo) → Option Bool
answer none = none
answer (some (b, memo)) = some b

star_stays : answer (matches_plain (bytes "*.rs") (bytes "src/lib.rs")) ≡ some false
unfolding matches_plain
star_stays = refl

double_star_crosses :
    answer (matches_plain (bytes "src/**/generated.rs") (bytes "src/a/b/generated.rs")) ≡ some true
unfolding matches_plain
double_star_crosses = refl

negated_class : answer (matches_plain (bytes "[!a-c].rs") (bytes "z.rs")) ≡ some true
unfolding matches_plain
negated_class = refl

escaped_class : answer (matches_plain (bytes "file\\[1\\].rs") (bytes "file[1].rs")) ≡ some true
unfolding matches_plain
escaped_class = refl

nested_group : matches (bytes "{a,b{c,d}}.rs") (bytes "bd.rs") ≡ some true
unfolding matches
nested_group = refl

unclosed_group : matches (bytes "{a,b") (bytes "{a,b") ≡ some true
unfolding matches
unclosed_group = refl

class_hides_brace : matches (bytes "[{]x") (bytes "{x") ≡ some true
unfolding matches
class_hides_brace = refl
