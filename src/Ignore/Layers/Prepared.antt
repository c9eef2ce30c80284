-- ===== src/Ignore/Layers/Prepared.antt =====
-- `match_rules` and `match_prepared_rules` of src/ignore/mod.rs on a path that a traversal comes to.
use mathlib.Core.Path.{subst}
use weavatrix_scan.Common.{
  ◌≡◌, ◌≢◌, ◌↔◌, refl, sym, ap, ◌∙◌, Bool, true, false, Option, none, some, List, [], ◌∷◌, ◌++◌,
  Option-cases, inl, inr,
}
use weavatrix_scan.Text.{Bytes, slash}
use weavatrix_scan.Ignore.{RuleAction, ignore, include, RuleMatch, exact, ancestor}
use weavatrix_scan.Ignore.Rules.{set_matches}
use weavatrix_scan.Ignore.Layers.{
  IgnoreLayer, IgnoreRules, candidate_for_base, exact_below, match_below, layer_exact, layer_match,
  prepared_loop, match_loop, match_rules, visited, match_prepared_rules,
}
use weavatrix_scan.Ignore.Layers.Below.{
  under, candidate_for_base-under, under-candidate_for_base, under-append,
}
use weavatrix_scan.Ignore.Layers.Ancestors.{
  IsAbove, Says, set_matches-Says, set_matches-above, set_matches-exact,
}
use weavatrix_scan.Ignore.Layers.Precedence.{
  last_stated, ranked, IsIndexedAll, match_prepared_rules_lem, or_else,
}

IsAbove-under :
    (base above path : Bytes) → IsAbove above path → IsAbove (under base above) (under base path)
IsAbove-under base above path (rest, e) =
    (rest, ap (under base) e ∙ under-append base above (slash ∷ rest))

-- What a layer says of a path.
abbrev LayerSays : Bytes → Bool → IgnoreLayer → Option RuleMatch → Type 0
LayerSays path d layer none =
    (layer_exact path d layer ≡ none)
    × ((above : Bytes) → IsAbove above path → layer_match above true layer ≡ none)
LayerSays path d layer (some (exact action)) = layer_exact path d layer ≡ some action
LayerSays path d layer (some (ancestor action)) =
    (layer_exact path d layer ≡ none)
    × (above : Bytes) × IsAbove above path
    × (layer_match above true layer ≡ some (exact action))

-- Behind a directory with a part below the base, a path goes on from that part.
candidate_for_base-append :
    (base above part more path : Bytes)
    → candidate_for_base above base ≡ some part
    → path ≡ above ++ more
    → candidate_for_base path base ≡ some (part ++ more)
candidate_for_base-append base above part more path k e =
    let whole : path ≡ under base (part ++ more) =
      e
      ∙ ap (λ t. t ++ more) (under-candidate_for_base above base part k)
      ∙ sym (under-append base part more) in
    ap (λ t. candidate_for_base t base) whole ∙ candidate_for_base-under base (part ++ more)

-- A layer says nothing of a directory if it says nothing of the paths in it.
layer_match-above :
    (layer : IgnoreLayer) (path above : Bytes)
    → ((part candidate : Bytes)
        → candidate_for_base path layer.base ≡ some candidate
        → IsAbove part candidate
        → set_matches layer.rules part true ≡ none)
    → IsAbove above path
    → layer_match above true layer ≡ none
layer_match-above layer path above quiet (rest, a) =
    elim (Option-cases (candidate_for_base above layer.base)) [
      | inl k ↦ rw k refl
      | inr (part, k) ↦ rw k (
          quiet part (part ++ (slash ∷ rest))
            (candidate_for_base-append layer.base above part (slash ∷ rest) path k a) (rest, refl))
    ]

inside-LayerSays :
    (path candidate : Bytes) (d : Bool) (layer : IgnoreLayer) (r : Option RuleMatch)
    → candidate_for_base path layer.base ≡ some candidate
    → Says layer.rules candidate d r
    → LayerSays path d layer r
inside-LayerSays path candidate d layer none e (m, quiet) = (
  rw e m,
  λ above a.
      layer_match-above layer path above
        (λ part other k p.
          let same : other ≡ candidate = cc in
          set_matches-above layer.rules candidate part d (m, quiet) (subst (IsAbove part) same p))
        a,
)
inside-LayerSays path candidate d layer (some (exact action)) e m = rw e m
inside-LayerSays path candidate d layer (some (ancestor action)) e (m, part, p, k) = (
  rw e m,
  under layer.base part,
  subst (IsAbove (under layer.base part))
      (sym (under-candidate_for_base path layer.base candidate e))
      (IsAbove-under layer.base part candidate p),
  rw (candidate_for_base-under layer.base part) (set_matches-exact layer.rules part true action k),
)

layer_match-LayerSays :
    (path : Bytes) (d : Bool) (layer : IgnoreLayer)
    → LayerSays path d layer (layer_match path d layer)
layer_match-LayerSays path d layer = elim (Option-cases (candidate_for_base path layer.base)) [
  | inl e ↦ subst (LayerSays path d layer) (sym (ap (match_below layer.rules d) e)) (
    ap (exact_below layer.rules d) e,
    λ above a. layer_match-above layer path above (λ part candidate k p. absurd (cc)) a,
  )
  | inr (candidate, e) ↦ subst (LayerSays path d layer) (sym (ap (match_below layer.rules d) e)) (
      inside-LayerSays path candidate d layer (set_matches layer.rules candidate d) e
        (set_matches-Says layer.rules candidate d))
]

match_loop-included :
    (path : Bytes) (d : Bool) (layers : List IgnoreLayer)
    → match_loop path d true layers ≡ or_else (prepared_loop path d layers) (some include)
unfolding match_loop prepared_loop
match_loop-included path d [] = refl
match_loop-included path d (layer ∷ rest) =
    go (match_loop-included path d rest) (layer_match path d layer) refl
      (layer_match-LayerSays path d layer)
  where
    go :
        match_loop path d true rest ≡ or_else (prepared_loop path d rest) (some include)
        → (r : Option RuleMatch) → layer_match path d layer ≡ r
        → LayerSays path d layer r
        → match_loop path d true (layer ∷ rest)
          ≡ or_else (prepared_loop path d (layer ∷ rest)) (some include)
    go ih none e h = rw (e, match_loop, prepared_loop, h.0) ih
    go ih (some (exact action)) e h = rw (e, match_loop, prepared_loop, h) refl
    go ih (some (ancestor include)) e h = rw (e, match_loop, prepared_loop, h.0) ih
    go ih (some (ancestor ignore)) e h = rw (e, match_loop, prepared_loop, h.0) ih

or_else-ignore :
    (o : Option RuleAction) → (or_else o (some include) ≡ some ignore) ↔ (o ≡ some ignore)
or_else-ignore none = (λ e. absurd (cc), λ e. absurd (cc))
or_else-ignore (some action) = (λ e. e, λ e. e)

-- No directory above the path is ignored by the layers.
abbrev IsReached : Bytes → List IgnoreLayer → Type 0
IsReached path layers =
    (above : Bytes) → IsAbove above path → match_loop above true false layers ≢ some ignore

match_loop-prepared :
    (path : Bytes) (d : Bool) (layers : List IgnoreLayer)
    → IsReached path layers
    → (match_loop path d false layers ≡ some ignore) ↔ (prepared_loop path d layers ≡ some ignore)
unfolding match_loop prepared_loop
match_loop-prepared path d [] reached = (λ e. e, λ e. e)
match_loop-prepared path d (layer ∷ rest) reached =
    go (match_loop-prepared path d rest) (layer_match path d layer) refl
      (layer_match-LayerSays path d layer)
  where
    go :
        (IsReached path rest
          → (match_loop path d false rest ≡ some ignore)
            ↔ (prepared_loop path d rest ≡ some ignore))
        → (r : Option RuleMatch) → layer_match path d layer ≡ r
        → LayerSays path d layer r
        → (match_loop path d false (layer ∷ rest) ≡ some ignore)
          ↔ (prepared_loop path d (layer ∷ rest) ≡ some ignore)
    go ih none e h =
        rw (e, match_loop, prepared_loop, h.0)
          (ih (λ above a ignored. reached above a (rw (match_loop, h.1 above a) ignored)))
    go ih (some (exact action)) e h = rw (e, match_loop, prepared_loop, h) (λ k. k, λ k. k)
    go ih (some (ancestor include)) e h =
        rw (e, match_loop, prepared_loop, h.0, match_loop-included path d rest)
          (or_else-ignore (prepared_loop path d rest))
    go ih (some (ancestor ignore)) e (m, above, a, k) =
        absurd (reached above a (rw (match_loop, k) refl))

-- Where no directory above a path is ignored, the full search ignores the path exactly if, of the
-- rules on the path itself, the last that applies ignores: in the order of the sources, of the
-- directories and of the lines.
pub match_rules-ignores :
    (path : Bytes) (is_directory : Bool) (rules : IgnoreRules)
    → IsIndexedAll rules
    → ((above : Bytes) → IsAbove above path → match_rules above true rules ≢ some ignore)
    → (match_rules path is_directory rules ≡ some ignore)
      ↔ (last_stated path is_directory (ranked rules.layers) ≡ some ignore)
unfolding match_rules match_prepared_rules
match_rules-ignores path is_directory rules indexed reached =
    rw (← match_prepared_rules_lem path is_directory rules indexed)
      (match_loop-prepared path is_directory (visited rules) reached)
