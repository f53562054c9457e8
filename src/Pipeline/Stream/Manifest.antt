-- ===== src/Pipeline/Stream/Manifest.antt =====
-- The manifest of usage, `_usage_manifest_payload`, against the calls of `_expect_usage`.
use voice_mesh.Prelude.{
  ◌≡◌, refl, ◌∙◌, String, Bool, false, not, ◌&&◌, ◌||◌, List, [], ◌∷◌, arith, str_eq, eq_iff,
  has_text, add_text,
}
use voice_mesh.Prelude.Traces.{run}
use voice_mesh.Prelude.Dict.{Dict, lookup, insert, get_or}
use voice_mesh.Pipeline.Stream.{Stream, ExpectedTurn}
use voice_mesh.Pipeline.Stream.Speaking.{expect_usage}
use voice_mesh.Pipeline.Stream.Ending.{
  insert_text, sort_texts, insert_item, sort_items, expected_turns, usage_manifest_payload,
}

-- Whether a manifest lists a usage for a turn, and whether a dict of sets has it.
abbrev pub lists : String → String → List ExpectedTurn → Bool
lists t u [] = false
lists t u (x ∷ xs) = (str_eq x.turn_id t && has_text u x.expected_usage) || lists t u xs

abbrev has_usage : String → String → Dict (List String) → Bool
has_usage t u [] = false
has_usage t u ((j, us) ∷ d) = (str_eq j t && has_text u us) || has_usage t u d

-- Whether a usage was expected of a turn that is not "session".
abbrev pub was_expected : String → String → List (String × String) → Bool
was_expected t u [] = false
was_expected t u ((t', u') ∷ cs) =
    (not (str_eq t' "session") && (str_eq t' t && str_eq u u')) || was_expected t u cs

abbrev pub expect : Stream → String × String → Stream
expect s (t, u) = expect_usage t u s

has_text-insert_text :
    (u v : String) (us : List String) → has_text u (insert_text v us) ≡ has_text u (v ∷ us)
has_text-insert_text u v [] = refl
has_text-insert_text u v (w ∷ us) = ground (arith, has_text-insert_text u v us)

has_text-sort_texts : (u : String) (us : List String) → has_text u (sort_texts us) ≡ has_text u us
has_text-sort_texts u [] = refl
has_text-sort_texts u (v ∷ us) =
    ground (arith, has_text-insert_text u v (sort_texts us), has_text-sort_texts u us)

has_usage-insert_item :
    (t u : String) (i : String × List String) (d : Dict (List String))
    → has_usage t u (insert_item i d) ≡ has_usage t u (i ∷ d)
has_usage-insert_item t u (j, us) [] = refl
has_usage-insert_item t u (j, us) ((k, vs) ∷ d) =
    ground (arith, has_usage-insert_item t u (j, us) d)

has_usage-sort_items :
    (t u : String) (d : Dict (List String)) → has_usage t u (sort_items d) ≡ has_usage t u d
has_usage-sort_items t u [] = refl
has_usage-sort_items t u ((j, us) ∷ d) =
    ground (arith, has_usage-insert_item t u (j, us) (sort_items d), has_usage-sort_items t u d)

lists-expected_turns :
    (t u : String) (d : Dict (List String)) → lists t u (expected_turns d) ≡ has_usage t u d
unfolding expected_turns
lists-expected_turns t u [] = refl
lists-expected_turns t u ((j, []) ∷ d) = ground (arith, lists-expected_turns t u d)
lists-expected_turns t u ((j, v ∷ us) ∷ d) =
    ground (arith, lists-expected_turns t u d, has_text-sort_texts u (v ∷ us))

has_text-add_text_or :
    (u v : String) (us : List String) → has_text u (add_text v us) ≡ (str_eq u v || has_text u us)
has_text-add_text_or u v us = ground (arith, eq_iff u v)

has_usage-insert :
    (t u k v : String) (d : Dict (List String))
    → has_usage t u (insert k (add_text v (get_or [] (lookup k d))) d)
      ≡ ((str_eq k t && str_eq u v) || has_usage t u d)
unfolding insert lookup
has_usage-insert t u k v [] = ground (arith, eq_iff u v)
has_usage-insert t u k v ((j, us) ∷ d) =
    ground (arith, eq_iff j k, has_text-add_text_or u v us, has_usage-insert t u k v d)

has_usage-expect :
    (t u : String) (s : Stream) (c : String × String)
    → has_usage t u (expect s c).usage_expectations
      ≡ (was_expected t u (c ∷ []) || has_usage t u s.usage_expectations)
unfolding expect_usage
has_usage-expect t u s (k, v) = ground (arith, has_usage-insert t u k v s.usage_expectations)

has_usage-run :
    (t u : String) (s : Stream) (cs : List (String × String))
    → has_usage t u (run expect s cs).usage_expectations
      ≡ (was_expected t u cs || has_usage t u s.usage_expectations)
has_usage-run t u s [] = refl
has_usage-run t u s (c ∷ cs) =
    ground (arith, has_usage-run t u (expect s c) cs, has_usage-expect t u s c)

-- The manifest lists a usage for a turn exactly when that usage was expected of the turn during the
-- call, and nothing for the turn "session".
pub usage_manifest_exact :
    (t u : String) (s : Stream) (cs : List (String × String))
    → s.usage_expectations ≡ []
    → lists t u (usage_manifest_payload (run expect s cs)) ≡ was_expected t u cs
unfolding usage_manifest_payload
usage_manifest_exact t u s cs e =
    let d = (run expect s cs).usage_expectations in
    lists-expected_turns t u (sort_items d)
    ∙ has_usage-sort_items t u d
    ∙ ground (arith, has_usage-run t u s cs)
