-- ===== src/Examples/Output.antt =====
-- internal/applier at concrete inputs.
use aicrme.Prelude.{
  ℕ, ◌≡◌, refl, String, true, List, [], ◌∷◌, map, Option, some, arith, all, select,
}
use aicrme.Prelude.Ring.{keep_last}
use aicrme.Bus.Event.{Event, component}
use aicrme.Applier.Lines.{
  new_line_writer, write_all, flush, flatten, is_text, fits, write_all_lossless,
}
use aicrme.Applier.Tail.{new_ring, add_all, lines, lines-add_all}
use aicrme.Applier.Parse.{ComponentData, parse_line}
use aicrme.Applier.Matcher.Render.{is_filled, consists_of}
use aicrme.Applier.Parse.Markers.{
  step_retry, print, reported, component_of, level_of, parse_line-print,
}
use aicrme.Applier.Apply.{FailureData, Options, Spec, spec_of, apply}
use aicrme.Applier.Apply.Told.{told, apply-eq-told}

abbrev chunks : List (List ℕ)
chunks = (97 ∷ 13 ∷ 10 ∷ 10 ∷ []) ∷ (98 ∷ []) ∷ (99 ∷ []) ∷ []

write_all_lossless_example :
    (flatten (flush (write_all chunks new_line_writer)).lines ≡ select is_text (flatten chunks))
    × (all fits (flush (write_all chunks new_line_writer)).lines ≡ true)
write_all_lossless_example = write_all_lossless chunks

two_lines : (flush (write_all chunks new_line_writer)).lines ≡ (97 ∷ []) ∷ (98 ∷ 99 ∷ []) ∷ []
unfolding write_all flush
two_lines = refl

lines-add_all_example :
    lines (add_all ("a" ∷ "b" ∷ "c" ∷ []) (new_ring 2)) ≡ keep_last 2 ("a" ∷ "b" ∷ "c" ∷ [])
lines-add_all_example = lines-add_all 2 ("a" ∷ "b" ∷ "c" ∷ []) (omega arith)

abbrev name_only : ComponentData → String
name_only d = d.name

parse_line-print_example :
    (e : Event) × (parse_line name_only (print (step_retry "gpu:op" "2" "3" "20")) ≡ some e)
    × (e.kind ≡ component)
    × (e.level ≡ level_of (step_retry "gpu:op" "2" "3" "20"))
    × (e.component ≡ component_of (step_retry "gpu:op" "2" "3" "20"))
    × (e.body ≡ some (name_only (reported (step_retry "gpu:op" "2" "3" "20"))))
unfolding is_filled consists_of
parse_line-print_example = parse_line-print name_only (step_retry "gpu:op" "2" "3" "20") refl

retry_line :
    print (step_retry "gpu:op" "2" "3" "20") ≡ "  ↺ gpu:op: attempt 2/3 failed, retrying in 20s..."
retry_line = refl

abbrev number : ℕ → String
number n = "5"

abbrev as_text : List ℕ → String
as_text bs = "└─ ✓ gpu installed"

abbrev failing : Spec → List (List ℕ) × Option String
failing spec = (chunks, some "exit status 1")

abbrev opts : Options
opts = record { bundle_dir = "/b"; retries = 5; dry_run = true; kubeconfig = "/k" }

abbrev failure_text : FailureData → String
failure_text f = f.component

abbrev read_lines : List String
read_lines = "└─ ✓ gpu installed" ∷ "└─ ✓ gpu installed" ∷ []

apply-eq-told_example :
    apply number as_text name_only failure_text failing opts
    ≡ told name_only failure_text
        (map as_text (flush (write_all (failing (spec_of number opts)).0 new_line_writer)).lines)
        (failing (spec_of number opts)).1
apply-eq-told_example = apply-eq-told number as_text name_only failure_text failing opts
