-- ===== src/Applier/Apply/Told.antt =====
-- internal/applier/applier.go: what a run tells, against the lines that deploy.sh printed.
use aicrme.Prelude.{
  ℕ, ◌≡◌, refl, ap, sym, ◌∙◌, String, str_append, str_eq, Option, none, some, List, [], ◌∷◌, ◌++◌,
  map, arith, if◌then◌else◌, Option-cases, inl, inr,
}
use mathlib.Core.List.{append_assoc, append-nil}
use aicrme.Bus.Event.{Event, error, err, zero_event}
use aicrme.Prelude.Ring.{keep_last}
use aicrme.Applier.Lines.{new_line_writer, write_all, flush}
use aicrme.Applier.Tail.{new_ring, add_all, lines-add_all}
use aicrme.Applier.Parse.{ComponentData, parse_line}
use aicrme.Applier.Apply.{
  FailureData, Options, Spec, Progress, tail_lines, note_event, on_line, on_lines, spec_of,
  failure_event, conclude, apply,
}

-- The component of the last event that has one.
unfoldable pub last_named : String → List Event → String
last_named before [] = before
last_named before (e ∷ es) = last_named (if str_eq e.component "" then before else e.component) es

abbrev to_list {ℓ} : {A : Type ℓ} → Option A → List A
to_list none = []
to_list (some a) = a ∷ []

module _ (marshal : ComponentData → String) where
  -- The lines that are markers, as events.
  unfoldable pub heard : List String → List Event
  heard [] = []
  heard (line ∷ rest) = to_list (parse_line marshal line) ++ heard rest

  on_lines_lem :
      (ls : List String) (s : Progress)
      → on_lines marshal ls s ≡ record {
        tail = add_all ls s.tail;
        last_component = last_named s.last_component (heard ls);
        emitted = s.emitted ++ heard ls;
      }
  unfolding on_lines on_line note_event heard last_named add_all
  on_lines_lem [] s = ap (λ es. record s { emitted = es }) (sym (append-nil s.emitted))
  on_lines_lem (l ∷ ls) s = elim (Option-cases (parse_line marshal l)) [
    | inl q ↦ on_lines_lem ls (on_line marshal l s) ∙ rw q refl
    | inr (e, q) ↦
        on_lines_lem ls (on_line marshal l s)
        ∙ rw (q, append_assoc s.emitted (e ∷ []) (heard ls)) refl
  ]

module _ (marshal : ComponentData → String) (marshal_failure : FailureData → String) where
  -- What a run should tell of the lines that were printed and of how the process ended.
  unfoldable pub told : List String → Option String → List Event × Option String
  told ls none = (heard marshal ls, none)
  told ls (some reason) =
      let name = last_named "" (heard marshal ls) in
      let body =
        marshal_failure
          (record { component = name; exit_error = reason; tail = keep_last 200 ls }) in
      (
        heard marshal ls
            ++ record zero_event {
              kind = error;
              level = err;
              component = name;
              message = str_append "deploy.sh failed: " reason;
              body = some body;
            }
              ∷ [],
        some reason,
      )

-- The run tells the markers among the lines as events, in order, and fails when the process fails: then
-- one more event names the component of the last of them and has the last 200 lines.
pub apply-eq-told :
    (itoa : ℕ → String) (decode : List ℕ → String) (marshal : ComponentData → String)
    (marshal_failure : FailureData → String) (exec : Spec → List (List ℕ) × Option String)
    (opts : Options)
    → let ran = exec (spec_of itoa opts) in
      let ls = map decode (flush (write_all ran.0 new_line_writer)).lines in
      apply itoa decode marshal marshal_failure exec opts ≡ told marshal marshal_failure ls ran.1
unfolding apply conclude failure_event told
apply-eq-told itoa decode marshal marshal_failure exec opts =
    let ran = exec (spec_of itoa opts) in
    let ls = map decode (flush (write_all ran.0 new_line_writer)).lines in
    rw
      (on_lines_lem marshal ls
        (record { tail = new_ring tail_lines; last_component = ""; emitted = [] }))
      (ends ls ran.1)
  where
    ends :
        (ls : List String) (o : Option String)
        → conclude marshal_failure o (record {
          tail = add_all ls (new_ring tail_lines);
          last_component = last_named "" (heard marshal ls);
          emitted = heard marshal ls;
        })
          ≡ told marshal marshal_failure ls o
    ends ls none = refl
    ends ls (some reason) = rw (lines-add_all 200 ls (omega arith)) refl
