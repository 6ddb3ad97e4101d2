-- ===== src/Engine/Report.antt =====
-- internal/engine/reset.go: what a reset tells the console.
use aicrme.Prelude.{
  ℕ, ◌+◌, String, str_append, str_eq, not, List, [], ◌∷◌, some, ltb, if◌then◌else◌,
}
use aicrme.Bus.Event.{Event, Kind, Level}
use aicrme.Engine.Run.{ItemKind, ResidueItem, Residue, unset, removed, considered}
use aicrme.Engine.State.{event}
use aicrme.Engine.Codec.{Codec}

abbrev pub kind_text : ItemKind → String
kind_text ItemKind.release = "release"
kind_text ItemKind.namespace = "namespace"
kind_text ItemKind.object = "object"

-- The `failed` and `skipped` of `resetSummary`.
unfoldable pub count_failed : List ResidueItem → ℕ
count_failed [] = 0
count_failed (it ∷ items) = (if str_eq it.err "" then 0 else 1) + count_failed items

unfoldable pub count_skipped : List ResidueItem → ℕ
count_skipped [] = 0
count_skipped (it ∷ items) =
    (if not (str_eq it.err "") then 0 else if str_eq it.skip "" then 0 else 1) + count_skipped items

abbrev pub with_body : String → Event → Event
with_body body ev = record ev { body = some body }

module _ (codec : Codec) where
  of_total : ItemKind → List ResidueItem → String → String
  of_total kind items noun =
      str_append (codec.decimal (removed kind items))
        (str_append " of " (str_append (codec.decimal (considered kind items)) noun))

  unfoldable pub reset_summary : Residue → String
  unfolding of_total count_failed count_skipped
  reset_summary res =
      let failed = count_failed res.items in
      let skipped = count_skipped res.items in
      str_append "reset: " (
        str_append (of_total ItemKind.release res.items " releases removed, ") (
          str_append (of_total ItemKind.namespace res.items " namespaces removed") (
            str_append
              (if ltb 0 failed
                then str_append "; " (str_append (codec.decimal failed) " failed")
                else "")
              (if ltb 0 skipped
                then str_append "; " (
                    str_append (codec.decimal skipped) " left in place, each with its reason below")
                else ""))))

  abbrev pub reset_event : String → Level → String → Event
  reset_event id level msg = event Kind.log level id unset msg

  unfoldable pub summary_event : String → Level → String → Residue → Event
  summary_event id level msg res =
      with_body
        (codec.summary_json
          (record { incomplete = res.incomplete; summary = msg; items = res.items }))
        (reset_event id level msg)

  item_event : String → ResidueItem → String → Level → String → Event
  item_event id it status level reason =
      let said =
        str_append (kind_text it.kind)
          (str_append " " (str_append it.name (str_append " " status))) in
      with_body
        (codec.residue_json (record {
          name = it.name;
          namespace = it.namespace;
          kind = kind_text it.kind;
          status = status;
          operation = "teardown";
          reason = reason;
        }))
        (record (event Kind.component level id unset
          (if str_eq reason "" then said else str_append said (str_append ": " reason))) {
            component = it.name;
          })

  -- An error outweighs a reason for skipping.
  unfoldable pub residue_event : String → ResidueItem → Event
  unfolding item_event
  residue_event id it =
      if not (str_eq it.err "")
      then item_event id it "failed" Level.err it.err
      else if not (str_eq it.skip "")
      then item_event id it "skipped" Level.warn it.skip
      else item_event id it "removed" Level.info ""

  unfoldable pub residue_events : String → List ResidueItem → List Event
  unfolding residue_event
  residue_events id [] = []
  residue_events id (it ∷ items) = residue_event id it ∷ residue_events id items
