-- ===== src/Applier/Parse.antt =====
-- internal/applier/parse.go: the lines of deploy.sh that become events. A line is read as its
-- characters; the JSON encoder is a parameter.
pub mod Markers
use Prim.Native.String.{String, [], ◌∷◌}
use Prim.Native.Char.{code}
use mathlib.Core.List.{List, [] as nil, ◌∷◌ as cons}
use aicrme.Prelude.{ℕ, ◌+◌, ◌-◌, ◌*◌, ◌^◌, str_append, Option, none, some, ltb, if◌then◌else◌}
use aicrme.Bus.Event.{Event, Kind, phase, log, component, Level, info, warn, err, zero_event}
use aicrme.Applier.Matcher.{
  Item, lit, plus, star, skip, either, captures, is_digit, is_space, is_visible, is_any,
}

pub data Status : Type 0 where
  started installed failed retrying : Status

pub record ComponentData : Type 0 where
  pub name : String
  pub namespace : String
  pub index : ℕ
  pub total : ℕ
  pub status : Status
  pub attempt : ℕ
  pub max_attempts : ℕ
  pub retry_in_seconds : ℕ

-- What Go sets the fields to that a literal leaves out.
abbrev zero_data : String → Status → ComponentData
zero_data name status = record {
  name = name;
  namespace = "";
  index = 0;
  total = 0;
  status = status;
  attempt = 0;
  max_attempts = 0;
  retry_in_seconds = 0;
}

-- `^┌─ \[(\d+)/(\d+)\] (\S+)  →  (\S*)\s*$`
abbrev pub re_header : List Item
re_header = cons (lit "┌─ [") (
    cons (plus is_digit) (
      cons (lit "/") (
        cons (plus is_digit) (
          cons (lit "] ") (
            cons (plus is_visible)
              (cons (lit "  →  ") (cons (star is_visible) (cons (skip is_space) nil))))))))

-- `^└─ ✓ (\S+) installed$`
abbrev pub re_installed : List Item
re_installed = cons (lit "└─ ✓ ") (cons (plus is_visible) (cons (lit " installed") nil))

-- `^└─ ✗ (\S+) FAILED \(after (\d+) attempts\)$`
abbrev pub re_failed : List Item
re_failed = cons (lit "└─ ✗ ") (
    cons (plus is_visible)
      (cons (lit " FAILED (after ") (cons (plus is_digit) (cons (lit " attempts)") nil))))

-- `^ {2}↺ (\S+): attempt (\d+)/(\d+) failed, retrying in (\d+)s\.\.\.$`
abbrev pub re_retry : List Item
re_retry = cons (lit "  ↺ ") (
    cons (plus is_visible) (
      cons (lit ": attempt ") (
        cons (plus is_digit) (
          cons (lit "/") (
            cons (plus is_digit) (
              cons (lit " failed, retrying in ")
                (cons (plus is_digit) (cons (lit "s...") nil))))))))

-- `^│ {2}\((async component.*)\)$`, whose group is the literal and what the run holds.
abbrev pub re_async : List Item
re_async = cons (lit "│  (async component") (cons (star is_any) (cons (lit ")") nil))

-- `^✓ (Pre-flight checks passed|All components installed successfully\.)$`
abbrev pub re_phase_ok : List Item
re_phase_ok =
    cons (lit "✓ ")
      (cons (either "Pre-flight checks passed" "All components installed successfully.") nil)

-- `^⚠ (.+)$`
abbrev pub re_warn : List Item
re_warn = cons (lit "⚠ ") (cons (plus is_any) nil)

-- `^✗ (.+)$`
abbrev pub re_fail : List Item
re_fail = cons (lit "✗ ") (cons (plus is_any) nil)

unfoldable pub digits : ℕ → String → ℕ
digits n [] = n
digits n (c ∷ s) = digits (n * 10 + (code c - 48)) s

-- On digits, which is what it is called with; `strconv.Atoi` fails above the largest int.
unfoldable pub atoi : String → ℕ
unfolding digits
atoi s = let n = digits 0 s in if ltb n (2 ^ 63) then n else 0

module _ (marshal : ComponentData → String) where
  unfoldable pub component_event : Level → String → String → ComponentData → Event
  component_event level name message d = record zero_event {
    kind = component;
    level = level;
    component = name;
    message = message;
    body = some (marshal d);
  }

  -- The events without data.
  abbrev plain_event : Kind → Level → String → Event
  plain_event kind level message = record zero_event {
    kind = kind;
    level = level;
    message = message;
  }

  -- What each match makes of its groups.
  unfoldable pub header_event : List String → Option Event
  unfolding atoi component_event
  header_event (cons i (cons n (cons name (cons namespace nil)))) = some (
      component_event info name (str_append "installing " name)
        (record (zero_data name started) { namespace = namespace; index = atoi i; total = atoi n }))
  header_event _ = none

  unfoldable pub installed_event : List String → Option Event
  unfolding component_event
  installed_event (cons name nil) =
      some (component_event info name (str_append name " installed") (zero_data name installed))
  installed_event _ = none

  unfoldable pub failed_event : List String → Option Event
  unfolding atoi component_event
  failed_event (cons name (cons n nil)) = some (
      component_event err name
        (str_append name (str_append " failed after " (str_append n " attempts")))
        (record (zero_data name failed) { attempt = atoi n }))
  failed_event _ = none

  unfoldable pub retry_event : List String → Option Event
  unfolding atoi component_event
  retry_event (cons name (cons i (cons n (cons seconds nil)))) = some (
      component_event warn name
        (str_append name (
          str_append ": attempt " (
            str_append i (
              str_append " of "
                (str_append n (str_append " failed, retrying in " (str_append seconds "s")))))))
        (record (zero_data name retrying) {
          attempt = atoi i;
          max_attempts = atoi n;
          retry_in_seconds = atoi seconds;
        }))
  retry_event _ = none

  unfoldable pub plain : Kind → Level → String → List String → Option Event
  plain kind level before (cons m nil) = some (plain_event kind level (str_append before m))
  plain kind level before _ = none

  abbrev on_match :
      Option (List String) → (List String → Option Event) → Option Event → Option Event
  on_match none f rest = rest
  on_match (some cs) f rest = f cs

  unfoldable pub parse_line : String → Option Event
  unfolding captures header_event installed_event failed_event retry_event plain
  parse_line line = on_match (captures re_header line) header_event (
      on_match (captures re_installed line) installed_event (
        on_match (captures re_failed line) failed_event (
          on_match (captures re_retry line) retry_event (
            on_match (captures re_async line) (plain log info "async component") (
              on_match (captures re_phase_ok line) (plain phase info "") (
                on_match (captures re_warn line) (plain log warn "")
                  (on_match (captures re_fail line) (plain log err "") none)))))))
