-- ===== src/Applier/Parse/Markers.antt =====
-- internal/applier/parse.go on the lines that deploy.sh prints for a component.
use Prim.Native.String.{[], ◌∷◌}
use Prim.Native.String.append
use Prim.Native.Char.{Char}
use mathlib.Core.List.{List, [] as nil, ◌∷◌ as cons}
use aicrme.Prelude.{
  ◌≡◌, refl, ap, sym, subst, ◌∙◌, str_append, String, Bool, true, ◌&&◌, none, some, arith,
}
use aicrme.Bus.Event.{Event, component, Level, info, warn, err}
use aicrme.Applier.Matcher.{Item, lit, plus, run, captures, is_digit, is_visible}
use aicrme.Applier.Matcher.Render.{
  render, consists_of, stops, is_filled, fits, captures-render, stops-append, clash, strip-append,
  run-backs, strip-clash, append_nil,
}
use aicrme.Applier.Parse.{
  ComponentData, Status, started, installed, failed, retrying, re_header, re_installed, re_failed,
  re_retry, atoi, parse_line, header_event, installed_event, failed_event, retry_event,
  component_event,
}

-- What deploy.sh reports of a component: its start, its end, its last failure and one before.
pub data Marker : Type 0 where
  step_header : String → String → String → String → Marker
  step_ok : String → Marker
  step_fail : String → String → Marker
  step_retry : String → String → String → String → Marker

abbrev pub is_word : String → Bool
is_word s = is_filled s && consists_of is_visible s

abbrev pub is_count : String → Bool
is_count s = is_filled s && consists_of is_digit s

-- Names without white space, a namespace that may be empty, and counts of digits.
abbrev pub is_proper : Marker → Bool
is_proper (step_header i n name namespace) =
    is_count i && is_count n && is_word name && consists_of is_visible namespace
is_proper (step_ok name) = is_word name
is_proper (step_fail name n) = is_word name && is_count n
is_proper (step_retry name i n seconds) =
    is_word name && is_count i && is_count n && is_count seconds

-- What a retry line has behind the name and `: attempt `.
abbrev after_name : List Item
after_name = cons (plus is_digit) (
    cons (lit "/") (
      cons (plus is_digit)
        (cons (lit " failed, retrying in ") (cons (plus is_digit) (cons (lit "s...") nil)))))

-- The lines, in the words of deploy.sh.
abbrev pub print : Marker → String
print (step_header i n name namespace) = str_append "┌─ [" (
    str_append i (
      str_append "/"
        (str_append n (str_append "] " (str_append name (str_append "  →  " namespace))))))
print (step_ok name) = str_append "└─ ✓ " (str_append name " installed")
print (step_fail name n) =
    str_append "└─ ✗ " (str_append name (str_append " FAILED (after " (str_append n " attempts)")))
print (step_retry name i n seconds) = str_append "  ↺ " (
    str_append name (
      str_append ": attempt " (
        str_append i (
          str_append "/"
            (str_append n (str_append " failed, retrying in " (str_append seconds "s...")))))))

header-captures :
    (i n name namespace : String)
    → is_proper (step_header i n name namespace) ≡ true
    → captures re_header (print (step_header i n name namespace))
      ≡ some (cons i (cons n (cons name (cons namespace nil))))
unfolding fits render stops is_filled
header-captures i n name namespace h =
    let cs = cons i (cons n (cons name (cons namespace nil))) in
    let tail : str_append namespace "" ≡ namespace = append_nil namespace in
    let a =
      stops-append is_digit "/"
        (str_append n (str_append "] " (str_append name (str_append "  →  " namespace)))) refl
        refl in
    let b = stops-append is_digit "] " (str_append name (str_append "  →  " namespace)) refl refl in
    let c = stops-append is_visible "  →  " namespace refl refl in
    subst (λ t. captures re_header (print (step_header i n name t)) ≡ some cs) tail
      (captures-render re_header cs (rw tail (ground (arith, h, a, b, c))))

ok-captures :
    (name : String)
    → is_proper (step_ok name) ≡ true
    → captures re_installed (print (step_ok name)) ≡ some (cons name nil)
unfolding fits render stops is_filled
ok-captures name h =
    let a = stops-append is_visible " installed" "" refl refl in
    captures-render re_installed (cons name nil) (ground (arith, h, a))

fail-captures :
    (name n : String)
    → is_proper (step_fail name n) ≡ true
    → captures re_failed (print (step_fail name n)) ≡ some (cons name (cons n nil))
unfolding fits render stops is_filled
fail-captures name n h =
    let a = stops-append is_visible " FAILED (after " (str_append n " attempts)") refl refl in
    let b = stops-append is_digit " attempts)" "" refl refl in
    captures-render re_failed (cons name (cons n nil)) (ground (arith, h, a, b))

-- A pattern that starts with another text than the line does not match.
mismatch :
    (l m s : String) (items : _)
    → clash l m ≡ true
    → captures (cons (lit l) items) (str_append m s) ≡ none
unfolding captures
mismatch l m s items h = rw (strip-clash l m s h) refl

abbrev colon_char : Char
colon_char = ":"

-- The name runs up to the colon and takes it, and then gives it back.
retry-captures :
    (name i n seconds : String)
    → is_proper (step_retry name i n seconds) ≡ true
    → captures re_retry (print (step_retry name i n seconds))
      ≡ some (cons name (cons i (cons n (cons seconds nil))))
unfolding captures fits render stops is_filled consists_of clash
retry-captures [] i n seconds h = absurd (ground (arith, h))
retry-captures (c ∷ name) i n seconds h =
    let s3 = str_append seconds "s..." in
    let s2 = str_append n (str_append " failed, retrying in " s3) in
    let s1 = str_append i (str_append "/" s2) in
    let a = stops-append is_digit "/" s2 refl refl in
    let b = stops-append is_digit " failed, retrying in " s3 refl refl in
    let e = stops-append is_digit "s..." "" refl refl in
    let space = stops-append is_visible " attempt " s1 refl refl in
    let colon : str_append ": attempt " s1 ≡ colon_char ∷ str_append " attempt " s1 =
      append.cons colon_char " attempt " s1 in
    let k = captures (cons (lit ": attempt ") after_name) in
    let rest : k (str_append ": attempt " s1) ≡ some (cons i (cons n (cons seconds nil))) =
      captures-render (cons (lit ": attempt ") after_name) (cons i (cons n (cons seconds nil)))
        (ground (arith, h, a, b, e)) in
    let back : run is_visible k (c ∷ []) (str_append name (colon_char ∷ str_append " attempt " s1))
        ≡ some (cons (str_append (c ∷ []) name) (cons i (cons n (cons seconds nil)))) =
      run-backs is_visible k (c ∷ []) name colon_char (str_append " attempt " s1)
        (cons i (cons n (cons seconds nil))) (ground (arith, h)) space
        (mismatch ": attempt " " attempt " s1 after_name refl) (ap k (sym colon) ∙ rest) in
    let seen : is_visible c ≡ true = ground (arith, h) in
    rw
      (
        strip-append "  ↺ " (str_append (c ∷ name) (str_append ": attempt " s1)),
        append.cons c name (str_append ": attempt " s1),
        colon,
        seen,
        back,
        append.cons c [] name,
        append.nil name,
      )
      refl

abbrev pub reported_of : String → Status → ComponentData
reported_of name status = record {
  name = name;
  namespace = "";
  index = 0;
  total = 0;
  status = status;
  attempt = 0;
  max_attempts = 0;
  retry_in_seconds = 0;
}

-- The component that a line is about, how grave it is, and what it says.
abbrev pub component_of : Marker → String
component_of (step_header i n name namespace) = name
component_of (step_ok name) = name
component_of (step_fail name n) = name
component_of (step_retry name i n seconds) = name

abbrev pub level_of : Marker → Level
level_of (step_header i n name namespace) = info
level_of (step_ok name) = info
level_of (step_fail name n) = err
level_of (step_retry name i n seconds) = warn

abbrev pub reported : Marker → ComponentData
reported (step_header i n name namespace) = record (reported_of name started) {
  namespace = namespace;
  index = atoi i;
  total = atoi n;
}
reported (step_ok name) = reported_of name installed
reported (step_fail name n) = record (reported_of name failed) { attempt = atoi n }
reported (step_retry name i n seconds) = record (reported_of name retrying) {
  attempt = atoi i;
  max_attempts = atoi n;
  retry_in_seconds = atoi seconds;
}

-- Each line that deploy.sh prints for a component, with a name without white space and counts of
-- digits, becomes one event of that component, which carries what the line says.
pub parse_line-print :
    (marshal : ComponentData → String) (m : Marker)
    → is_proper m ≡ true
    → (e : Event) × (parse_line marshal (print m) ≡ some e)
      × (e.kind ≡ component)
      × (e.level ≡ level_of m)
      × (e.component ≡ component_of m)
      × (e.body ≡ some (marshal (reported m)))
unfolding parse_line header_event installed_event failed_event retry_event component_event clash
parse_line-print marshal (step_header i n name namespace) h =
    let e =
      component_event marshal info name (str_append "installing " name)
        (reported (step_header i n name namespace)) in
    (e, rw (header-captures i n name namespace h) refl, refl, refl, refl, refl)
parse_line-print marshal (step_ok name) h =
    let s = str_append name " installed" in
    let e = component_event marshal info name s (reported (step_ok name)) in
    let found : parse_line marshal (print (step_ok name)) ≡ some e =
      rw (mismatch "┌─ [" "└─ ✓ " s _ refl, ok-captures name h) refl in
    (e, found, refl, refl, refl, refl)
parse_line-print marshal (step_fail name n) h =
    let s = str_append name (str_append " FAILED (after " (str_append n " attempts)")) in
    let e =
      component_event marshal err name
        (str_append name (str_append " failed after " (str_append n " attempts")))
        (reported (step_fail name n)) in
    let found : parse_line marshal (print (step_fail name n)) ≡ some e =
      rw
        (
          mismatch "┌─ [" "└─ ✗ " s _ refl,
          mismatch "└─ ✓ " "└─ ✗ " s _ refl,
          fail-captures name n h,
        )
        refl in
    (e, found, refl, refl, refl, refl)
parse_line-print marshal (step_retry name i n seconds) h =
    let s = str_append name (
      str_append ": attempt " (
        str_append i (
          str_append "/"
            (str_append n (str_append " failed, retrying in " (str_append seconds "s...")))))) in
    let e =
      component_event marshal warn name
        (str_append name (
          str_append ": attempt " (
            str_append i (
              str_append " of "
                (str_append n (str_append " failed, retrying in " (str_append seconds "s")))))))
        (reported (step_retry name i n seconds)) in
    let found : parse_line marshal (print (step_retry name i n seconds)) ≡ some e =
      rw
        (
          mismatch "┌─ [" "  ↺ " s _ refl,
          mismatch "└─ ✓ " "  ↺ " s _ refl,
          mismatch "└─ ✗ " "  ↺ " s _ refl,
          retry-captures name i n seconds h,
        )
        refl in
    (e, found, refl, refl, refl, refl)
