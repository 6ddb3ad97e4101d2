-- ===== src/Applier/Matcher.antt =====
-- The part of Go's regular expressions that internal/applier/parse.go uses: an anchored row of literal
-- texts, of runs of characters of a class, greedy and with backtracking, and of a choice of texts.
pub mod Render
use Prim.Native.String.{String, [], ◌∷◌}
use Prim.Native.Char.{Char, code}
use aicrme.Prelude.{
  ap, str_append, Bool, not, ◌&&◌, ◌||◌, Option, none, some, leb, ◌==◌, if◌then◌else◌,
}
use mathlib.Core.List.{List, [] as nil, ◌∷◌ as cons}

-- `\d`
abbrev pub is_digit : Char → Bool
is_digit c = leb 48 (code c) && leb (code c) 57

-- `\s`: tab, line feed, form feed, carriage return and the space.
abbrev pub is_space : Char → Bool
is_space c = code c == 9 || code c == 10 || code c == 12 || code c == 13 || code c == 32

-- `\S`
abbrev pub is_visible : Char → Bool
is_visible c = not (is_space c)

-- `.`
abbrev pub is_any : Char → Bool
is_any c = not (code c == 10)

pub data Item : Type 0 where
  lit : String → Item
  -- `(c+)`, `(c*)` and `c*` for a class `c`
  plus star skip : (Char → Bool) → Item
  -- `(a|b)`
  either : String → String → Item

unfoldable pub strip : String → String → Option String
strip [] s = some s
strip (c ∷ p) [] = none
strip (c ∷ p) (d ∷ s) = if code c == code d then strip p s else none

-- `first`, and `second` when it finds nothing.
abbrev pub or_else {ℓ} : {A : Type ℓ} → Option A → Option A → Option A
or_else none second = second
or_else (some a) second = some a

abbrev pub capture : String → Option (List String) → Option (List String)
capture c none = none
capture c (some cs) = some (cons c cs)

abbrev pub after : Option String → (String → Option (List String)) → Option (List String)
after none k = none
after (some s) k = k s

-- The longest run first; `got` is what the run holds already.
unfoldable pub run :
    (Char → Bool) → (String → Option (List String)) → String → String → Option (List String)
run p k got [] = capture got (k [])
run p k got (c ∷ s) =
    let longer = run p k (str_append got (c ∷ [])) s in
    if p c then or_else longer (capture got (k (c ∷ s))) else capture got (k (c ∷ s))

unfoldable pub pass :
    (Char → Bool) → (String → Option (List String)) → String → Option (List String)
pass p k [] = k []
pass p k (c ∷ s) = let longer = pass p k s in if p c then or_else longer (k (c ∷ s)) else k (c ∷ s)

-- The texts of the groups, when the whole text matches.
unfoldable pub captures : List Item → String → Option (List String)
unfolding run pass strip
captures nil [] = some nil
captures nil (c ∷ s) = none
captures (cons (lit l) items) s = after (strip l s) (captures items)
captures (cons (plus p) items) [] = none
captures (cons (plus p) items) (c ∷ s) = if p c then run p (captures items) (c ∷ []) s else none
captures (cons (star p) items) s = run p (captures items) [] s
captures (cons (skip p) items) s = pass p (captures items) s
captures (cons (either a b) items) s =
    or_else (capture a (after (strip a s) (captures items)))
      (capture b (after (strip b s) (captures items)))
