-- ===== src/Applier/Lines.antt =====
-- internal/applier/exec.go: the writer that hands out whole lines. Each call holds the writer's mutex.
use aicrme.Prelude.{
  ℕ, ◌+◌, ◌≤◌, ◌<◌, ◌≡◌, refl, sym, ap, ◌∙◌, Bool, true, not, ◌&&◌, ◌||◌, List, [], ◌∷◌, ◌++◌,
  arith, leb, ltb, ◌==◌, if◌then◌else◌, length, select, all, length-append, Bool-cases, inl, inr,
  select-append,
}
use mathlib.Core.List.{append_assoc, append-nil}

abbrev pub Line : Type 0
Line = List ℕ

-- `64 << 10`
abbrev pub max_line_bytes : ℕ
max_line_bytes = 65536

-- `buf`, and the lines that `fn` has been called with.
pub record LineWriter : Type 0 where
  pub buf : Line
  pub lines : List Line

abbrev pub new_line_writer : LineWriter
new_line_writer = record { buf = []; lines = [] }

-- `emitLocked`
unfoldable pub emit_buf : Line → List Line → LineWriter
emit_buf [] lines = record { buf = []; lines = lines }
emit_buf (b ∷ buf) lines = record { buf = []; lines = lines ++ (b ∷ buf) ∷ [] }

-- The body of the loop of `Write`; 10 is the line feed and 13 the carriage return.
unfoldable pub write_byte : ℕ → LineWriter → LineWriter
unfolding emit_buf
write_byte b w =
    let buf = w.buf ++ b ∷ [] in
    if b == 10
    then emit_buf w.buf w.lines
    else if b == 13
    then w
    else if leb max_line_bytes (length buf)
    then emit_buf buf w.lines
    else record w { buf = buf }

unfoldable pub write : List ℕ → LineWriter → LineWriter
unfolding write_byte
write [] w = w
write (b ∷ p) w = write p (write_byte b w)

unfoldable pub flush : LineWriter → LineWriter
unfolding emit_buf
flush w = emit_buf w.buf w.lines

abbrev pub flatten : List Line → Line
flatten [] = []
flatten (l ∷ lines) = l ++ flatten lines

-- All but the line feeds and the carriage returns.
abbrev pub is_text : ℕ → Bool
is_text b = not (b == 10 || b == 13)

-- What the writer has got so far.
abbrev pub seen : LineWriter → Line
seen w = flatten w.lines ++ w.buf

flatten-append : (xs ys : List Line) → flatten (xs ++ ys) ≡ flatten xs ++ flatten ys
flatten-append [] ys = refl
flatten-append (x ∷ xs) ys =
    ap (λ l. x ++ l) (flatten-append xs ys) ∙ sym (append_assoc x (flatten xs) (flatten ys))

seen-emit_buf : (buf : Line) (lines : List Line) → seen (emit_buf buf lines) ≡ flatten lines ++ buf
unfolding emit_buf
seen-emit_buf [] lines = refl
seen-emit_buf (b ∷ buf) lines =
    append-nil _
    ∙ flatten-append lines ((b ∷ buf) ∷ [])
    ∙ ap (λ l. flatten lines ++ l) (append-nil (b ∷ buf))

seen-write_byte :
    (b : ℕ) (w : LineWriter) → seen (write_byte b w) ≡ seen w ++ select is_text (b ∷ [])
unfolding write_byte
seen-write_byte b w =
    let more : flatten w.lines ++ (w.buf ++ b ∷ []) ≡ seen w ++ b ∷ [] =
      sym (append_assoc (flatten w.lines) w.buf (b ∷ [])) in
    ground (
      arith,
      more,
      append-nil (seen w),
      seen-emit_buf w.buf w.lines,
      seen-emit_buf (w.buf ++ b ∷ []) w.lines,
    )

seen-write : (p : List ℕ) (w : LineWriter) → seen (write p w) ≡ seen w ++ select is_text p
unfolding write
seen-write [] w = sym (append-nil (seen w))
seen-write (b ∷ p) w =
    seen-write p (write_byte b w)
    ∙ ap (λ l. l ++ select is_text p) (seen-write_byte b w)
    ∙ append_assoc (seen w) (select is_text (b ∷ [])) (select is_text p)
    ∙ ap (λ l. seen w ++ l) (sym (select-append is_text (b ∷ []) p))

abbrev pub fits : Line → Bool
fits l = leb 1 (length l) && leb (length l) max_line_bytes

-- The buffer is below the bound, and every line that was handed out is not empty and within it.
pub record Bounded (w : LineWriter) : Type 0 where
  pub short : length w.buf < max_line_bytes
  pub lines : all fits w.lines ≡ true

all-append : (xs ys : List Line) → all fits (xs ++ ys) ≡ (all fits xs && all fits ys)
all-append [] ys = refl
all-append (x ∷ xs) ys = ground (arith, all-append xs ys)

emit_buf-Bounded :
    (buf : Line) (lines : List Line)
    → length buf ≤ max_line_bytes
    → all fits lines ≡ true
    → Bounded (emit_buf buf lines)
unfolding emit_buf
emit_buf-Bounded [] lines h g = record { short = omega arith; lines = g }
emit_buf-Bounded (b ∷ buf) lines h g = record {
  short = omega arith;
  lines = ground (arith, h, g, all-append lines ((b ∷ buf) ∷ []));
}

write_byte-Bounded : (b : ℕ) (w : LineWriter) → Bounded w → Bounded (write_byte b w)
unfolding write_byte
write_byte-Bounded b w v =
    let longer : length (w.buf ++ b ∷ []) ≡ length w.buf + 1 = length-append w.buf (b ∷ []) in
    let short = v.short in
    elim (Bool-cases (b == 10)) [
      | inl q ↦ rw q (emit_buf-Bounded w.buf w.lines (omega arith) v.lines)
      | inr q ↦ elim (Bool-cases (b == 13)) [
        | inl r ↦ rw (q, r) v
        | inr r ↦ elim (Bool-cases (leb max_line_bytes (length (w.buf ++ b ∷ [])))) [
          | inl f ↦ rw (q, r, f) (emit_buf-Bounded (w.buf ++ b ∷ []) w.lines (omega arith) v.lines)
          | inr f ↦ rw (q, r, f) (record { short = ground (arith, f); lines = v.lines })
        ]
      ]
    ]

write-Bounded : (p : List ℕ) (w : LineWriter) → Bounded w → Bounded (write p w)
unfolding write
write-Bounded [] w v = v
write-Bounded (b ∷ p) w v = write-Bounded p (write_byte b w) (write_byte-Bounded b w v)

-- The writes of a process, one after the other.
unfoldable pub write_all : List (List ℕ) → LineWriter → LineWriter
unfolding write
write_all [] w = w
write_all (p ∷ chunks) w = write_all chunks (write p w)

write-append : (p q : List ℕ) (w : LineWriter) → write (p ++ q) w ≡ write q (write p w)
unfolding write
write-append [] q w = refl
write-append (b ∷ p) q w = write-append p q (write_byte b w)

-- How the output is cut into writes makes no difference.
pub write_all-flatten :
    (chunks : List (List ℕ)) (w : LineWriter) → write_all chunks w ≡ write (flatten chunks) w
unfolding write_all write
write_all-flatten [] w = refl
write_all-flatten (p ∷ chunks) w =
    write_all-flatten chunks (write p w) ∙ sym (write-append p (flatten chunks) w)

-- However the output is cut into writes, the lines that are handed out by the end are together all of
-- it but its line feeds and carriage returns, in order, and each of them is not empty and of 65536
-- bytes at most.
pub write_all_lossless :
    (chunks : List (List ℕ))
    → let w = flush (write_all chunks new_line_writer) in
      (flatten w.lines ≡ select is_text (flatten chunks)) × (all fits w.lines ≡ true)
unfolding flush
write_all_lossless chunks =
    let w = write (flatten chunks) new_line_writer in
    let v =
      write-Bounded (flatten chunks) new_line_writer
        (record { short = omega arith; lines = refl }) in
    let short = v.short in
    rw (write_all-flatten chunks new_line_writer) (
      (
        emptied w.buf w.lines
            ∙ seen-emit_buf w.buf w.lines
            ∙ seen-write (flatten chunks) new_line_writer,
        (emit_buf-Bounded w.buf w.lines (omega arith) v.lines).lines,
      ))
  where
    emptied :
        (buf : Line) (lines : List Line)
        → flatten (emit_buf buf lines).lines ≡ seen (emit_buf buf lines)
    emptied [] lines = sym (append-nil (flatten lines))
    emptied (b ∷ buf) lines = sym (append-nil (flatten (lines ++ (b ∷ buf) ∷ [])))

-- The text of lines, each with its line feed.
abbrev pub unlines : List Line → List ℕ
unlines [] = []
unlines (l ∷ lines) = l ++ 10 ∷ unlines lines

write_byte-text :
    (b : ℕ) (buf : Line) (lines : List Line)
    → is_text b ≡ true
    → length buf + 1 < max_line_bytes
    → write_byte b (record { buf = buf; lines = lines })
      ≡ record { buf = buf ++ b ∷ []; lines = lines }
unfolding write_byte
write_byte-text b buf lines h g = ground (arith, h, g, length-append buf (b ∷ []))

write-text :
    (l : Line) (buf : Line) (lines : List Line)
    → all is_text l ≡ true
    → length buf + length l < max_line_bytes
    → write l (record { buf = buf; lines = lines }) ≡ record { buf = buf ++ l; lines = lines }
unfolding write
write-text [] buf lines h g = ap (λ b. record { buf = b; lines = lines }) (sym (append-nil buf))
write-text (b ∷ l) buf lines h g =
    ap (write l) (write_byte-text b buf lines (ground (arith, h)) (omega arith))
    ∙ write-text l (buf ++ b ∷ []) lines (ground (arith, h))
        (omega (arith, g, length-append buf (b ∷ [])))
    ∙ ap (λ c. record { buf = c; lines = lines }) (append_assoc buf (b ∷ []) l)

-- A line that the writer can hold: not empty, of text, and below the bound.
abbrev pub is_line : Line → Bool
is_line l = leb 1 (length l) && ltb (length l) max_line_bytes && all is_text l

write-line :
    (l : Line) (lines : List Line)
    → is_line l ≡ true
    → write (l ++ 10 ∷ []) (record { buf = []; lines = lines })
      ≡ record { buf = []; lines = lines ++ l ∷ [] }
unfolding write write_byte emit_buf
write-line [] lines h = absurd (ground (arith, h))
write-line (b ∷ l) lines h =
    write-append (b ∷ l) (10 ∷ []) (record { buf = []; lines = lines })
    ∙ ap (write (10 ∷ [])) (write-text (b ∷ l) [] lines (ground (arith, h)) (ground (arith, h)))

write-unlines :
    (ls lines : List Line)
    → all is_line ls ≡ true
    → write (unlines ls) (record { buf = []; lines = lines })
      ≡ record { buf = []; lines = lines ++ ls }
unfolding write
write-unlines [] lines h = ap (λ l. record { buf = []; lines = l }) (sym (append-nil lines))
write-unlines (l ∷ ls) lines h =
    ap (λ t. write t (record { buf = []; lines = lines }))
      (sym (append_assoc l (10 ∷ []) (unlines ls)))
    ∙ write-append (l ++ 10 ∷ []) (unlines ls) (record { buf = []; lines = lines })
    ∙ ap (write (unlines ls)) (write-line l lines (ground (arith, h)))
    ∙ write-unlines ls (lines ++ l ∷ []) (ground (arith, h))
    ∙ ap (λ t. record { buf = []; lines = t }) (append_assoc lines (l ∷ []) ls)

-- Lines that are not empty, hold no line feed and no carriage return and are below 65536 bytes come out
-- as they went in, however the writes cut them, also the last one when it has no line feed.
pub write_all-unlines :
    (chunks : List (List ℕ)) (ls : List Line) (last : Line)
    → all is_line ls ≡ true
    → is_line last ≡ true
    → flatten chunks ≡ unlines ls ++ last
    → (flush (write_all chunks new_line_writer)).lines ≡ ls ++ last ∷ []
unfolding flush
write_all-unlines chunks ls last h g e =
    let w : write_all chunks new_line_writer ≡ record { buf = last; lines = ls } =
      write_all-flatten chunks new_line_writer
      ∙ ap (λ t. write t new_line_writer) e
      ∙ write-append (unlines ls) last new_line_writer
      ∙ ap (write last) (write-unlines ls [] h)
      ∙ write-text last [] ls (ground (arith, g)) (ground (arith, g)) in
    rw w (emitted last ls (ground (arith, g)))
  where
    emitted :
        (l : Line) (lines : List Line)
        → leb 1 (length l) ≡ true
        → (emit_buf l lines).lines ≡ lines ++ l ∷ []
    emitted [] lines q = absurd (ground (arith, q))
    emitted (b ∷ l) lines q = refl
