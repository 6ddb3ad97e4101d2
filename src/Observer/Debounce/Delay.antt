-- ===== src/Observer/Debounce/Delay.antt =====
-- internal/observer/debounce.go: the window delays what lasts and swallows what corrects itself.
use aicrme.Prelude.{
  ◌≡◌, ◌≢◌, refl, ap₂, ◌∙◌, List, [], ◌∷◌, ◌++◌, Bool, true, false, ◌||◌, eq_iff, Option, none,
  some, arith, All, any, Option-cases, inl, inr,
}
use aicrme.Bus.Cluster.{ClusterData, rank}
use aicrme.Observer.Debounce.{
  ConditionKey, key_eq, PendingCondition, Debouncer, lookup, key_of, passes_through, submit,
  emitted, release, Call, submits, releases, stops, step,
}
use aicrme.Observer.Debounce.Window.{
  IsWaiting, run, lookup-IsWaiting, step-IsWaiting, step-slot, slot_step, lookup-delete,
}

or_false : (a b : Bool) → (a || b) ≡ false → (a ≡ false) × (b ≡ false)
or_false a b h = ground arith

-- A call about the condition `k`, or the stop.
abbrev pub touches : ConditionKey → Call → Bool
touches k (submits c) = key_eq (key_of c.cd) k
touches k (releases j) = key_eq j k
touches k stops = true

-- Nothing about the condition `k` among what was published.
abbrev pub Silent : ConditionKey → List PendingCondition → Type 0
Silent k = All (λ p. key_eq (key_of p.cd) k ≡ false)

Silent-append :
    (k : ConditionKey) (xs ys : List PendingCondition)
    → Silent k xs
    → Silent k ys
    → Silent k (xs ++ ys)
Silent-append k [] ys hx hy = hy
Silent-append k (x ∷ xs) ys hx hy = (hx.0, Silent-append k xs ys hx.1 hy)

record Untouched (d d' : Debouncer) (k : ConditionKey) (out : List PendingCondition) : Type 0 where
  slot_kept : lookup k d'.pending ≡ lookup k d.pending
  stopped_kept : d'.stopped ≡ d.stopped
  delay_kept : d'.delay ≡ d.delay
  waiting : All IsWaiting d'.pending
  silent : Silent k out

slot_untouched :
    (d : Debouncer) (c : Call) (k : ConditionKey) (s : Option PendingCondition)
    → touches k c ≡ false
    → slot_step d c k s ≡ s
slot_untouched d (submits c) k s h = ground arith
slot_untouched d (releases j) k s h = ground arith
slot_untouched d stops k s h = cc

released-Silent :
    (d : Debouncer) (j k : ConditionKey) (p : PendingCondition)
    → IsWaiting (j, p)
    → key_eq j k ≡ false
    → Silent k (emitted d.stopped (some p))
released-Silent d j k p w h = ground arith

step-Silent :
    (d : Debouncer) (c : Call) (k : ConditionKey)
    → touches k c ≡ false
    → All IsWaiting d.pending
    → ((step d c).0.stopped ≡ d.stopped) × ((step d c).0.delay ≡ d.delay) × Silent k (step d c).1
unfolding step submit release
step-Silent d (submits c) k h v = ground arith
step-Silent d (releases j) k h v = (
  refl,
  refl,
  elim (Option-cases (lookup j d.pending)) [
    | inl e ↦ rw e tt
    | inr (p, e) ↦ rw e (released-Silent d j k p (lookup-IsWaiting j d.pending p v e) h)
  ],
)
step-Silent d stops k h v = cc

step-Untouched :
    (d : Debouncer) (c : Call) (k : ConditionKey)
    → touches k c ≡ false
    → All IsWaiting d.pending
    → Untouched d (step d c).0 k (step d c).1
step-Untouched d c k h v =
    let (s, t, q) = step-Silent d c k h v in
    record {
      slot_kept = step-slot d c k ∙ slot_untouched d c k (lookup k d.pending) h;
      stopped_kept = s;
      delay_kept = t;
      waiting = step-IsWaiting d c v;
      silent = q;
    }

run-Untouched :
    (d : Debouncer) (cs : List Call) (k : ConditionKey)
    → any (touches k) cs ≡ false
    → All IsWaiting d.pending
    → Untouched d (run d cs).0 k (run d cs).1
unfolding run
run-Untouched d [] k h v = record {
  slot_kept = refl;
  stopped_kept = refl;
  delay_kept = refl;
  waiting = v;
  silent = tt;
}
run-Untouched d (c ∷ cs) k h v =
    let (head_quiet, rest_quiet) = or_false (touches k c) (any (touches k) cs) h in
    let u = step-Untouched d c k head_quiet v in
    let w = run-Untouched (step d c).0 cs k rest_quiet u.waiting in
    record {
      slot_kept = w.slot_kept ∙ u.slot_kept;
      stopped_kept = w.stopped_kept ∙ u.stopped_kept;
      delay_kept = w.delay_kept ∙ u.delay_kept;
      waiting = w.waiting;
      silent = Silent-append k (step d c).1 (run (step d c).0 cs).1 u.silent w.silent;
    }

-- The arise of a condition that is neither published inline nor refused.
abbrev pub IsHeld : Debouncer → PendingCondition → Type 0
IsHeld d c = (d.stopped ≡ false) × (passes_through d c.cd ≡ false) × (c.cd.resolved ≡ false)

held_step :
    (d : Debouncer) (c : PendingCondition)
    → IsHeld d c
    → ((step d (submits c)).1 ≡ [])
      × ((step d (submits c)).0.stopped ≡ false)
      × ((step d (submits c)).0.delay ≡ d.delay)
      × (lookup (key_of c.cd) (step d (submits c)).0.pending ≡ some c)
unfolding step submit lookup
held_step d c h = ground (arith, eq_iff c.cd.uid c.cd.uid, eq_iff c.cd.reason c.cd.reason)

release_slot :
    (d : Debouncer) (k : ConditionKey) (c : PendingCondition)
    → d.stopped ≡ false
    → lookup k d.pending ≡ some c
    → (release k d).1 ≡ c ∷ []
unfolding release
release_slot d k c s e = ground arith

-- A held arise that nothing touches until its timer fires is published by that timer, as it was
-- observed, and nothing about its condition is published before.
pub held_is_released :
    (d : Debouncer) (c : PendingCondition) (cs : List Call)
    → All IsWaiting d.pending
    → IsHeld d c
    → any (touches (key_of c.cd)) cs ≡ false
    → let (d', out) = run d (submits c ∷ cs) in
      Silent (key_of c.cd) out × ((release (key_of c.cd) d').1 ≡ c ∷ [])
unfolding run
held_is_released d c cs v h q =
    let (silent, live, _, slot) = held_step d c h in
    let u =
      run-Untouched (step d (submits c)).0 cs (key_of c.cd) q (step-IsWaiting d (submits c) v) in
    (
      rw silent u.silent,
      release_slot (run (step d (submits c)).0 cs).0 (key_of c.cd) c (u.stopped_kept ∙ live)
          (u.slot_kept ∙ slot),
    )

-- A resolution with the key of a held condition, and not of severity info, is not published inline.
passes-same :
    (d d' : Debouncer) (c r : ClusterData)
    → d'.delay ≡ d.delay
    → r.uid ≡ c.uid
    → r.reason ≡ c.reason
    → rank r.severity ≢ 0
    → passes_through d c ≡ false
    → passes_through d' r ≡ false
passes-same d d' c r e u n t h = ground arith

resolve_step :
    (d : Debouncer) (r c : PendingCondition)
    → d.stopped ≡ false
    → passes_through d r.cd ≡ false
    → r.cd.resolved ≡ true
    → lookup (key_of r.cd) d.pending ≡ some c
    → ((submit r d).1 ≡ []) × (lookup (key_of r.cd) (submit r d).0.pending ≡ none)
unfolding submit
resolve_step d r c s p h e = ground (
  arith,
  lookup-delete (key_of r.cd) (key_of r.cd) d.pending,
  eq_iff r.cd.uid r.cd.uid,
  eq_iff r.cd.reason r.cd.reason,
)

-- A held arise whose resolution comes before its timer leaves no trace: nothing about the condition
-- is published before the resolution, and the resolution publishes nothing.
pub flicker_is_Silent :
    (d : Debouncer) (c r : PendingCondition) (cs : List Call)
    → All IsWaiting d.pending
    → IsHeld d c
    → any (touches (key_of c.cd)) cs ≡ false
    → r.cd.uid ≡ c.cd.uid
    → r.cd.reason ≡ c.cd.reason
    → rank r.cd.severity ≢ 0
    → r.cd.resolved ≡ true
    → let (d', out) = run d (submits c ∷ cs) in
      Silent (key_of c.cd) out
      × ((submit r d').1 ≡ [])
      × (lookup (key_of r.cd) (submit r d').0.pending ≡ none)
unfolding run
flicker_is_Silent d c r cs v h q same_uid same_reason trouble done =
    let (silent, live, delay, slot) = held_step d c h in
    let u =
      run-Untouched (step d (submits c)).0 cs (key_of c.cd) q (step-IsWaiting d (submits c) v) in
    let d' = (run (step d (submits c)).0 cs).0 in
    let kept : lookup (key_of r.cd) d'.pending ≡ some c =
      ap₂ (λ a b. lookup (record { uid = a; reason = b }) d'.pending) same_uid same_reason
      ∙ u.slot_kept
      ∙ slot in
    let (quiet, gone) =
      resolve_step d' r c (u.stopped_kept ∙ live)
        (passes-same d d' c.cd r.cd (u.delay_kept ∙ delay) same_uid same_reason trouble h.1) done
        kept in
    (rw silent u.silent, quiet, gone)

info_passes : (d : Debouncer) (c : ClusterData) → rank c.severity ≡ 0 → passes_through d c ≡ true
info_passes d c h = ground arith

submit_inline :
    (d : Debouncer) (r : PendingCondition)
    → d.stopped ≡ false
    → passes_through d r.cd ≡ true
    → submit r d ≡ (d, r ∷ [])
unfolding submit
submit_inline d r s p = rw (s, p)

-- A resolution of severity info does not cancel the held arise of its own condition: it is published
-- at once, and the arise, when its timer fires, is published after it.
pub info_resolution_overtaken :
    (d : Debouncer) (c r : PendingCondition)
    → IsHeld d c
    → rank r.cd.severity ≡ 0
    → (run d (submits c ∷ submits r ∷ releases (key_of c.cd) ∷ [])).1 ≡ r ∷ c ∷ []
unfolding run step
info_resolution_overtaken d c r h info =
    let (silent, live, _, slot) = held_step d c h in
    let d' = (step d (submits c)).0 in
    let inline = submit_inline d' r live (info_passes d' r.cd info) in
    rw (silent, inline, live, slot)
