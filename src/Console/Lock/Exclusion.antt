-- ===== src/Console/Lock/Exclusion.antt =====
-- internal/console/lock.go: never two processes in one work directory.
use aicrme.Prelude.{
  ℕ, zero, suc, ◌+◌, ◌≤◌, ◌≡◌, refl, String, List, [], ◌∷◌, none, some, arith, if◌then◌else◌,
  is_some,
}
use aicrme.Console.Lock.{
  Host, Stage, outside, writing, closing, holding, releasing, removing, refused, Process, LockFile,
  Answer, LockPid, no_file, no_pid, pid_of, read_lock_pid, look, open_lock, write_lock, close_lock,
  withdraw_lock, withdrawing, release_lock, remove_lock, proceed, proceed_at, proceed_all,
}

-- 1 from the creation of the file by this process up to its removal.
abbrev pub share : Stage → ℕ
share outside = 0
share (refused e) = 0
share writing = 1
share (withdrawing e) = 1
share closing = 1
share holding = 1
share releasing = 1
share removing = 1

abbrev pub holders : List Process → ℕ
holders [] = 0
holders (p ∷ ps) = share p.stage + holders ps

abbrev room : LockFile → ℕ
room none = 0
room (some text) = 1

room-le : (file : LockFile) → room file ≤ 1
room-le none = omega arith
room-le (some text) = omega arith

release_lock-share : (pid : ℕ) (l : LockPid) → share (release_lock pid l) ≤ 1
unfolding release_lock
release_lock-share pid no_file = omega arith
release_lock-share pid (no_pid e) = omega arith
release_lock-share pid (pid_of held) = ground arith

-- With `others` other holders, which leave room for this process.
proceed-room :
    (host : Host) (path : String) (pid : ℕ) (answer : Answer) (stage : Stage) (file : LockFile)
    (others : ℕ)
    → share stage + others ≤ room file
    → share (proceed host path pid answer stage file).0 + others
      ≤ room (proceed host path pid answer stage file).1
unfolding proceed open_lock write_lock close_lock withdraw_lock remove_lock
proceed-room host path pid answer outside (some text) others h = omega arith
proceed-room host path pid none outside none others h = omega arith
proceed-room host path pid (some e) outside none others h = omega arith
proceed-room host path pid answer (refused e) (some text) others h = omega arith
proceed-room host path pid none (refused e) none others h = omega arith
proceed-room host path pid (some e) (refused f) none others h = omega arith
proceed-room host path pid none writing file others h = omega (arith, room-le file)
proceed-room host path pid (some e) writing file others h = omega arith
proceed-room host path pid none closing file others h = omega arith
proceed-room host path pid (some e) closing file others h = omega arith
proceed-room host path pid none (withdrawing e) file others h = omega (arith, room-le file)
proceed-room host path pid (some f) (withdrawing e) file others h = omega (arith, room-le file)
proceed-room host path pid answer holding file others h = omega arith
proceed-room host path pid answer releasing file others h =
    omega (arith, release_lock-share pid (read_lock_pid host (look file answer)))
proceed-room host path pid none removing file others h = omega (arith, room-le file)
proceed-room host path pid (some e) removing file others h = omega arith

proceed_at-room :
    (host : Host) (path : String) (n : ℕ) (answer : Answer) (ps : List Process) (file : LockFile)
    (others : ℕ)
    → holders ps + others ≤ room file
    → holders (proceed_at host path n answer ps file).0 + others
      ≤ room (proceed_at host path n answer ps file).1
unfolding proceed_at
proceed_at-room host path n answer [] file others h = h
proceed_at-room host path zero answer (p ∷ ps) file others h = omega (
  arith,
  proceed-room host path p.pid answer p.stage file (holders ps + others) (omega (arith, h)),
)
proceed_at-room host path (suc n) answer (p ∷ ps) file others h =
    omega (
      arith,
      proceed_at-room host path n answer ps file (share p.stage + others) (omega (arith, h)),
    )

proceed_all-room :
    (host : Host) (path : String) (steps : List (ℕ × Answer)) (ps : List Process) (file : LockFile)
    → holders ps ≤ room file
    → holders (proceed_all host path steps ps file).0 ≤ room (proceed_all host path steps ps file).1
unfolding proceed_all
proceed_all-room host path [] ps file h = h
proceed_all-room host path ((n, answer) ∷ rest) ps file h =
    proceed_all-room host path rest (proceed_at host path n answer ps file).0
      (proceed_at host path n answer ps file).1
      (omega (arith, proceed_at-room host path n answer ps file 0 (omega (arith, h))))

-- However the calls of any number of processes alternate and fail, and whatever the file holds at the
-- start, at most one process is ever between the creation of the file and its removal, and none when
-- there is no file.
pub lock_excludes :
    (host : Host) (path : String) (steps : List (ℕ × Answer)) (ps : List Process) (file : LockFile)
    → holders ps ≡ 0
    → let (ps', file') = proceed_all host path steps ps file in
      holders ps' ≤ (if is_some file' then 1 else 0)
lock_excludes host path steps ps file h =
    let r = proceed_all host path steps ps file in
    omega (arith, proceed_all-room host path steps ps file (omega (arith, h)), room-eq r.1)
  where
    room-eq : (file : LockFile) → room file ≡ (if is_some file then 1 else 0)
    room-eq none = refl
    room-eq (some text) = refl
