-- ===== src/Console/Lock.antt =====
-- internal/console/lock.go: the file that keeps a second process out of a work directory. Each step is
-- one call of the operating system, and the processes take theirs in any order. Nobody deletes the file by
-- hand.
pub mod Exclusion
use aicrme.Prelude.{
  ℕ, zero, suc, String, str_append, Bool, false, List, [], ◌∷◌, Option, none, some, ◌==◌,
  if◌then◌else◌,
}

-- What is outside of this code: how a number is printed and read (with `strings.TrimSpace`), and what
-- `kill(pid, 0)` says of a pid.
pub record Host : Type 0 where
  pub itoa : ℕ → String
  pub atoi : String → Option ℕ
  pub signals : ℕ → Bool

-- Where a process stands in `acquireLock` and `releaseLock`; `holding` is in between, and `withdrawing`
-- is before the removal that follows a failure.
pub data Stage : Type 0 where
  outside writing closing holding releasing removing : Stage
  refused withdrawing : String → Stage

-- A process with its pid.
pub record Process : Type 0 where
  pub pid : ℕ
  pub stage : Stage

-- The file's contents, and the error's text where reading it fails.
pub data Reading : Type 0 where
  missing : Reading
  unreadable : String → Reading
  contents : String → Reading

pub data LockPid : Type 0 where
  no_file : LockPid
  no_pid : String → LockPid
  pid_of : ℕ → LockPid

-- `readLockPID`
unfoldable pub read_lock_pid : Host → Reading → LockPid
read_lock_pid host missing = no_file
read_lock_pid host (unreadable e) = no_pid e
read_lock_pid host (contents text) = parsed (host.atoi text)
  where
    parsed : Option ℕ → LockPid
    parsed none = no_pid (str_append "contents " (str_append text " are not a pid"))
    parsed (some pid) = pid_of pid

unfoldable pub process_live : Host → ℕ → Bool
process_live host zero = false
process_live host (suc pid) = host.signals (suc pid)

abbrev unread : String → String → String
unread path e = str_append "another aicrme may be using this work directory: " (
    str_append path (
      str_append " exists but could not be read ("
        (str_append e "). Check for a running aicrme, then delete the file if there is none")))

-- `lockHeldError`
unfoldable pub lock_held_error : Host → String → LockPid → String
unfolding process_live
lock_held_error host path no_file = unread path "file does not exist"
lock_held_error host path (no_pid e) = unread path e
lock_held_error host path (pid_of pid) =
    if process_live host pid
    then str_append "another aicrme (pid " (
        str_append (host.itoa pid) (
          str_append ") is using this work directory; its lock is " (
            str_append path
              ". Use that console, or start this one with --work-dir pointing somewhere else")))
    else str_append "this work directory is locked by pid " (
        str_append (host.itoa pid) (
          str_append ", which is no longer running -- " (
            str_append path
              " was left behind by a crash or a kill. Confirm no aicrme is running and delete the file to continue")))

-- The lock file, `none` when there is none, and whether an earlier process may have left it.
abbrev pub LockFile : Type 0
LockFile = Option String

abbrev pub look : LockFile → Option String → Reading
look none e = missing
look (some text) none = contents text
look (some text) (some e) = unreadable e

-- What the operating system does with the next call of a process: it succeeds, or fails with a text.
abbrev pub Answer : Type 0
Answer = Option String

-- `os.OpenFile` with O_CREATE and O_EXCL; a failure is one for another reason than that the file exists.
unfoldable pub open_lock : Host → String → Answer → LockFile → Stage × LockFile
unfolding lock_held_error read_lock_pid
open_lock host path answer (some text) =
    (refused (lock_held_error host path (read_lock_pid host (look (some text) answer))), some text)
open_lock host path (some e) none = (
  refused (str_append "creating the work directory lock " (str_append path (str_append ": " e))),
  none,
)
open_lock host path none none = (writing, some "")

-- `f.WriteString`
unfoldable pub write_lock : Host → String → ℕ → Answer → LockFile → Stage × LockFile
write_lock host path pid none file = (closing, some (host.itoa pid))
write_lock host path pid (some e) file = (
  withdrawing (str_append "writing the work directory lock " (str_append path (str_append ": " e))),
  file,
)

-- `f.Close`
unfoldable pub close_lock : String → Answer → LockFile → Stage × LockFile
close_lock path none file = (holding, file)
close_lock path (some e) file = (
  withdrawing (str_append "closing the work directory lock " (str_append path (str_append ": " e))),
  file,
)

-- `_ = os.Remove(path)`
unfoldable pub withdraw_lock : String → Answer → LockFile → Stage × LockFile
withdraw_lock reason none file = (refused reason, none)
withdraw_lock reason (some e) file = (refused reason, file)

-- The tests of `releaseLock`.
unfoldable pub release_lock : ℕ → LockPid → Stage
release_lock pid no_file = outside
release_lock pid (no_pid e) = outside
release_lock pid (pid_of held) = if held == pid then removing else outside

-- `os.Remove`
unfoldable pub remove_lock : Answer → LockFile → Stage × LockFile
remove_lock none file = (outside, none)
remove_lock (some e) file = (outside, file)

-- The next call of a process. From `outside` and after a refusal it may try again; it releases the lock
-- when it ends.
unfoldable pub proceed : Host → String → ℕ → Answer → Stage → LockFile → Stage × LockFile
unfolding open_lock write_lock close_lock withdraw_lock release_lock remove_lock read_lock_pid
proceed host path pid answer outside file = open_lock host path answer file
proceed host path pid answer (refused e) file = open_lock host path answer file
proceed host path pid answer writing file = write_lock host path pid answer file
proceed host path pid answer closing file = close_lock path answer file
proceed host path pid answer (withdrawing reason) file = withdraw_lock reason answer file
proceed host path pid answer holding file = (releasing, file)
proceed host path pid answer releasing file =
    (release_lock pid (read_lock_pid host (look file answer)), file)
proceed host path pid answer removing file = remove_lock answer file

-- The process at a position of the list takes its next call.
unfoldable pub proceed_at :
    Host → String → ℕ → Answer → List Process → LockFile → List Process × LockFile
unfolding proceed
proceed_at host path n answer [] file = ([], file)
proceed_at host path zero answer (p ∷ ps) file =
    let (stage, file') = proceed host path p.pid answer p.stage file in
    (record p { stage = stage } ∷ ps, file')
proceed_at host path (suc n) answer (p ∷ ps) file =
    let (ps', file') = proceed_at host path n answer ps file in (p ∷ ps', file')

unfoldable pub proceed_all :
    Host → String → List (ℕ × Answer) → List Process → LockFile → List Process × LockFile
unfolding proceed_at
proceed_all host path [] ps file = (ps, file)
proceed_all host path ((n, answer) ∷ rest) ps file =
    let (ps', file') = proceed_at host path n answer ps file in proceed_all host path rest ps' file'
