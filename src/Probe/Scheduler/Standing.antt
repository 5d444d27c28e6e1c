-- ===== src/Probe/Scheduler/Standing.antt =====
-- Where a worker of internal/probe/scheduler.go can stand, by what its next step waits for.
use egressfox.Base.{true, false, Bool, ◌≡◌, refl}
use egressfox.Probe.Scheduler.{
  waiting, taken, has_endpoint, executing, recorded, released, cancelling, finished, Pc,
}

-- Workers whose next step waits for nothing, and those that wait for a semaphore.
abbrev pub is_free : Pc → Bool
is_free (executing i) = true
is_free (recorded i) = true
is_free (released i) = true
is_free (cancelling i) = true
is_free waiting = false
is_free (taken i) = false
is_free (has_endpoint i) = false
is_free finished = false

abbrev pub has_token : Pc → Bool
has_token (has_endpoint i) = true
has_token (executing i) = true
has_token (recorded i) = true
has_token (released i) = true
has_token waiting = false
has_token (taken i) = false
has_token (cancelling i) = false
has_token finished = false

abbrev pub waits_for_target : Pc → Bool
waits_for_target (has_endpoint i) = true
waits_for_target waiting = false
waits_for_target (taken i) = false
waits_for_target (executing i) = false
waits_for_target (recorded i) = false
waits_for_target (released i) = false
waits_for_target (cancelling i) = false
waits_for_target finished = false

abbrev pub is_taken : Pc → Bool
is_taken (taken i) = true
is_taken waiting = false
is_taken (has_endpoint i) = false
is_taken (executing i) = false
is_taken (recorded i) = false
is_taken (released i) = false
is_taken (cancelling i) = false
is_taken finished = false

abbrev pub is_waiting : Pc → Bool
is_waiting waiting = true
is_waiting (taken i) = false
is_waiting (has_endpoint i) = false
is_waiting (executing i) = false
is_waiting (recorded i) = false
is_waiting (released i) = false
is_waiting (cancelling i) = false
is_waiting finished = false

pub is_finished-rest :
    (pc : Pc)
    → is_free pc ≡ false
    → has_token pc ≡ false
    → is_taken pc ≡ false
    → is_waiting pc ≡ false
    → pc ≡ finished
is_finished-rest waiting a b c d = cc
is_finished-rest (taken i) a b c d = cc
is_finished-rest (has_endpoint i) a b c d = cc
is_finished-rest (executing i) a b c d = cc
is_finished-rest (recorded i) a b c d = cc
is_finished-rest (released i) a b c d = cc
is_finished-rest (cancelling i) a b c d = cc
is_finished-rest finished a b c d = refl

pub is_waiting-eq : (pc : Pc) → is_waiting pc ≡ true → pc ≡ waiting
is_waiting-eq waiting h = refl
is_waiting-eq (taken i) h = cc
is_waiting-eq (has_endpoint i) h = cc
is_waiting-eq (executing i) h = cc
is_waiting-eq (recorded i) h = cc
is_waiting-eq (released i) h = cc
is_waiting-eq (cancelling i) h = cc
is_waiting-eq finished h = cc
