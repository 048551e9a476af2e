-- ===== src/TlsEvent/Tests.antt =====
-- The events of 722device/com/tls_event.c: a run, and the theorem at it.
use ai_coding_for_business.Common.{◌≡◌, true, false, some, [], ◌∷◌}
use ai_coding_for_business.TlsEvent.{initialize}
use ai_coding_for_business.TlsEvent.Refine.{sets, timewaits, run, of_flag, run-refines}

-- An event that is reset by a wait: the first wait is woken, and the second one runs out of time.
run-refines_example :
    run (sets ∷ sets ∷ timewaits 3000 ∷ timewaits 3000 ∷ []) (initialize true false)
    ≡ some (0 ∷ 0 ∷ 1 ∷ 0 ∷ [], of_flag true false)
run-refines_example = run-refines true false (sets ∷ sets ∷ timewaits 3000 ∷ timewaits 3000 ∷ [])
