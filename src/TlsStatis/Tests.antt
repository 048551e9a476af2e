-- ===== src/TlsStatis/Tests.antt =====
-- The rates of 722device/statis/tls_statis_rate.c: a run, and the theorem at it.
use ai_coding_for_business.Common.{◌+◌, ◌≡◌, refl, arith, List, [], ◌∷◌}
use ai_coding_for_business.TlsStatis.{started, integer_rate, count, poll}
use ai_coding_for_business.TlsStatis.Totals.{Event, counts, polls, run, run-total}

-- The second look finds that the interval is over.
abbrev events : List Event
events = counts 500 ∷ polls 5000000 5000001 ∷ counts 20 ∷ polls 5000002 5000003 ∷ counts 7 ∷ []

shown : (run integer_rate events started).1 ≡ 520
unfolding run poll count
shown = refl

run-total_example :
    (run integer_rate events started).0.bytes + (run integer_rate events started).1 ≡ 527
run-total_example =
    run-total integer_rate 18446744073709551 (λ n h. omega arith) (omega arith) events started refl
      (omega arith)
