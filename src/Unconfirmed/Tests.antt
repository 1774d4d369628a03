-- ===== src/Unconfirmed/Tests.antt =====
-- The processes of lab4/zad3a/main.c with a count of 2.
use sys_opy.Common.{◌≡◌, ◌≤◌, refl, true, false, ◌⊎◌}
use sys_opy.Unconfirmed.{System, Step, Reach, beginning, stay, done}
use sys_opy.Unconfirmed.Invariant.{queued_counts_all, counts_at_most}
use sys_opy.Unconfirmed.Progress.{some_process_goes_on}
use sys_opy.Unconfirmed.Race.{over_now, to_end, answers_lost}

queued_counts_all_example : (over_now 2).child.counter ≡ 2
queued_counts_all_example = queued_counts_all 2 (over_now 2) (to_end 2) refl refl

counts_at_most_example : (over_now 2).child.counter ≤ 2
counts_at_most_example = counts_at_most true 2 (over_now 2) (to_end 2)

some_process_goes_on_example :
    ((t : System) × Step false 2 beginning t)
    ⊎ ((beginning.parent_place ≡ done) × (beginning.child_place ≡ done))
some_process_goes_on_example = some_process_goes_on false 2 beginning (stay beginning)

answers_lost_example :
    (s : System) × Reach true 2 beginning s
    × (s.parent_place ≡ done)
    × (s.child_place ≡ done)
    × (s.child.counter ≡ 2)
    × (s.parent.counter ≡ 0)
answers_lost_example = answers_lost 2
