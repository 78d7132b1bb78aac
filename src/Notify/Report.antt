-- ===== src/Notify/Report.antt =====
-- `tenant_check_notification`: what is reported, and what is marked as reported.
use opticon.Prelude.{ℕ, Bool, true, false, List, [], ◌∷◌, if◌then◌else◌}
use opticon.Links.Cells.{Cells}
use opticon.Notify.{Notification, waited, Issue, issue, marked}

-- those of a list that have waited so long, unreported
abbrev pub waiting : ℕ → ℕ → Cells Notification → List Issue
waiting seconds now [] = []
waiting seconds now ((a, v) ∷ xs) =
    if waited seconds now v then issue v ∷ waiting seconds now xs else waiting seconds now xs

abbrev pub mark : ℕ → Cells Notification → Cells Notification
mark now [] = []
mark now ((a, v) ∷ xs) = (a, if waited 120 now v then marked v else v) ∷ mark now xs

-- whether some have waited so long
abbrev pub any_waiting : ℕ → ℕ → Cells Notification → Bool
any_waiting seconds now [] = false
any_waiting seconds now ((a, v) ∷ xs) =
    if waited seconds now v then true else any_waiting seconds now xs
