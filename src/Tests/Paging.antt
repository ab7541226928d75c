-- ===== src/Tests/Paging.antt =====
-- Pages of a list of the public API.
use uppity.Base.{
  ℕ, ◌≡◌, ◌≢◌, ◌≤◌, refl, Bool, true, Option, none, some, List, [], ◌∷◌, arith, ◌==◌, length,
}
use uppity.Tables.{Monitor}
use uppity.Pages.{listed}
use uppity.Pages.Order.{IsKeyed}
use uppity.Pages.Walk.{walk, walk-listed}
use uppity.Tests.Sample.{web}

abbrev made_at : Monitor → ℕ
made_at m = m.created_at

abbrev key_of : Monitor → ℕ
key_of m = m.id

abbrev of_seven : Monitor → Bool
of_seven m = m.organization_id == 7

-- Three monitors, two of one time.
abbrev three : List Monitor
three = record web { id = 2; created_at = 40 } ∷ web ∷ record web { id = 3; created_at = 40 } ∷ []

three-IsKeyed : IsKeyed made_at key_of three
three-IsKeyed = ((ground arith, (ground arith, tt)), ((ground arith, tt), (tt, tt)))

one_each : 1 ≤ 1
one_each = omega arith

three_at_most : length (listed made_at key_of of_seven three) ≤ 3
unfolding listed uppity.Base.rows_where uppity.Base.order_by
three_at_most = omega arith

walk-listed_example :
    walk made_at key_of of_seven three 1 3 none ≡ listed made_at key_of of_seven three
walk-listed_example =
    walk-listed made_at key_of of_seven three 1 3 three-IsKeyed one_each three_at_most
