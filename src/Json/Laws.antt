-- ===== src/Json/Laws.antt =====
-- Reading a dict behind a write to it.
use Prim.Native.String.{String}
use text.Mathlib.Text.{◌==◌}
use text.Mathlib.TextEquality.{eq_iff}
use fronius_modbus.Common.{◌≡◌, refl, some, arith, if◌then◌else◌}
use fronius_modbus.Json.{Json, Members, end, member, get, find, put}

pub get-put :
    (key j : String) (v : Json) (ms : Members)
    → get j (put key v ms) ≡ (if key == j then v else get j ms)
unfolding get put
get-put key j v end = refl
get-put key j v (member k w rest) =
    ground (arith, eq_iff key j, eq_iff k key, eq_iff k j, get-put key j v rest)

pub find-put :
    (key j : String) (v : Json) (ms : Members)
    → find j (put key v ms) ≡ (if key == j then some v else find j ms)
unfolding find put
find-put key j v end = refl
find-put key j v (member k w rest) =
    ground (arith, eq_iff key j, eq_iff k key, eq_iff k j, find-put key j v rest)
