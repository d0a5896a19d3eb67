-- ===== src/TimeWheel.antt =====
-- example-time-wheel/time_wheel.h, time_wheel.cc: a timer wheel of four levels of 256 slots.
-- A `Timer*` is a number, and `timers` the store of the timers, which the caller owns. What a tick
-- calls is the list of the timers whose functions run, in order; a function that calls back into
-- the wheel is not modelled.

pub mod Slots
pub mod Cascade
pub mod Tick
pub mod Near
pub mod Called
mod Tests
pub mod Pending
pub mod Safety
use Prim.Native.Nat.{bit_and}
use c_plus_plus_examples.Base.{
  ℕ, zero, suc, ◌+◌, ◌-◌, ◌*◌, ◌/◌, ◌%◌, ◌^◌, Bool, true, false, not, Option, none, some, List, [],
  ◌∷◌, ◌++◌, ltb, leb, ◌==◌, ◌&&◌, if◌then◌else◌,
}

-- `func` is left out: every timer has one, so the test of it in `Tick` holds.
pub record Timer : Type 0 where
  pub expires : ℕ
  pub active : Bool

-- `TVN_BITS`, `TVN_SIZE` and `TVN_NUM`.
abbrev pub tvn_bits : ℕ
tvn_bits = 8

abbrev pub tvn_size : ℕ
tvn_size = 256

abbrev pub tvn_num : ℕ
tvn_num = 4

pub record TimeWheel : Type 0 where
  pub tv : ℕ → ℕ → List ℕ
  pub tv_idx : ℕ → ℕ
  pub now : ℕ
  pub timers : ℕ → Timer

-- A new wheel, over the timers that the caller has.
unfoldable pub init : (ℕ → Timer) → TimeWheel
init timers = record { tv = λ _ _. []; tv_idx = λ _. 0; now = 0; timers = timers }

abbrev pub set_slot : (ℕ → ℕ → List ℕ) → ℕ → ℕ → List ℕ → ℕ → ℕ → List ℕ
set_slot tv level slot l = λ i j. if level == i && slot == j then l else tv i j

abbrev pub set_idx : (ℕ → ℕ) → ℕ → ℕ → ℕ → ℕ
set_idx idx level v = λ i. if level == i then v else idx i

abbrev pub deactivate : (ℕ → Timer) → ℕ → ℕ → Timer
deactivate timers t =
    λ u. if t == u then record { expires = (timers u).expires; active = false } else timers u

unfoldable pub get_level : ℕ → ℕ
get_level delta =
    if ltb delta (2 ^ 8)
    then 0
    else if ltb delta (2 ^ 16)
    then 1
    else if ltb delta (2 ^ 24)
    then 2
    else 3

-- The slot at a level. `adjusted_delta` is an `int`; its bits from `shift` on that the mask keeps
-- are those of the 32-bit pattern, whatever its sign.
unfoldable pub get_slot : ℕ → ℕ → ℕ
get_slot level delta =
    if level == 0
    then bit_and delta 255
    else bit_and ((delta - 2 ^ (8 * level)) % 2 ^ 32 / 2 ^ (8 * level)) 255

unfoldable pub get_delta : TimeWheel → ℕ → ℕ
get_delta w t =
    let expires = (w.timers t).expires in if leb expires w.now then 0 else expires - w.now

unfoldable pub push_back : TimeWheel → ℕ → ℕ → ℕ → TimeWheel
push_back w level slot t = record w { tv = set_slot w.tv level slot (w.tv level slot ++ (t ∷ [])) }

-- `AddTimer` for a timer that is there: the wheel, and what is returned.
add : TimeWheel → ℕ → TimeWheel × Bool
add w t =
    let delta = get_delta w t in
    let level = get_level delta in
    if not (w.timers t).active
    then (w, false)
    else if leb (2 ^ 32) delta
    then (w, false)
    else (push_back w level (get_slot level delta) t, true)

-- `AddTimer`, with `none` for `nullptr`.
unfoldable pub add_timer : TimeWheel → Option ℕ → TimeWheel × Bool
unfolding add get_delta get_level get_slot push_back
add_timer w none = (w, false)
add_timer w (some t) = add w t

-- `RemoveTimer`: the test is the wrong way round, so a timer is left as it is, and a null pointer
-- is dereferenced, which is `none`.
unfoldable pub remove_timer : TimeWheel → Option ℕ → Option TimeWheel
remove_timer w none = none
remove_timer w (some t) = some w

-- The loop of `Tick` over the current slot.
pub record Scan : Type 0 where
  pub kept : List ℕ
  pub expired : List ℕ
  pub timers : ℕ → Timer

unfoldable pub scan : ℕ → (ℕ → Timer) → List ℕ → Scan
scan now timers [] = record { kept = []; expired = []; timers = timers }
scan now timers (t ∷ l) =
    let active = (timers t).active in
    let due = leb (timers t).expires now in
    let r = scan now (if active && due then deactivate timers t else timers) l in
    if not active
    then r
    else if due
    then record r { expired = t ∷ r.expired }
    else record r { kept = t ∷ r.kept }

-- `AddTimer` on each active timer of the list.
unfoldable pub add_all : List ℕ → TimeWheel → TimeWheel
add_all [] w = w
add_all (t ∷ l) w = add_all l (if (w.timers t).active then (add_timer w (some t)).0 else w)

-- `Cascade(level)`; the fuel is the number of levels from `level` on.
unfoldable pub cascade : ℕ → ℕ → TimeWheel → TimeWheel
unfolding add_all add_timer
cascade zero level w = w
cascade (suc levels) level w =
    let slot = w.tv_idx level in
    let w1 = add_all (w.tv level slot) (record w { tv = set_slot w.tv level slot [] }) in
    let idx = (w1.tv_idx level + 1) % tvn_size in
    let w2 = record w1 { tv_idx = set_idx w1.tv_idx level idx } in
    let rest = cascade levels (level + 1) w2 in
    if idx == 0 && ltb (level + 1) tvn_num then rest else w2

-- `Tick`: the wheel, and the timers whose functions are called.
unfoldable pub tick : TimeWheel → TimeWheel × List ℕ
unfolding scan cascade
tick w =
    let now = (w.now + 1) % 2 ^ 64 in
    let slot = w.tv_idx 0 in
    let r = scan now w.timers (w.tv 0 slot) in
    let idx = (slot + 1) % tvn_size in
    let w' : TimeWheel = record {
      tv = set_slot w.tv 0 slot r.kept;
      tv_idx = set_idx w.tv_idx 0 idx;
      now = now;
      timers = r.timers;
    } in
    (if idx == 0 then cascade 3 1 w' else w', r.expired)
