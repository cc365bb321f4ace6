-- ===== src/Sessions/Lease.antt =====
-- apps/onboard/server/idle-lifecycle.ts, `IdleLifecycle`: the leases that operations hold, and when
-- the installer may exit. Each lease's closure has its own flag `released`; here the flags are a list,
-- by the number of the lease. Times are milliseconds.
pub mod Counting
pub mod Released
pub mod Flags
use persistent_memory_stack.Prelude.{
  Bool, List, [], false, get_elem?, ltb, none, some, suc, true, zero, ℕ, ◌&&◌, ◌++◌, ◌+◌, ◌==◌, ◌∷◌,
}
use persistent_memory_stack.Prelude.Int.{negsuc, pos, ℤ}

pub record IdleLifecycle : Type 0 where
  pub timeout_ms : ℕ
  pub last_activity : ℕ
  pub active_work : ℤ
  pub released : List Bool

unfoldable pub start : ℕ → ℕ → IdleLifecycle
start timeout now = record {
  timeout_ms = timeout;
  last_activity = now;
  active_work = pos 0;
  released = [];
}

unfoldable pub touch : ℕ → IdleLifecycle → IdleLifecycle
touch now l = record l { last_activity = now }

abbrev pub increment : ℤ → ℤ
increment (pos n) = pos (n + 1)
increment (negsuc zero) = pos 0
increment (negsuc (suc n)) = negsuc n

abbrev pub decrement : ℤ → ℤ
decrement (pos zero) = negsuc 0
decrement (pos (suc n)) = pos n
decrement (negsuc n) = negsuc (n + 1)

-- The new lease is the last.
unfoldable pub begin_work : IdleLifecycle → IdleLifecycle
begin_work l = record l {
  active_work = increment l.active_work;
  released = l.released ++ (false ∷ []);
}

pub set_released : ℕ → List Bool → List Bool
set_released i [] = []
set_released zero (b ∷ bs) = true ∷ bs
set_released (suc i) (b ∷ bs) = b ∷ set_released i bs

-- The function that `beginWork` returned; there is none for a number that was not given out.
unfoldable pub release : ℕ → ℕ → IdleLifecycle → IdleLifecycle
unfolding set_released
release now i l = elim (get_elem? l.released i) [
  | none ↦ l
  | some true ↦ l
  | some false ↦
      touch now
        (record l { active_work = decrement l.active_work; released = set_released i l.released })
]

abbrev pub is_zero : ℤ → Bool
is_zero (pos n) = n == 0
is_zero (negsuc n) = false

-- `now - lastActivity > timeoutMs`, where the difference may be negative.
unfoldable pub should_exit : ℕ → IdleLifecycle → Bool
should_exit now l = is_zero l.active_work && ltb (l.last_activity + l.timeout_ms) now

pub data Event : Type 0 where
  touched : ℕ → Event
  began : Event
  finished : ℕ → ℕ → Event

unfoldable pub handle : Event → IdleLifecycle → IdleLifecycle
handle (touched now) l = touch now l
handle began l = begin_work l
handle (finished now i) l = release now i l

-- The events, the latest first.
unfoldable pub handle_all : List Event → IdleLifecycle → IdleLifecycle
handle_all [] l = l
handle_all (e ∷ past) l = handle e (handle_all past l)
