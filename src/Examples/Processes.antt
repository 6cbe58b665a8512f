-- ===== src/Examples/Processes.antt =====
-- The scheduler on a table with idle, the kernel's own process and two servers.
use leoman.Base.{ℕ, zero, suc, ◌+◌, ◌*◌, ◌<◌, true, false, none, some, List, [], ◌∷◌}
use leoman.Base.{◌≡◌, refl, ◌⊎◌, arith, replicate}
use leoman.Proc.{
  Proc, ProcState, unused, running, ready, recv_blocked, Kernel, find_next_proc, has_state, is_at,
  state_value,
}
use leoman.Proc.Cursor.{matches, around, find_next_proc_lem}
use leoman.Sched.Dispatch.{HavePids, IsWaiting}
use leoman.Sched.Fairness.{scheduler_fair, RunsWithin}

abbrev slot : ℕ → ProcState → Proc (Unit {0})
slot pid state = record {
  pid = pid;
  state = state;
  name = [];
  privileged = true;
  superuser = false;
  trapframe = 0x1000 * pid;
  kstack = 0x2000 * pid;
  ustack = 0;
  pdir = 0x3000 * pid;
  memsz = 0;
  location_address = 0;
  location_size = 0;
  recv_queue = tt;
}

abbrev table : List (Proc (Unit {0}))
table =
    slot 1 ready
    ∷ slot 2 running
    ∷ slot 3 recv_blocked
    ∷ slot 4 ready
    ∷ replicate 60 (slot 0 unused)

abbrev machine : Kernel (Unit {0})
machine = record {
  procs = table;
  next_pid = 5;
  idle = some 0;
  current_proc = some 1;
  scheduling_enabled = true;
  cursor = 63;
  ss0 = 0x10;
  esp0 = 0x4000;
  cr3 = 0x6000;
}

replicate-HavePids : (n : ℕ) → HavePids (replicate n (slot 0 unused))
replicate-HavePids zero i p e = cc
replicate-HavePids (suc n) zero p e = ground (arith, e)
replicate-HavePids (suc n) (suc i) p e = replicate-HavePids n i p e

table-HavePids : HavePids table
table-HavePids zero p e = ground (arith, e)
table-HavePids (suc zero) p e = ground (arith, e)
table-HavePids (suc (suc zero)) p e = ground (arith, e)
table-HavePids (suc (suc (suc zero))) p e = ground (arith, e)
table-HavePids (suc (suc (suc (suc i)))) p e = replicate-HavePids 60 i p e

machine-IsWaiting : IsWaiting 3 machine
unfolding matches has_state is_at state_value
machine-IsWaiting = record {
  size = refl;
  enabled = refl;
  current = 1;
  runs = refl;
  current-lt = omega arith;
  pids = table-HavePids;
  slot-lt = omega arith;
  is_ready = ground arith;
}

scheduler_fair_example : RunsWithin 64 3 (λ i. 0x100 * i) machine
scheduler_fair_example = scheduler_fair 3 (λ i. 0x100 * i) machine machine-IsWaiting

find_next_proc_example :
    ((find_next_proc ready machine ≡ (none, record machine { cursor = 63 }))
      × ((i : ℕ) → i < 64 → matches table (some 0) ready i ≡ false))
    ⊎ ((d : ℕ) × (d < 64)
        × (find_next_proc ready machine
            ≡ (some (around 63 d), record machine { cursor = around 63 d + 1 }))
        × (matches table (some 0) ready (around 63 d) ≡ true)
        × ((e : ℕ) → e < d → matches table (some 0) ready (around 63 e) ≡ false))
find_next_proc_example = find_next_proc_lem ready machine
