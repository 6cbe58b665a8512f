-- ===== src/Sched/Dispatch.antt =====
-- kernel/proc.c: what saving a trap frame, making a process ready and switching to one preserve.
use leoman.Base.{ℕ, ◌^◌, ◌<◌}
use leoman.Base.{◌≡◌, refl, ◌∙◌, ◌⊎◌, inl, inr, Bool, true, false, Option, some}
use leoman.Base.{
  List, arith, Bool-cases, Option-cases, ◌==◌, get_elem?, length, length-modify, modify,
}
use leoman.Base.{modify_cases, get_elem?-modify, get_elem?_in_range, done}
use leoman.Proc.{Proc, ready, Kernel, has_state, state_value, update_proc}
use leoman.Proc.Cursor.{matches}
use leoman.Gdt.{seg_kdata}
use leoman.Sched.{make_ready, dispatch, switch_to}

module _ {Queue : Type 0} where
  abbrev pub HavePids : List (Proc Queue) → Type 0
  HavePids procs = (i : ℕ) (p : Proc Queue) → get_elem? procs i ≡ some p → p.pid < 2 ^ 32

  -- Scheduling is on, a process of the table runs, and the process in slot `t`, which is not
  -- idle's, is ready.
  pub record IsWaiting (t : ℕ) (k : Kernel Queue) : Type 0 where
    pub size : length k.procs ≡ 64
    pub enabled : k.scheduling_enabled ≡ true
    pub current : ℕ
    pub runs : k.current_proc ≡ some current
    pub current-lt : current < 64
    pub pids : HavePids k.procs
    pub slot-lt : t < 64
    pub is_ready : matches k.procs k.idle ready t ≡ true

  pub modify-HavePids :
      (procs : List (Proc Queue)) (i : ℕ) (f : Proc Queue → Proc Queue)
      → ((p : Proc Queue) → (f p).pid ≡ p.pid)
      → HavePids procs
      → HavePids (modify procs i f)
  modify-HavePids procs i f same h j y e =
      let (x, at, made) = modify_cases procs i j f y e in ground (arith, h j x at, same x, made)

  -- An access that leaves a ready process ready.
  pub modify-matches :
      (procs : List (Proc Queue)) (idle : Option ℕ) (i t : ℕ) (f : Proc Queue → Proc Queue)
      → ((p : Proc Queue) → ((f p).state ≡ p.state) ⊎ ((f p).state ≡ ready))
      → matches procs idle ready t ≡ true
      → matches (modify procs i f) idle ready t ≡ true
  unfolding matches has_state state_value
  modify-matches procs idle i t f same h = elim (Option-cases (get_elem? procs t)) [
    | inl gone ↦ ground arith
    | inr (p, at) ↦ ground (arith, get_elem?-modify procs i t f, same p)
  ]

  pub save-IsWaiting :
      (t i : ℕ) (f : Proc Queue → Proc Queue) (k : Kernel Queue)
      → ((p : Proc Queue) → (f p).pid ≡ p.pid)
      → ((p : Proc Queue) → ((f p).state ≡ p.state) ⊎ ((f p).state ≡ ready))
      → IsWaiting t k
      → IsWaiting t (update_proc i f k)
  unfolding update_proc
  save-IsWaiting t i f k pid_same state_kept w = record {
    size = length-modify k.procs i f ∙ w.size;
    enabled = w.enabled;
    current = w.current;
    runs = w.runs;
    current-lt = w.current-lt;
    pids = modify-HavePids k.procs i f pid_same w.pids;
    slot-lt = w.slot-lt;
    is_ready = modify-matches k.procs k.idle i t f state_kept w.is_ready;
  }

  pub make_ready-IsWaiting :
      (t i : ℕ) (blocked : Bool) (k : Kernel Queue)
      → IsWaiting t k
      → IsWaiting t (make_ready i blocked k)
  unfolding make_ready
  make_ready-IsWaiting t i true k w = w
  make_ready-IsWaiting t i false k w =
      save-IsWaiting t i (λ p. record p { state = ready }) k (λ p. refl) (λ p. inr refl) w

  -- The process in slot `n` runs now, and the table and the search are as they were.
  pub record IsDispatched (n : ℕ) (k k' : Kernel Queue) : Type 0 where
    pub runs : k'.current_proc ≡ some n
    pub same_procs : k'.procs ≡ k.procs
    pub same_idle : k'.idle ≡ k.idle
    pub same_cursor : k'.cursor ≡ k.cursor
    pub same_enabled : k'.scheduling_enabled ≡ k.scheduling_enabled

  pub dispatch-IsDispatched :
      (n c frame : ℕ) (k : Kernel Queue)
      → n < length k.procs
      → k.current_proc ≡ some c
      → (result : ℕ × Kernel Queue) × (dispatch c frame (some n, k) ≡ done result)
        × IsDispatched n k result.1
  unfolding dispatch switch_to
  dispatch-IsDispatched n c frame k l runs = elim (Bool-cases (n == c)) [
    | inl same ↦ (
      (frame, k),
      rw (same, dispatch),
      record {
        runs = ground arith;
        same_procs = refl;
        same_idle = refl;
        same_cursor = refl;
        same_enabled = refl;
      },
    )
    | inr other ↦
        let (p, at) = get_elem?_in_range k.procs n l in
        (
          (
            p.trapframe,
            record k { current_proc = some n; ss0 = seg_kdata; esp0 = p.kstack; cr3 = p.pdir },
          ),
          rw (other, at, dispatch, switch_to),
          record {
            runs = refl;
            same_procs = refl;
            same_idle = refl;
            same_cursor = refl;
            same_enabled = refl;
          },
        )
  ]

  pub keep-IsWaiting :
      (t n : ℕ) (k k' : Kernel Queue)
      → n < 64
      → IsDispatched n k k'
      → IsWaiting t k
      → IsWaiting t k'
  keep-IsWaiting t n k k' l s w = record {
    size = rw s.same_procs w.size;
    enabled = s.same_enabled ∙ w.enabled;
    current = n;
    runs = s.runs;
    current-lt = l;
    pids = rw s.same_procs w.pids;
    slot-lt = w.slot-lt;
    is_ready = rw (s.same_procs, s.same_idle) w.is_ready;
  }
