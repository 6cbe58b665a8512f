-- ===== src/Ipc/Mailboxes.antt =====
-- What the system calls of kernel/syscall.c do to the processes' mailboxes: the abstract view of a
-- process is its pid, its state and the senders in its receive queue, in order.
use leoman.Base.{u32}
use leoman.Base.{ℕ, ◌≡◌, ◌≢◌, refl, sym, ap, ◌∙◌, some, List, [], ◌∷◌, ◌++◌}
use leoman.Base.{get_elem?, modify, modify_cases, ℕ_discrete, Sum-elim, get_elem?-modify_ne}
use leoman.Proc.{ProcState, ready, send_blocked, recv_blocked, reply_blocked}
use leoman.Stailq.{tail, modify_head}

pub record Mailbox : Type 0 where
  pub pid : ℕ
  pub state : ProcState
  pub waiting : List ℕ

abbrev pub with_state : ProcState → Mailbox → Mailbox
with_state state b = record b { state = state }

abbrev pub on_waiting : (List ℕ → List ℕ) → Mailbox → Mailbox
on_waiting f b = record b { waiting = f b.waiting }

abbrev pub put : ℕ → Mailbox → Mailbox
put sender = on_waiting (λ ws. ws ++ sender ∷ [])

-- The first entry is the sender's, and the process goes on.
abbrev pub answerable : ℕ → Mailbox → Mailbox
answerable sender b = with_state ready (on_waiting (modify_head (λ x. sender)) b)

-- What a system call of the process in slot `c` may make of the mailboxes.
pub data Exchange (c : ℕ) (bs bs' : List Mailbox) : Type 0 where
  -- The receiver does not exist, a message is taken, or there is nothing to reply to.
  unchanged : bs' ≡ bs → Exchange c bs bs'
  -- The receiver waits: its own entry becomes the sender's, and the sender is blocked.
  handed :
      (r w : ℕ) (ws : List ℕ) (me other : Mailbox)
      → get_elem? bs c ≡ some me
      → get_elem? bs r ≡ some other
      → other.state ≡ recv_blocked
      → other.waiting ≡ w ∷ ws
      → bs' ≡ modify (modify bs c (with_state send_blocked)) r (answerable me.pid)
      → Exchange c bs bs'
  -- The receiver is ready: the message is put into its mailbox, and the sender is blocked.
  queued :
      (r : ℕ) (me other : Mailbox)
      → get_elem? bs c ≡ some me
      → get_elem? bs r ≡ some other
      → other.state ≡ ready
      → bs' ≡ modify (modify bs r (put me.pid)) c (with_state reply_blocked)
      → Exchange c bs bs'
  -- The receiver is in another state: the sender goes on.
  left_there :
      (r : ℕ) (me other : Mailbox)
      → get_elem? bs c ≡ some me
      → get_elem? bs r ≡ some other
      → other.state ≢ recv_blocked
      → other.state ≢ ready
      → bs' ≡ modify bs r (put me.pid)
      → Exchange c bs bs'
  -- The caller waits, with an entry of its own.
  waits :
      (x : ℕ) (me : Mailbox)
      → get_elem? bs c ≡ some me
      → me.waiting ≡ []
      → bs' ≡ modify bs c (λ b. put x (with_state recv_blocked b))
      → Exchange c bs bs'
  -- The first sender gets its answer.
  replied :
      (r w : ℕ) (ws : List ℕ) (me other : Mailbox)
      → get_elem? bs c ≡ some me
      → me.waiting ≡ w ∷ ws
      → get_elem? bs r ≡ some other
      → other.pid ≡ u32 w
      → bs' ≡ modify (modify bs c (on_waiting tail)) r (with_state ready)
      → Exchange c bs bs'

-- A process that waits for a message has an entry in its mailbox.
abbrev pub HasEntry : Mailbox → Type 0
HasEntry b = b.state ≡ recv_blocked → b.waiting ≢ []

abbrev pub IsWaiting : List Mailbox → Type 0
IsWaiting bs = (i : ℕ) (b : Mailbox) → get_elem? bs i ≡ some b → HasEntry b

append-not_nil : (ws : List ℕ) (x : ℕ) → ws ++ x ∷ [] ≢ []
append-not_nil [] x = λ e. cc
append-not_nil (w ∷ ws) x = λ e. cc

pub modify-IsWaiting :
    (bs : List Mailbox) (i : ℕ) (f : Mailbox → Mailbox)
    → IsWaiting bs
    → ((b : Mailbox) → get_elem? bs i ≡ some b → HasEntry b → HasEntry (f b))
    → IsWaiting (modify bs i f)
modify-IsWaiting bs i f holds keeps j b e = elim (ℕ_discrete j i) [
  | yes same ↦
      let (x, at, which) = modify_cases bs i j f b e in
      Sum-elim which
        (λ old. λ blocked. λ none_waits.
          holds j x at (ap (λ (y : Mailbox). y.state) (sym old) ∙ blocked)
            (ap (λ (y : Mailbox). y.waiting) (sym old) ∙ none_waits))
        (λ new. λ blocked. λ none_waits.
          keeps x (ap (get_elem? bs) (sym same) ∙ at) (holds j x at)
            (ap (λ (y : Mailbox). y.state) (sym new) ∙ blocked)
            (ap (λ (y : Mailbox). y.waiting) (sym new) ∙ none_waits))
  | no other ↦ holds j b (sym (get_elem?-modify_ne bs i j f other) ∙ e)
]

modify_head-not_nil : (ws : List ℕ) (f : ℕ → ℕ) → ws ≢ [] → modify_head f ws ≢ []
modify_head-not_nil [] f ne = λ e. ne refl
modify_head-not_nil (w ∷ ws) f ne = λ e. cc

-- The caller is not waiting itself.
abbrev pub IsRunning : ℕ → List Mailbox → Type 0
IsRunning c bs = (b : Mailbox) → get_elem? bs c ≡ some b → b.state ≢ recv_blocked

pub Exchange-IsWaiting :
    (c : ℕ) (bs bs' : List Mailbox)
    → IsRunning c bs
    → IsWaiting bs
    → Exchange c bs bs'
    → IsWaiting bs'
Exchange-IsWaiting c bs bs' runs holds (unchanged e) = rw e holds
Exchange-IsWaiting c bs bs' runs holds (handed r w ws me other at at' state first e) = rw e (
    modify-IsWaiting _ r _ (modify-IsWaiting bs c _ holds (λ b here h blocked. cc))
      (λ b here h blocked. cc))
Exchange-IsWaiting c bs bs' runs holds (queued r me other at at' state e) = rw e (
    modify-IsWaiting _ c _
      (modify-IsWaiting bs r _ holds (λ b here h blocked. append-not_nil b.waiting me.pid))
      (λ b here h blocked. cc))
Exchange-IsWaiting c bs bs' runs holds (left_there r me other at at' not_recv not_ready e) =
    rw e (modify-IsWaiting bs r _ holds (λ b here h blocked. append-not_nil b.waiting me.pid))
Exchange-IsWaiting c bs bs' runs holds (waits x me at none_waits e) =
    rw e (modify-IsWaiting bs c _ holds (λ b here h blocked. append-not_nil b.waiting x))
Exchange-IsWaiting c bs bs' runs holds (replied r w ws me other at first at' same e) = rw e (
    modify-IsWaiting _ r _
      (modify-IsWaiting bs c _ holds (λ b here h blocked. absurd (runs b here blocked)))
      (λ b here h blocked. cc))
