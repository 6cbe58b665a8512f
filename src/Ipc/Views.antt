-- ===== src/Ipc/Views.antt =====
-- kernel/syscall.c: the mailboxes in a system state.
use leoman.Base.{
  ℕ, zero, suc, ◌≡◌, refl, sym, ap, ◌∙◌, none, some, List, [], ◌∷◌, ◌++◌, map, get_elem?, modify,
}
use leoman.Proc.{Proc, ready}
use leoman.Stailq.{Stailq, head?, tail, modify_head}
use leoman.System.{System}
use leoman.Ipc.{set_state, on_queue}
use leoman.Message.{MsgPacketQueue}
use leoman.Ipc.Mailboxes.{Mailbox, on_waiting, put, answerable}

pub map-modify {ℓ κ} :
    {A : Type ℓ} {B : Type κ} (h : A → B) (f : A → A) (g : B → B) (xs : List A) (i : ℕ)
    → ((x : A) → h (f x) ≡ g (h x))
    → map h (modify xs i f) ≡ modify (map h xs) i g
map-modify h f g [] i e = refl
map-modify h f g (x ∷ xs) zero e = ap (λ y. y ∷ map h xs) (e x)
map-modify h f g (x ∷ xs) (suc i) e = ap (λ ys. h x ∷ ys) (map-modify h f g xs i e)

pub modify-modify {ℓ} :
    {A : Type ℓ} (f g : A → A) (xs : List A) (i : ℕ)
    → modify (modify xs i f) i g ≡ modify xs i (λ x. g (f x))
modify-modify f g [] i = refl
modify-modify f g (x ∷ xs) zero = refl
modify-modify f g (x ∷ xs) (suc i) = ap (λ ys. x ∷ ys) (modify-modify f g xs i)

pub get_elem?-map {ℓ κ} :
    {A : Type ℓ} {B : Type κ} (h : A → B) (xs : List A) (i : ℕ) (x : A)
    → get_elem? xs i ≡ some x
    → get_elem? (map h xs) i ≡ some (h x)
get_elem?-map h [] i x e = cc
get_elem?-map h (y ∷ xs) zero x e = cc
get_elem?-map h (y ∷ xs) (suc i) x e = get_elem?-map h xs i x e

abbrev pub sender_of : MsgPacketQueue → ℕ
sender_of e = e.msg.sender

senders-append :
    (es : List MsgPacketQueue) (e : MsgPacketQueue)
    → map sender_of (es ++ e ∷ []) ≡ map sender_of es ++ sender_of e ∷ []
senders-append [] e = refl
senders-append (x ∷ es) e = ap (λ ws. sender_of x ∷ ws) (senders-append es e)

senders-tail : (es : List MsgPacketQueue) → map sender_of (tail es) ≡ tail (map sender_of es)
senders-tail [] = refl
senders-tail (x ∷ es) = refl

senders-modify_head :
    (es : List MsgPacketQueue) (f : MsgPacketQueue → MsgPacketQueue) (g : ℕ → ℕ)
    → ((e : MsgPacketQueue) → sender_of (f e) ≡ g (sender_of e))
    → map sender_of (modify_head f es) ≡ modify_head g (map sender_of es)
senders-modify_head [] f g h = refl
senders-modify_head (x ∷ es) f g h = ap (λ w. w ∷ map sender_of es) (h x)

module _ {Q : Type 0} (q : Stailq MsgPacketQueue Q) where
  open q use {first, insert_tail, remove_head, update_first, elements}

  abbrev pub senders : Q → List ℕ
  senders r = map sender_of (elements r)

  -- The abstract view of a process, and of the table.
  abbrev pub mailbox : Proc Q → Mailbox
  mailbox p = record { pid = p.pid; state = p.state; waiting = senders p.recv_queue }

  abbrev pub mailboxes : System Q → List Mailbox
  mailboxes s = map mailbox s.kernel.procs

  pub mailbox-put :
      (e : MsgPacketQueue) (p : Proc Q)
      → mailbox (on_queue (insert_tail e) p) ≡ put (sender_of e) (mailbox p)
  mailbox-put e p =
      ap (λ (ws : List ℕ). record (mailbox p) { waiting = ws })
        (ap (map sender_of) (q.elements-insert_tail e p.recv_queue)
          ∙ senders-append (elements p.recv_queue) e)

  pub mailbox-remove_head :
      (p : Proc Q) → mailbox (on_queue remove_head p) ≡ on_waiting tail (mailbox p)
  mailbox-remove_head p =
      ap (λ (ws : List ℕ). record (mailbox p) { waiting = ws })
        (ap (map sender_of) (q.elements-remove_head p.recv_queue)
          ∙ senders-tail (elements p.recv_queue))

  pub mailbox-update_first :
      (f : MsgPacketQueue → MsgPacketQueue) (x : ℕ) (p : Proc Q)
      → ((e : MsgPacketQueue) → sender_of (f e) ≡ x)
      → mailbox (set_state ready (on_queue (update_first f) p)) ≡ answerable x (mailbox p)
  mailbox-update_first f x p e =
      ap (λ (ws : List ℕ). record (mailbox p) { state = ready; waiting = ws })
        (ap (map sender_of) (q.elements-update_first f p.recv_queue)
          ∙ senders-modify_head (elements p.recv_queue) f _ e)

  pub senders-first :
      (r : Q) (e : MsgPacketQueue)
      → first r ≡ some e
      → (ws : List ℕ) × (senders r ≡ sender_of e ∷ ws)
  senders-first r e h = first_sender (elements r) (sym (q.first_lem r) ∙ h)
    where
      first_sender :
          (es : List MsgPacketQueue)
          → head? es ≡ some e
          → (ws : List ℕ) × (map sender_of es ≡ sender_of e ∷ ws)
      first_sender [] h = cc
      first_sender (x ∷ es) h = (
        map sender_of es,
        ap (λ (w : MsgPacketQueue). sender_of w ∷ map sender_of es) {x = x} {y = e} (cc),
      )

  pub senders-none : (r : Q) → first r ≡ none → senders r ≡ []
  senders-none r h = no_sender (elements r) (sym (q.first_lem r) ∙ h)
    where
      no_sender : (es : List MsgPacketQueue) → head? es ≡ none → map sender_of es ≡ []
      no_sender [] h = refl
      no_sender (x ∷ es) h = cc
