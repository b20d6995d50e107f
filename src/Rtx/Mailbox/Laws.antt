-- ===== src/Rtx/Mailbox/Laws.antt =====
-- A mailbox is a bounded queue of messages.
use remotus_hardware.Base.{
  ℕ, suc, ◌+◌, ◌<◌, ◌≡◌, refl, sym, ap, ◌∙◌, some, List, [], ◌∷◌, ◌++◌, length, get_elem?, set,
  length-set, arith, not_eq, dec_lt, get_elem?-in,
}
use remotus_hardware.Rtx.Block.{add16, sub16}
use remotus_hardware.Rtx.Block.Rc
use remotus_hardware.Rtx.Kernel.{Kernel, Mcb}
use remotus_hardware.Rtx.Mailbox.{next_at, store_msg, load_msg, set_mailbox, mbx_send, mbx_wait}
use remotus_hardware.Rtx.Mailbox.Ring.{
  IsRing, place, place_in, place_apart, place_next, place_behind, get_elem?-front, get_elem?-back,
  length-back, get_elem?-set_same, get_elem?-set_other, next_in,
}

-- What has gone in is found at its place, and so is all that was there.
held_after :
    (m : Mcb) (xs : List ℕ) (v : ℕ)
    → IsRing m xs
    → length xs < m.size
    → (i : ℕ) → i < length xs + 1
    → get_elem? (set m.msg m.first v) (place m.last m.size i) ≡ get_elem? (xs ++ (v ∷ [])) i
held_after m xs v r room i h = elim (dec_lt i (length xs)) [
  | yes before ↦
      get_elem?-set_other m.msg m.first (place m.last m.size i) v
        (λ e. place_apart m.last m.size r.last_in i (length xs) before room (sym r.first_is ∙ e))
      ∙ r.held i before
      ∙ sym (get_elem?-front xs v i before)
  | no here ↦
      let last : i ≡ length xs = omega arith in
      rw (last, sym r.first_is)
        (get_elem?-set_same m.msg m.first v
            (rw (r.first_is, r.array) (place_in m.last m.size r.last_in (length xs) r.fits))
          ∙ sym (get_elem?-back xs v))
]

-- The members of a mailbox that its ring does not use, and its size.
abbrev pub SameMailbox : Mcb → Mcb → Type 0
SameMailbox m m1 = (m1.state ≡ m.state) × (m1.isr_st ≡ m.isr_st) × (m1.size ≡ m.size)

store_msg_lem :
    (m : Mcb) (xs : List ℕ) (v : ℕ)
    → IsRing m xs
    → length xs < m.size
    → (m1 : Mcb) × (store_msg m v ≡ some m1)
      × SameMailbox m m1
      × IsRing (record m1 { count = add16 m.count 1 }) (xs ++ (v ∷ []))
unfolding store_msg
store_msg_lem m xs v r room =
    let inside = place_in m.last m.size r.last_in (length xs) r.fits in
    let (old, found) = get_elem?-in m.msg m.first (rw (r.first_is, r.array) inside) in
    let m1 : Mcb = record m { msg = set m.msg m.first v; first = next_at m.first m.size } in
    (
      m1,
      rw found refl,
      (refl, refl, refl),
      record {
        count_is = omega (arith, r.count_is, r.small, length-back xs v);
        fits = omega (arith, length-back xs v);
        small = r.small;
        array = length-set m.msg m.first v ∙ r.array;
        last_in = r.last_in;
        first_is =
            rw (r.first_is, length-back xs v)
              (place_next m.last m.size r.last_in (length xs) room r.small);
        held = λ i h. held_after m xs v r room i (omega (arith, length-back xs v));
      },
    )

load_msg_lem :
    (m : Mcb) (x : ℕ) (xs : List ℕ)
    → IsRing m (x ∷ xs)
    → (m1 : Mcb) × (load_msg m ≡ some (x, m1))
      × SameMailbox m m1
      × IsRing (record m1 { count = sub16 m.count 1 }) xs
unfolding load_msg
load_msg_lem m x xs r =
    let m1 : Mcb = record m { last = next_at m.last m.size } in
    let first = r.held 0 (omega arith) in
    let at_last : place m.last m.size 0 ≡ m.last = ground (arith, r.last_in) in
    (
      m1,
      rw (rw at_last at first) refl,
      (refl, refl, refl),
      record {
        count_is = omega (arith, r.count_is, r.small, r.fits);
        fits = omega (arith, r.fits);
        small = r.small;
        array = r.array;
        last_in = next_in m.last m.size r.last_in r.small;
        first_is =
            r.first_is
            ∙ ap (place m.last m.size) (omega arith)
            ∙ sym
                (place_behind m.last m.size r.last_in (length xs) (omega (arith, r.fits)) r.small);
        held = λ i h.
            ap (get_elem? m.msg) (
              place_behind m.last m.size r.last_in i (omega (arith, h, r.fits)) r.small
              ∙ ap (place m.last m.size) (omega arith))
            ∙ r.held (suc i) (omega arith);
      },
    )

-- rt_mbx_send when no task waits at the mailbox and it has room: whatever the timeout, the result
-- is OS_R_OK, the message is behind those that the mailbox holds, its state, isr_st and size stay,
-- and nothing else of the kernel changes.
pub mbx_send_lem :
    (fuel : ℕ) (k : Kernel) (mailbox v timeout : ℕ) (xs : List ℕ)
    → (k.blocks mailbox).p_lnk ≡ 0
    → IsRing (k.mailboxes mailbox) xs
    → length xs < (k.mailboxes mailbox).size
    → (m : Mcb) × (mbx_send fuel k mailbox v timeout ≡ some (Rc.ok, set_mailbox k mailbox m))
      × SameMailbox (k.mailboxes mailbox) m
      × IsRing m (xs ++ (v ∷ []))
unfolding mbx_send
mbx_send_lem fuel k mailbox v timeout xs none_wait r room =
    let m = k.mailboxes mailbox in
    let (m1, stored, same, r1) = store_msg_lem m xs v r room in
    (
      record m1 { count = add16 m.count 1 },
      rw (none_wait, not_eq m.count m.size (omega (arith, r.count_is)), stored) refl,
      same,
      r1,
    )

-- rt_mbx_wait when no task waits at the mailbox and it holds messages: whatever the timeout, the
-- result is OS_R_OK with the oldest message, the others stay in their order, the mailbox's state,
-- isr_st and size stay, and nothing else of the kernel changes.
pub mbx_wait_lem :
    (fuel : ℕ) (k : Kernel) (mailbox old timeout x : ℕ) (xs : List ℕ)
    → (k.blocks mailbox).p_lnk ≡ 0
    → IsRing (k.mailboxes mailbox) (x ∷ xs)
    → (m : Mcb) × (mbx_wait fuel k mailbox old timeout ≡ some (Rc.ok, x, set_mailbox k mailbox m))
      × SameMailbox (k.mailboxes mailbox) m
      × IsRing m xs
unfolding mbx_wait
mbx_wait_lem fuel k mailbox old timeout x xs none_wait r =
    let m = k.mailboxes mailbox in
    let (m1, loaded, same, r1) = load_msg_lem m x xs r in
    (
      record m1 { count = sub16 m.count 1 },
      rw (none_wait, not_eq m.count 0 (omega (arith, r.count_is)), loaded) refl,
      same,
      r1,
    )
