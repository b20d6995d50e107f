-- ===== src/Rtx/PrioList/Frame.antt =====
-- What rt_put_prio leaves alone on the ready list, which has no links back.
use remotus_hardware.Base.{
  ℕ, zero, suc, ◌≡◌, sym, ◌∙◌, Option, some, Bool, true, false, not, ◌&&◌, ◌==◌, leb, if◌then◌else◌,
  arith, ◌⊎◌, inl, inr,
}
use remotus_hardware.Rtx.Block.{Store}
use remotus_hardware.Rtx.PrioList.{is_sem_mbx, insert_at, put_from, put_prio}

-- The members that rt_put_prio does not write without links back.
abbrev pub SameRest : Store → Store → ℕ → Type 0
SameRest s s' x =
    ((s' x).cb_type ≡ (s x).cb_type) × ((s' x).state ≡ (s x).state) × ((s' x).p_rlnk ≡ (s x).p_rlnk)

pub SameRest-trans :
    (s s1 s2 : Store) (x : ℕ) → SameRest s s1 x → SameRest s1 s2 x → SameRest s s2 x
SameRest-trans s s1 s2 x (a, b, c) (d, e, f) = (d ∙ a, e ∙ b, f ∙ c)

insert_at-SameRest :
    (s : Store) (p_task p p2 x : ℕ) → ¬ (x ≡ p_task) → SameRest s (insert_at false p_task s p p2) x
unfolding insert_at
insert_at-SameRest s p_task p p2 x h = (grind arith, grind arith, grind arith)

-- One of two outcomes is the result.
pub outcome :
    (b : Bool) (rest : Option Store) (s1 s' : Store)
    → (if b then rest else some s1) ≡ some s'
    → (rest ≡ some s') ⊎ (s1 ≡ s')
outcome true rest s1 s' e = inl e
outcome false rest s1 s' e = inr (cc e)

put_from-SameRest :
    (fuel : ℕ) (s s' : Store) (prio p_task p p2 x : ℕ)
    → ¬ (x ≡ p_task)
    → put_from fuel false prio p_task s p p2 ≡ some s'
    → SameRest s s' x
unfolding put_from
put_from-SameRest zero s s' prio p_task p p2 x h e = absurd (cc e)
put_from-SameRest (suc fuel) s s' prio p_task p p2 x h e =
    elim (outcome (not (p2 == 0) && leb prio (s p2).prio) _ _ s' e) [
      | inl rest ↦ put_from-SameRest fuel s s' prio p_task p2 (s p2).p_lnk x h rest
      | inr here ↦ rw (sym here) (insert_at-SameRest s p_task p p2 x h)
    ]

pub put_prio-SameRest :
    (fuel : ℕ) (s s' : Store) (p_cb p_task x : ℕ)
    → is_sem_mbx (s p_cb).cb_type ≡ false
    → ¬ (x ≡ p_task)
    → put_prio fuel s p_cb p_task ≡ some s'
    → SameRest s s' x
unfolding put_prio
put_prio-SameRest fuel s s' p_cb p_task x plain h e =
    put_from-SameRest fuel s s' (s p_task).prio p_task p_cb (s p_cb).p_lnk x h (rw plain at e)
