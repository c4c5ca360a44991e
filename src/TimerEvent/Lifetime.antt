-- ===== src/TimerEvent/Lifetime.antt =====
-- When an event is freed.
use alib_c.Common.{
  ℕ, suc, ◌+◌, ◌≡◌, refl, ◌∙◌, Bool, true, false, not, ◌&&◌, Option, none, some, List, [], ◌∷◌,
  ◌++◌, arith, is_some,
}
use alib_c.TimerEvent.{
  TimerEvent, Effect, timer_begun, timer_begun_before, called, data_freed, timer_freed, event_freed,
  Outcome, object_callback_state, has_flag, flag_raise, deleted, calling, given, set_ex_data,
  set_rang_cb, set_prep_free_cb, Call, free_it, set_data, set_rang, set_prep, begin_it, call, calls,
  call_back, timer_effects, release,
}

-- How often the event is freed
abbrev pub frees : List Effect → ℕ
frees [] = 0
frees (event_freed ∷ es) = suc (frees es)
frees (_ ∷ es) = frees es

frees-append : (es fs : List Effect) → frees (es ++ fs) ≡ frees es + frees fs
frees-append [] fs = omega arith
frees-append (event_freed ∷ es) fs = omega (arith, frees-append es fs)
frees-append (timer_begun ∷ es) fs = frees-append es fs
frees-append (timer_begun_before ∷ es) fs = frees-append es fs
frees-append (called n ∷ es) fs = frees-append es fs
frees-append (data_freed n ∷ es) fs = frees-append es fs
frees-append (timer_freed n ∷ es) fs = frees-append es fs

frees-given : (p : Option ℕ) (callback : Bool) → frees (given p callback) ≡ 0
frees-given none callback = refl
frees-given (some p) true = refl
frees-given (some p) false = refl

-- Whether a callback frees the event
abbrev pub frees_it : List Call → Bool
frees_it [] = false
frees_it (free_it ∷ cs) = true
frees_it (_ ∷ cs) = frees_it cs

raise-delete_calling : (fp : ℕ) → has_flag (flag_raise fp 16) 32 ≡ has_flag fp 32
raise-delete_calling fp = ground arith

raise-calling : (fp : ℕ) → has_flag (flag_raise fp 32) 32 ≡ true
raise-calling fp = ground arith

call-frees : (e : TimerEvent) (c : Call) → frees (call e c).1 ≡ 0
unfolding call set_ex_data
call-frees e free_it = refl
call-frees e (set_data p callback free_old) = frees-given e.ex_data (free_old && e.free_ex_data)
call-frees e (set_rang cb) = refl
call-frees e (set_prep cb) = refl
call-frees e begin_it = refl

call-calling : (e : TimerEvent) (c : Call) → calling (call e c).0 ≡ calling e
unfolding call set_ex_data set_rang_cb set_prep_free_cb
call-calling e free_it = raise-delete_calling e.fp
call-calling e (set_data p callback free_old) = refl
call-calling e (set_rang cb) = refl
call-calling e (set_prep cb) = refl
call-calling e begin_it = refl

calls-frees : (e : TimerEvent) (cs : List Call) → frees (calls e cs).1 ≡ 0
unfolding calls
calls-frees e [] = refl
calls-frees e (c ∷ cs) = omega (
  arith,
  frees-append (call e c).1 (calls (call e c).0 cs).1,
  call-frees e c,
  calls-frees (call e c).0 cs,
)

calls-calling : (e : TimerEvent) (cs : List Call) → calling (calls e cs).0 ≡ calling e
unfolding calls
calls-calling e [] = refl
calls-calling e (c ∷ cs) = calls-calling (call e c).0 cs ∙ call-calling e c

-- The event after it has been checked: freed, or with neither flag raised
abbrev pub Settled : Option TimerEvent → Type 0
Settled none = Unit {0}
Settled (some e) = (calling e ≡ false) × (deleted e ≡ false)

-- What is done after the callback: when it freed the event, other things first and the freeing last, and
-- otherwise nothing.
abbrev pub Ending : Bool → List Effect → Type 0
Ending true after =
    (before : List Effect) × (after ≡ before ++ event_freed ∷ []) × (frees before ≡ 0)
Ending false after = after ≡ []

-- The event as the callback finds it
abbrev pub raised : TimerEvent → TimerEvent
raised e = record e { fp = flag_raise e.fp object_callback_state }

-- How an event comes out of a check that did `did` up to the end of the callback, which freed it or not
abbrev pub Came : List Effect → Bool → Bool × Outcome → Type 0
Came did gone (rang, (e, all)) =
    (rang ≡ true)
    × (is_some e ≡ not gone)
    × ((after : List Effect) × (all ≡ did ++ after) × Ending gone after)
    × Settled e

module _ (behaviour : ℕ → List Call) where
  call_back-frees : (e : TimerEvent) (cb : Option ℕ) → frees (call_back behaviour e cb).1 ≡ 0
  unfolding call_back
  call_back-frees e none = refl
  call_back-frees e (some cb) = calls-frees e (behaviour cb)

  frees-timer :
      (t : Option ℕ) (ref : Bool) (e : TimerEvent)
      → e.timer ≡ t
      → e.ref_timer ≡ ref
      → frees (timer_effects e) ≡ 0
  unfolding timer_effects
  frees-timer none ref e p q = rw p refl
  frees-timer (some t) true e p q = rw (p, q) refl
  frees-timer (some t) false e p q = rw (p, q) refl

  -- freeTimerEvent() on an event that is not in a callback frees it exactly once, as the last thing,
  -- whatever the callbacks that it runs before do.
  pub release-Ending : (e : TimerEvent) → Ending true (release behaviour e)
  unfolding release
  release-Ending e =
      let e₀ : TimerEvent = record e { fp = flag_raise e.fp object_callback_state } in
      let r₁ = call_back behaviour e₀ e₀.prep_free_cb in
      let r₂ = call_back behaviour r₁.0 r₁.0.free_inheritor in
      let timer' = timer_effects r₂.0 in
      let data' = given r₂.0.ex_data r₂.0.free_ex_data in
      (
        r₁.1 ++ r₂.1 ++ timer' ++ data',
        refl,
        omega (
          arith,
          frees-append (r₁.1 ++ r₂.1 ++ timer') data',
          frees-append (r₁.1 ++ r₂.1) timer',
          frees-append r₁.1 r₂.1,
          call_back-frees e₀ e₀.prep_free_cb,
          call_back-frees r₁.0 r₁.0.free_inheritor,
          frees-timer r₂.0.timer r₂.0.ref_timer r₂.0 refl refl,
          frees-given r₂.0.ex_data r₂.0.free_ex_data,
        ),
      )
