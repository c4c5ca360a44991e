-- ===== src/TimerEvent.antt =====
-- source/TimerEvent.c: an event that calls back when its timer has rung, and that may be freed in the
-- callback. What the functions do to the timer, to the callbacks and to memory is a list of effects. The
-- timer is a parameter: it says what Timer_get_time_status() finds.
pub mod Lifetime
mod Tests
use alib_c.Common.{
  ℕ, zero, suc, ◌+◌, ◌-◌, ◌/◌, ◌%◌, Bool, true, false, not, ◌||◌, ◌&&◌, Option, none, some, List,
  [], ◌∷◌, ◌++◌, ◌==◌, if◌then◌else◌, is_some,
}
use alib_c.Common.Run.{Run, ok, fault}

-- A callback that is set is known by its number. The timer is one that was made by the caller or not.
pub record TimerEvent : Type 0 where
  pub timer : Option ℕ
  pub ref_timer : Bool
  pub ex_data : Option ℕ
  pub free_ex_data : Bool
  pub rang_cb : Option ℕ
  pub prep_free_cb : Option ℕ
  pub rang_parent_cb : Option ℕ
  pub parent : Option ℕ
  pub free_inheritor : Option ℕ
  pub fp : ℕ

pub data Effect : Type 0 where
  timer_begun : Effect
  timer_begun_before : Effect
  called : ℕ → Effect
  data_freed : ℕ → Effect
  timer_freed : ℕ → Effect
  event_freed : Effect

-- The event, none once it has been freed, and what has been done
abbrev pub Outcome : Type 0
Outcome = Option TimerEvent × List Effect

abbrev pub object_delete_state : ℕ
object_delete_state = 16

abbrev pub object_callback_state : ℕ
object_callback_state = 32

-- `fp & flag`, flag_raise() and flag_lower(), for a flag of one bit
abbrev pub has_flag : ℕ → ℕ → Bool
has_flag fp flag = if fp / flag % 2 == 0 then false else true

abbrev pub flag_raise : ℕ → ℕ → ℕ
flag_raise fp flag = if has_flag fp flag then fp else fp + flag

abbrev pub flag_lower : ℕ → ℕ → ℕ
flag_lower fp flag = if has_flag fp flag then fp - flag else fp

abbrev pub deleted : TimerEvent → Bool
deleted e = has_flag e.fp object_delete_state

abbrev pub calling : TimerEvent → Bool
calling e = has_flag e.fp object_callback_state

abbrev pub given : Option ℕ → Bool → List Effect
given (some p) true = data_freed p ∷ []
given _ _ = []

-- TimerEvent_set_ex_data(); `free_old` is its `freeOldData`.
pub set_ex_data : TimerEvent → Option ℕ → Bool → Bool → TimerEvent × List Effect
set_ex_data e p callback free_old = (
  record e { ex_data = p; free_ex_data = callback },
  given e.ex_data (free_old && e.free_ex_data),
)

pub set_rang_cb : TimerEvent → Option ℕ → TimerEvent
set_rang_cb e cb = record e { rang_cb = cb }

pub set_prep_free_cb : TimerEvent → Option ℕ → TimerEvent
set_prep_free_cb e cb = record e { prep_free_cb = cb }

pub set_rang_parent_cb : TimerEvent → Option ℕ → Option ℕ → TimerEvent
set_rang_parent_cb e parent cb = record e { parent = parent; rang_parent_cb = cb }

-- What a callback does to the event that calls it. freeTimerEvent() then only raises the flag, since the
-- callback flag is up.
pub data Call : Type 0 where
  free_it : Call
  set_data : Option ℕ → Bool → Bool → Call
  set_rang : Option ℕ → Call
  set_prep : Option ℕ → Call
  begin_it : Call

pub call : TimerEvent → Call → TimerEvent × List Effect
call e free_it = (record e { fp = flag_raise e.fp object_delete_state }, [])
call e (set_data p callback free_old) = set_ex_data e p callback free_old
call e (set_rang cb) = (set_rang_cb e cb, [])
call e (set_prep cb) = (set_prep_free_cb e cb, [])
call e begin_it = (e, timer_begun ∷ [])

pub calls : TimerEvent → List Call → TimerEvent × List Effect
calls e [] = (e, [])
calls e (c ∷ cs) = let (e₁, did) = call e c in let (e₂, rest) = calls e₁ cs in (e₂, did ++ rest)

-- The parent's callback, or else the user's
pub rung_cb : Option ℕ → Option ℕ → Option ℕ
rung_cb none user = user
rung_cb (some p) user = some p

-- The event as initTimerEvent() fills it in
pub fresh : Option ℕ → Bool → Option ℕ → Option ℕ → Bool → TimerEvent
fresh timer ref_timer cb p callback = record {
  timer = timer;
  ref_timer = ref_timer;
  ex_data = p;
  free_ex_data = callback;
  rang_cb = cb;
  prep_free_cb = none;
  rang_parent_cb = none;
  parent = none;
  free_inheritor = none;
  fp = 0;
}

-- What Timer_get_time_status() finds: an error, time that remains, or none
pub data TimeStatus : Type 0 where
  failed : TimeStatus
  remaining : TimeStatus
  overrun : TimeStatus

-- `if(!event->refTimer) freeTimer(event->timer);`
pub timer_effects : TimerEvent → List Effect
timer_effects e = elim e.timer [
  | none ↦ []
  | some t ↦ if e.ref_timer then [] else timer_freed t ∷ []
]

-- `behaviour cb` is what the callback with this number does.
module _ (behaviour : ℕ → List Call) where
  -- `if(cb) cb(event);`
  pub call_back : TimerEvent → Option ℕ → TimerEvent × List Effect
  call_back e none = (e, [])
  call_back e (some cb) = let (e', did) = calls e (behaviour cb) in (e', called cb ∷ did)

  -- The part of freeTimerEvent() that frees
  pub release : TimerEvent → List Effect
  release e =
      let e₀ = record e { fp = flag_raise e.fp object_callback_state } in
      let (e₁, prep) = call_back e₀ e₀.prep_free_cb in
      let (e₂, inheritor) = call_back e₁ e₁.free_inheritor in
      prep ++ inheritor ++ timer_effects e₂ ++ given e₂.ex_data e₂.free_ex_data ++ event_freed ∷ []

  -- freeTimerEvent()
  pub free : Option TimerEvent → Outcome
  free none = (none, [])
  free (some e) =
      let e' = record e { fp = flag_raise e.fp object_delete_state } in
      if calling e then (some e', []) else (none, release e')

  -- delTimerEvent()
  pub del : Option TimerEvent → Outcome
  del e = free e

  -- initTimerEvent() of an event that malloc() has given; without a timer the event is deleted.
  pub init : Option ℕ → Bool → Option ℕ → Option ℕ → Bool → Outcome
  init timer ref_timer cb p callback =
      let e = fresh timer ref_timer cb p callback in
      elim timer [ none ↦ del (some e) | some t ↦ (some e, []) ]

  -- newTimerEvent_ex(); `object` says whether malloc() succeeds, which nothing looks at.
  pub new_ex : (object : Bool) → Option ℕ → Bool → Option ℕ → Option ℕ → Bool → Run Outcome
  new_ex object timer ref_timer cb p callback =
      if object then ok (init timer ref_timer cb p callback) else fault

  -- newTimerEvent(), with what newTimer() has returned
  pub new : (object : Bool) → Option ℕ → Option ℕ → Option ℕ → Bool → Run Outcome
  new object timer cb p callback = new_ex object timer false cb p callback

  -- What TimerEvent_check() does after the callback
  pub settle : TimerEvent → List Effect → Bool × Outcome
  settle e did =
      let e' = record e { fp = flag_lower e.fp object_callback_state } in
      let (after, freed) = free (some e') in
      if deleted e' then (true, (after, did ++ freed)) else (true, (some e', did))

  -- The callback of TimerEvent_check() and what follows it
  pub ring : TimerEvent → List Effect → Bool × Outcome
  ring e did =
      let e₀ = record e { fp = flag_raise e.fp object_callback_state } in
      let (e₁, done) = call_back e₀ (rung_cb e₀.rang_parent_cb e₀.rang_cb) in
      settle e₁ (did ++ done)

  -- TimerEvent_check(): what `rang` is set to, where it is, and the outcome. `rang` stays as it was when
  -- there is no callback.
  pub check : TimeStatus → Bool → TimerEvent → Bool × Outcome
  check failed rang e = (false, (some e, timer_begun ∷ []))
  check remaining rang e = (false, (some e, []))
  check overrun rang e =
      let did = timer_begun_before ∷ [] in
      if is_some e.rang_parent_cb || is_some e.rang_cb then ring e did else (rang, (some e, did))

-- TimerEvent_begin()
pub begin : Option TimerEvent → List Effect
begin none = []
begin (some _) = timer_begun ∷ []

pub get_parent : TimerEvent → Option ℕ
get_parent e = e.parent

pub get_timer : TimerEvent → Option ℕ
get_timer e = e.timer

pub get_ex_data : TimerEvent → Option ℕ
get_ex_data e = e.ex_data

pub get_rang_cb : TimerEvent → Option ℕ
get_rang_cb e = e.rang_cb

pub get_flags : TimerEvent → ℕ
get_flags e = e.fp
