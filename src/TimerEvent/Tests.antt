-- ===== src/TimerEvent/Tests.antt =====
-- TimerEvent_check() of source/TimerEvent.c on an event whose callback frees it twice.
use alib_c.Common.{ℕ, true, false, none, some, List, [], ◌∷◌}
use alib_c.TimerEvent.{TimerEvent, Call, free_it, begin_it}

abbrev twice : ℕ → List Call
twice cb = free_it ∷ begin_it ∷ free_it ∷ []

abbrev event : TimerEvent
event = record {
  timer = some 3;
  ref_timer = false;
  ex_data = some 8;
  free_ex_data = true;
  rang_cb = some 1;
  prep_free_cb = none;
  rang_parent_cb = none;
  parent = none;
  free_inheritor = none;
  fp = 0;
}
