-- ===== src/Examples/Allocating.antt =====
-- The allocation tables at concrete inputs, kept as association lists.
use rbkit.Prelude.{
  ◌^◌, ◌<◌, ◌≡◌, ap, sym, subst, true, false, none, some, List, [], ◌∷◌, length, All, Outcome, ok,
  arith,
}
use rbkit.Allocation.{
  TraceArg, class_path_of, Allocations, release, new_rbkit_allocation_info, new_tables,
}
use rbkit.Allocation.Strings.{make_unique_str, new_string, c_string, put}
use rbkit.Allocation.Counts.{IsValid}
use rbkit.Allocation.History.{
  no_allocations, Action, HasIntLine, replay, act_all, act, tables_after-Holds, Holds,
}
use rbkit.Allocation.Tables.{object_table, str_table}

-- The object at 16 is made by a method of the class "A" in the file "a.rb".
abbrev pub first_report : TraceArg
first_report = record {
  object = 16;
  path = some (97 ∷ 46 ∷ 114 ∷ 98 ∷ []);
  line = 7;
  method_id = 3;
  defined_class = some (record { is_frozen = false; cached_path = some (65 ∷ []) });
  gc_count = 2;
}

abbrev one_report : List Action
one_report = Action.created first_report ∷ []

abbrev value_or : Allocations → Outcome Allocations → Allocations
value_or d (ok a) = a
value_or d _ = d

-- The tables with that object in.
abbrev pub one_object : Allocations
one_object = value_or no_allocations (act_all one_report no_allocations)

pub one_object-IsValid : IsValid one_object
one_object-IsValid =
    let (a, q, h) = tables_after-Holds one_report (omega arith, tt) (omega arith) in
    subst IsValid (sym (ap (value_or no_allocations) q)) h.valid

pub one_object-few : length (object_table.entries one_object.object_table) < 2 ^ 62
unfolding new_tables object_table str_table act_all act new_rbkit_allocation_info make_unique_str
    release class_path_of new_string c_string put
one_object-few = omega arith

-- The object is freed, and its place is taken by another that has no file.
abbrev second_report : TraceArg
second_report = record {
  object = 16;
  path = none;
  line = 0;
  method_id = 0;
  defined_class = some (record { is_frozen = true; cached_path = some (66 ∷ []) });
  gc_count = 3;
}

abbrev actions : List Action
actions = Action.created first_report ∷ Action.freed 16 ∷ Action.created second_report ∷ []

actions_fit : All HasIntLine actions
actions_fit = (omega arith, (tt, (omega arith, tt)))

tables_after-Holds_example :
    (a' : Allocations) × (act_all actions no_allocations ≡ ok a')
    × Holds (replay actions (λ j. none)) a'
tables_after-Holds_example = tables_after-Holds actions actions_fit (omega arith)
