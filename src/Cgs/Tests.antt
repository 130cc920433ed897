-- ===== src/Cgs/Tests.antt =====
-- Runs of the searcher and of the executor's steps on a small program, and each theorem at an input
-- that meets its hypotheses. Branch 5 compares what store 7 wrote with 10; the states are 1, 2, 3.
use cgs.Prelude.{
  ◌-◌, ◌^◌, ◌≡◌, ◌≢◌, refl, true, false, Option, none, some, List, [], ◌∷◌, ◌==◌, if◌then◌else◌,
  mem, arith,
}
use cgs.Cgs.State.{
  ExecState, icmp_eq, icmp_ugt, icmp_sgt, icmp_sge, icmp_slt, BdDep, Program, Memory, Searcher, put,
  held, deref,
}
use cgs.Cgs.StoreValue.{is_new_store_value, compare_value, covers_new, update_value}
use cgs.Cgs.Handlers.{
  new_info, handle_fully_covered_branch, handle_partly_covered_branch, drop_target, move_to_branch,
  aim_current, scan_test, scan_states, scan_stores,
}
use cgs.Cgs.Update.{
  update, observe, follow, requeue, reach_branch_step, reach_store_step, on_partly_covered,
  renew_targets, on_reach_store, check_infos, add_states, block_has_store, remove_states,
  select_state,
}
use cgs.Cgs.Recording.{var_const, record_operands, record_arith}
use cgs.Cgs.Tracking.{
  Executor, Observation, visit_br, visit_switch, visit_store, aim_targets, aim_target, mark_reach,
  has_target, count_reach, find_branch, is_unknown, count_found, record_branch, set_dep,
  enqueue_branch, cover_branch, replace_target,
}
use cgs.Cgs.Conservation.{held-update}
use cgs.Cgs.Defined.{IsReady, update-ne-none}
use cgs.Cgs.History.{Question, answers, plain_answers, answers_plain}
use cgs.Cgs.Settled.{handle_fully_covered_branch_lem}
use cgs.Cgs.Tracked.{IsTracked, visit_br-IsTracked}
use cgs.Cgs.Erased.{ErasesBetween}
use cgs.Cgs.Ready.{update-visit_store}
use cgs.Cgs.Caches.{compare_value_unsigned}

abbrev branch_dep : BdDep
branch_dep = record {
  is_switch = false;
  stores = 7 ∷ [];
  pred = icmp_eq;
  arith_op = "";
  arith_var = 0;
  un_covered_pred = icmp_eq;
  var = 3;
  constant = 10;
  un_covered_values = [];
}

abbrev program : Program
program = record { dep = λ b. branch_dep; branch_function = λ b. 0; store_block = λ i. 4 }

-- A state that stored 10, and one that stored nothing.
abbrev stored_ten : ExecState
stored_ten = record {
  branch_infos = [];
  store_values = put (λ i. none) 7 (some 10);
  reach_store = false;
  reach_branch = false;
  covered_new = false;
  function = 0;
  block = 9;
  prev_branch = 5;
}

abbrev blank : ExecState
blank = record stored_ten { store_values = λ i. none }

abbrev memory : Memory
memory = record {
  heap = λ p. if p == 2 then stored_ten else blank;
  invalid_store_values = λ b. none;
  valid_store_values = λ b. [];
}

-- Branch 5 has just become a target, after an instruction of state 1.
abbrev searcher : Searcher
searcher = record {
  states = 1 ∷ 2 ∷ [];
  branch_states = [];
  target_branches = 5 ∷ [];
  fully_covered_branches = [];
  partly_covered_branches = 6 ∷ [];
  target_branch_num = 2;
  update_target_branch = false;
  new_fully_covered_branch = false;
  new_partly_covered_branch = true;
  new_branch_num_from_store = 0;
  func_stores = λ f. 7 ∷ [];
  store_to_branches = λ i. 5 ∷ [];
  memory = memory;
  stale = false;
}

abbrev or_else : Option Searcher → Searcher
or_else none = searcher
or_else (some s) = s

-- The current state and the one that stored 10 go to the branch states; the new one, which stands in
-- a block with no store, does not.
abbrev after_partly : Searcher
after_partly = or_else (update program (some 1) (3 ∷ []) [] searcher)

update_partly : after_partly.branch_states ≡ 1 ∷ 2 ∷ []
unfolding update observe follow requeue reach_branch_step reach_store_step on_partly_covered
    renew_targets add_states block_has_store remove_states handle_partly_covered_branch
    move_to_branch aim_current scan_test scan_states scan_stores is_new_store_value
update_partly = refl

held-update_example : held 3 after_partly ≡ 1
unfolding update observe follow requeue reach_branch_step reach_store_step on_partly_covered
    renew_targets add_states block_has_store remove_states handle_partly_covered_branch
    move_to_branch aim_current scan_test scan_states scan_stores is_new_store_value
held-update_example = held-update program (some 1) (3 ∷ []) [] searcher after_partly refl 3

searcher-IsReady : IsReady 1 searcher
unfolding select_state
searcher-IsReady = record { selected = refl; covered = λ e. cc; counted = λ e. cc; apart = λ e. cc }

update-ne-none_example : update program (some 1) (3 ∷ []) (2 ∷ []) searcher ≢ none
update-ne-none_example = update-ne-none program 1 (3 ∷ []) (2 ∷ []) searcher searcher-IsReady

abbrev questions : List Question
questions =
    record { state = 2; bid = 5; sid = 7 }
    ∷ record { state = 2; bid = 6; sid = 7 }
    ∷ record { state = 2; bid = 5; sid = 7 }
    ∷ []

answers_plain_example :
    answers program questions memory ≡ plain_answers program (λ b. none) memory questions
answers_plain_example = answers_plain program questions memory (λ b. refl) (λ b. refl)

-- Both states wait for branch 5, and state 1 covers it.
abbrev waiting : Searcher
waiting = record searcher {
  states = [];
  branch_states = 1 ∷ 2 ∷ [];
  fully_covered_branches = 5 ∷ [];
  new_fully_covered_branch = true;
  memory = record memory {
    heap = λ p. record stored_ten { branch_infos = new_info 7 5 ∷ []; reach_branch = true };
  };
}

handle_fully_covered_branch_lem_example :
    mem 2 (handle_fully_covered_branch program 1 5 waiting).states ≡ true
unfolding drop_target
handle_fully_covered_branch_lem_example =
    (handle_fully_covered_branch_lem program 1 5 waiting 2 (refl, (refl, tt)) (refl, tt)).3

abbrev greater_dep : BdDep
greater_dep = record branch_dep { pred = icmp_sgt }

-- `4 > a`, with 3 in `a`.
abbrev recorded : BdDep
recorded = record greater_dep { var = 3; constant = 4; un_covered_pred = icmp_sge; pred = icmp_slt }

abbrev recorded_again : BdDep
recorded_again = record recorded { un_covered_pred = icmp_sgt; pred = icmp_sgt }

abbrev executor : Executor
executor = record {
  searcher = searcher;
  program = program;
  invalid_branches = [];
  reach_branch_count = λ b. none;
  max_reach_branch_count = 64;
  stores_with_same_var = λ i. none;
}

abbrev observation : Observation
observation = record { operands = var_const; values = some (3, 10); arith = none }

searcher-IsTracked : IsTracked searcher
searcher-IsTracked = record { once = λ b. ground arith; bounded = omega arith }

abbrev or_same : Option Executor → Executor
or_same none = executor
or_same (some x) = x

abbrev after_br : Executor
after_br = or_same (visit_br 1 8 false observation executor)

-- Branch 8 becomes the second target.
visit_br_found : after_br.searcher.target_branches ≡ 5 ∷ 8 ∷ []
unfolding visit_br mark_reach has_target count_reach find_branch is_unknown count_found
    record_branch record_operands record_arith set_dep enqueue_branch
visit_br_found = refl

visit_br-IsTracked_example : IsTracked after_br.searcher
unfolding visit_br mark_reach has_target count_reach find_branch is_unknown count_found
    record_branch record_operands record_arith set_dep enqueue_branch
visit_br-IsTracked_example =
    visit_br-IsTracked 1 8 false observation executor after_br searcher-IsTracked (λ e. refl) refl

-- The last of the other branches takes the place of a target that is covered.
visit_switch_covered : (visit_switch 1 5 10 executor).searcher.target_branches ≡ 6 ∷ []
unfolding visit_switch mark_reach has_target count_reach set_dep cover_branch replace_target
visit_switch_covered = refl

-- State 1 stores 10 for branch 5 while nothing else is waiting.
abbrev storing : Executor
storing = record executor { searcher = record searcher { new_partly_covered_branch = false } }

abbrev after_visit : Searcher
after_visit = (visit_store [] 1 7 10 storing).searcher

update-visit_store_example :
    (t : Searcher) × (update program (some 1) [] [] after_visit ≡ some t)
    × ErasesBetween 1 after_visit t
unfolding select_state
update-visit_store_example =
    update-visit_store [] [] [] 1 7 10 storing refl refl refl refl refl refl refl

-- A store of 3 does not help to cover the branch: its entry is dropped, and the loop goes on with the
-- iterator at which it erased.
abbrev useless : Searcher
useless = (visit_store [] 1 7 3 storing).searcher

stale_store : (or_else (update program (some 1) [] [] useless)).stale ≡ true
unfolding update observe follow requeue reach_branch_step reach_store_step on_reach_store
    check_infos on_partly_covered renew_targets add_states remove_states is_new_store_value
    visit_store aim_targets aim_target covers_new compare_value update_value
stale_store = refl

-- The store of a value for a target makes an entry.
visit_store_entry :
    (deref (visit_store [] 1 7 10 executor).searcher 1).branch_infos ≡ new_info 7 5 ∷ []
unfolding visit_store aim_targets aim_target
visit_store_entry = refl

-- -1 against 5: the unsigned comparison holds, the one of the code does not.
compare_value_unsigned_example : compare_value icmp_ugt (2 ^ 32 - 1) 5 ≡ false
compare_value_unsigned_example =
    (compare_value_unsigned (2 ^ 32 - 1) 5 (omega arith) (omega arith)).0
